-- ===== src/Conversion/Entries.antt =====
-- Entries of maps that may be nil.
use clusterrouter.Base.{
  String, ◌≡◌, ◌≢◌, refl, Option, Map, lookup-insert, text_dec, if_pos, if_neg,
}
use clusterrouter.Conversion.{or_no_entries, value_at, put_entry}

pub value_at-put_entry : (k v : String) (m : Option (Map String)) → value_at k (put_entry k v m) ≡ v
value_at-put_entry k v m =
    rw (lookup-insert k k v (or_no_entries m)) (rw (if_pos (text_dec k k) refl))

pub value_at_other :
    (k j v : String) (m : Option (Map String)) → k ≢ j → value_at j (put_entry k v m) ≡ value_at j m
value_at_other k j v m n = rw (lookup-insert k j v (or_no_entries m)) (rw (if_neg (text_dec k j) n))
