-- ===== src/Controllers/Memory.antt =====
-- A cluster in memory, which shows that the laws of Controllers/Api.antt can hold.
use clusterrouter.Base.{String, ◌≡◌, ◌≢◌, refl, Option, none, some, ite, if_pos, if_neg}
use clusterrouter.Controllers.Api.{
  Key, key_dec, not_found, already_exists, Answer, ok, err, failure_unless_gone, Client, Kind,
  IsLawful,
}

-- A cluster in memory. A patch is applied by the given function.
module _ {A : Type 0} (K : Kind A) (apply : String → A → A) where
  abbrev pub found : Option A → Answer A
  found none = err not_found
  found (some a) = ok a

  unfoldable pub put : Key → Option A → (Key → Option A) → Key → Option A
  put k o s j = ite (key_dec k j) o (s j)

  abbrev pub created : (Key → Option A) → A → Option A → (Key → Option A) × Answer A
  created s a none = (put (K.key a) (some a) s, ok a)
  created s a (some b) = (s, err already_exists)

  abbrev pub patched : (Key → Option A) → Key → String → Option A → (Key → Option A) × Answer A
  patched s k p none = (s, err not_found)
  patched s k p (some a) = (put k (some (apply p a)) s, ok (apply p a))

  abbrev pub deleted : (Key → Option A) → Key → Option A → (Key → Option A) × Answer (Unit {0})
  deleted s k none = (s, err not_found)
  deleted s k (some a) = (put k none s, ok tt)

  abbrev pub memory : Client A
  memory = record {
    State = Key → Option A;
    stored = λ s k. s k;
    get = λ s k. found (s k);
    create = λ s a. created s a (s (K.key a));
    update = λ s a. (put (K.key a) (some a) s, ok a);
    patch = λ s k p. patched s k p (s k);
    delete = λ s k. deleted s k (s k);
  }

  pub put_same : (k : Key) (o : Option A) (s : Key → Option A) → put k o s k ≡ o
  unfolding put
  put_same k o s = if_pos (key_dec k k) refl o (s k)

  pub put_others : (k j : Key) (o : Option A) (s : Key → Option A) → k ≢ j → put k o s j ≡ s j
  unfolding put
  put_others k j o s n = if_neg (key_dec k j) n o (s j)

  deleted_others :
      (s : Key → Option A) (k j : Key) (o : Option A) → k ≢ j → (deleted s k o).0 j ≡ s j
  deleted_others s k j none n = refl
  deleted_others s k j (some a) n = put_others k j none s n

  deleted_gone :
      (s : Key → Option A) (k : Key) (o : Option A) → s k ≡ o → (deleted s k o).0 k ≡ none
  deleted_gone s k none e = e
  deleted_gone s k (some a) e = put_same k none s

  pub deleted_reliable :
      (s : Key → Option A) (k : Key) (o : Option A) → failure_unless_gone (deleted s k o).1 ≡ none
  deleted_reliable s k none = refl
  deleted_reliable s k (some a) = refl

  pub memory-IsLawful : IsLawful K memory
  memory-IsLawful = record {
    delete-others = λ s k j n. deleted_others s k j (s k) n;
    delete_gone = λ s k h. deleted_gone s k (s k) refl;
    update-others = λ s a j n. put_others (K.key a) j (some a) s n;
    update_stored = λ s a h. put_same (K.key a) (some a) s;
  }

-- For kinds that are not patched.
abbrev pub keep : {A : Type 0} → String → A → A
keep p a = a
