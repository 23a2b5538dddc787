-- ===== src/Conversion/Trimmed.antt =====
-- pkg/utils/conversion.go: the labels of an update without those to be ignored, label by label.
use clusterrouter.Base.{
  String, ◌≡◌, ◌≢◌, refl, sym, ap, subst, ◌∙◌, ◌⊎◌, inl, inr, Option, none, some, List, [], ◌∷◌,
  Map, lookup, insert, delete, lookup-delete, text_dec, ite,
}
use clusterrouter.Conversion.{or_blank}
use clusterrouter.Conversion.Labels.{trim_from, trim_labels}
use clusterrouter.Conversion.Trim.{trimmed_labels}
use clusterrouter.Conversion.Recover.{trim_from_blank, trim_from_full}

abbrev pub IsListed : String → List String → Type 0
IsListed k [] = ⊥
IsListed k (key ∷ keys) = (key ≡ k) ⊎ IsListed k keys

-- A label's value before and after: one that is to be ignored is gone, unless its value is blank,
-- and any other is as it was.
pub record IsTrimmed (keys : List String) (k : String) (before after : Option String) : Type 0 where
  pub ignored : IsListed k keys → before ≢ some "" → after ≡ none
  pub others : (IsListed k keys → ⊥) → after ≡ before
  pub blank : before ≡ some "" → after ≡ before
  pub absent : before ≡ none → after ≡ none

no_value : (o : Option String) → or_blank o ≡ "" → o ≢ some "" → o ≡ none
no_value none e n = refl
no_value (some s) e n = absurd (n (ap some e))

trim_from-IsTrimmed :
    (keys : List String) (labels tripped : Map String) (k : String)
    → IsTrimmed keys k (lookup k labels) (lookup k (trim_from labels tripped keys).0)
unfolding trim_from
trim_from-IsTrimmed [] labels tripped k = record {
  ignored = λ h n. absurd h;
  others = λ n. refl;
  blank = λ e. refl;
  absent = λ e. e;
}
trim_from-IsTrimmed (key ∷ keys) labels tripped k =
    elim (text_dec (or_blank (lookup key labels)) "") [
      | yes e ↦
          subst (λ r. IsTrimmed (key ∷ keys) k (lookup k labels) (lookup k r.0))
            (sym (trim_from_blank labels tripped key keys e))
            (kept e (trim_from-IsTrimmed keys labels tripped k))
      | no n ↦
          let tripped' = insert key (or_blank (lookup key labels)) tripped in
          subst (λ r. IsTrimmed (key ∷ keys) k (lookup k labels) (lookup k r.0))
            (sym (trim_from_full labels tripped key keys n))
            (deleted n (text_dec key k) (
              subst
                (λ o. IsTrimmed keys k o (lookup k (trim_from (delete key labels) tripped' keys).0))
                (lookup-delete key k labels)
                (trim_from-IsTrimmed keys (delete key labels) tripped' k)))
    ]
  where
    kept :
        {p : Option String}
        → or_blank (lookup key labels) ≡ ""
        → IsTrimmed keys k (lookup k labels) p
        → IsTrimmed (key ∷ keys) k (lookup k labels) p
    kept e t = record {
      ignored = λ h n. elim h [
        | inl same ↦
            t.absent
              (no_value (lookup k labels) (subst (λ j. or_blank (lookup j labels) ≡ "") same e) n)
        | inr there ↦ t.ignored there n
      ];
      others = λ n. t.others (λ h. n (inr h));
      blank = t.blank;
      absent = t.absent;
    }

    deleted :
        {p : Option String}
        → or_blank (lookup key labels) ≢ ""
        → (d : Dec (key ≡ k)) → IsTrimmed keys k (ite d none (lookup k labels)) p
        → IsTrimmed (key ∷ keys) k (lookup k labels) p
    deleted n (yes same) t = record {
      ignored = λ h m. t.absent refl;
      others = λ m. absurd (m (inl same));
      blank = λ e. absurd (n (ap (λ j. or_blank (lookup j labels)) same ∙ ap or_blank e));
      absent = λ e. t.absent refl;
    }
    deleted n (no differs) t = record {
      ignored = λ h m. elim h [ inl same ↦ absurd (differs same) | inr there ↦ t.ignored there m ];
      others = λ m. t.others (λ h. m (inr h));
      blank = t.blank;
      absent = t.absent;
    }

abbrev pub ignored_keys : Option (List String) → List String
ignored_keys none = []
ignored_keys (some keys) = keys

-- The labels after trimming: none if there were none, and else trimmed one by one.
abbrev pub HaveTrimmed : Option (List String) → Option (Map String) → Option (Map String) → Type 0
HaveTrimmed ignore_labels none after = after ≡ none
HaveTrimmed ignore_labels (some labels) after =
    (kept : Map String) × (after ≡ some kept)
    × ((k : String) → IsTrimmed (ignored_keys ignore_labels) k (lookup k labels) (lookup k kept))

pub trimmed_labels-HaveTrimmed :
    (labels : Option (Map String)) (ignore_labels : Option (List String))
    → HaveTrimmed ignore_labels labels (trimmed_labels labels ignore_labels)
unfolding trim_labels
trimmed_labels-HaveTrimmed none ignore_labels = refl
trimmed_labels-HaveTrimmed (some labels) none = (
  labels,
  refl,
  λ k. record { ignored = λ h n. absurd h; others = λ n. refl; blank = λ e. refl; absent = λ e. e },
)
trimmed_labels-HaveTrimmed (some labels) (some keys) =
    ((trim_from labels [] keys).0, refl, trim_from-IsTrimmed keys labels [])
