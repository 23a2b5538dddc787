-- ===== src/Environment/Keyed.antt =====
-- pkg/utils/podutils/env.go: how the code splits the paths that have a key in brackets, and which paths
-- are none of the fields.
use clusterrouter.Base.{
  true, false, Option, none, some, List, [], ◌∷◌, ◌≡◌, ◌≢◌, refl, sym, subst, ap, ◌∙◌, if_neg,
  arith, ℕ_discrete, some_cancel, drop, length, ◌⊎◌, Bool-cases, Option-cases, inl, inr, String,
  All,
}
use clusterrouter.Expansion.{Bytes}
use clusterrouter.Environment.{bytes_dec, ascii}
use clusterrouter.Environment.Fields.{split_maybe_subscripted_path, is_one_of, field_labels}
use clusterrouter.Environment.Bracketed.{
  key_of, bracketed, key_of-bracketed, key_of_sound, split_maybe_subscripted_path_sound,
}
use clusterrouter.Environment.Paths.{split_maybe_subscripted_path-append}
use clusterrouter.Environment.Refused.{readable}

pub is_one_of-All :
    (P : Bytes → Type 0) (s : Bytes) (names : List String)
    → All (λ t. P (ascii t)) names
    → is_one_of s names ≡ true
    → P s
unfolding is_one_of
is_one_of-All P s [] h e = cc
is_one_of-All P s (t ∷ ts) h e = elim (bytes_dec s (ascii t)) [
  | yes q ↦ subst P (sym q) h.0
  | no n ↦
      is_one_of-All P s ts h.1 (sym (if_neg (bytes_dec s (ascii t)) n true (is_one_of s ts)) ∙ e)
]

-- A path that is none of the names is not readable either.
pub unread :
    (path : Bytes)
    → is_one_of path field_labels ≡ false
    → is_one_of path ("spec.host" ∷ []) ≡ false
    → is_one_of path readable ≡ false
unfolding is_one_of bytes_dec ascii ℕ_discrete
unread path f g = elim (Bool-cases (is_one_of path readable)) [
  | inr r ↦ r
  | inl r ↦
      let Known : Bytes → Type 0 =
        λ p. (is_one_of p field_labels ≡ true) ⊎ (is_one_of p ("spec.host" ∷ []) ≡ true) in
      elim (is_one_of-All Known path readable
        (
          inl refl,
          (inl refl, (inl refl, (inl refl, (inl refl, (inl refl, (inl refl, (inr refl, tt))))))),
        )
        r) [ inl t ↦ cc | inr t ↦ cc ]
]

-- A name is none of the labels, so no path that is none of them is the name.
pub unnamed :
    (t : String) (path : Bytes)
    → is_one_of (ascii t) field_labels ≡ true
    → is_one_of path field_labels ≡ false
    → is_one_of path (t ∷ []) ≡ false
unfolding is_one_of
unnamed t path h f = elim (bytes_dec path (ascii t)) [
  | yes e ↦ absurd (cc (subst (λ p. is_one_of p field_labels ≡ true) (sym e) h))
  | no n ↦ rw (if_neg (bytes_dec path (ascii t)) n) refl
]

-- How the code splits a path of that name with a key.
abbrev pub Splits : String → Type 0
Splits t = (k : Bytes) → split_maybe_subscripted_path (bracketed (ascii t) k) ≡ some (ascii t, k)

pub annotations-split : Splits "metadata.annotations"
unfolding ascii
annotations-split k =
    split_maybe_subscripted_path-append b'm' (drop 1 (ascii "metadata.annotations")) k
      (ground arith)

pub labels-split : Splits "metadata.labels"
unfolding ascii
labels-split k =
    split_maybe_subscripted_path-append b'm' (drop 1 (ascii "metadata.labels")) k (ground arith)

key-split :
    (t : String) (path k : Bytes)
    → Splits t
    → key_of t path ≡ some k
    → split_maybe_subscripted_path path ≡ some (ascii t, k)
key-split t path k h e = ap split_maybe_subscripted_path (key_of_sound t path k e) ∙ h k

pub not_key :
    (t : String) (path : Bytes)
    → Splits t
    → split_maybe_subscripted_path path ≡ none
    → key_of t path ≡ none
not_key t path h e = elim (Option-cases (key_of t path)) [
  | inl n ↦ n
  | inr (k, s) ↦ absurd (none_some k (sym e ∙ key-split t path k h s))
]
  where
    none_some : (k : Bytes) → ◌≡◌ {A = Option (Bytes × Bytes)} none (some (ascii t, k)) → ⊥
    none_some k f = cc

pub other_key :
    (t : String) (path p k : Bytes)
    → Splits t
    → p ≢ ascii t
    → split_maybe_subscripted_path path ≡ some (p, k)
    → key_of t path ≡ none
other_key t path p k h n e = elim (Option-cases (key_of t path)) [
  | inl absent ↦ absent
  | inr (j, s) ↦
      absurd (n (ap (λ (x : Bytes × Bytes). x.0) (some_cancel (sym e ∙ key-split t path j h s))))
]

pub split-key :
    (t : String) (path k : Bytes)
    → split_maybe_subscripted_path path ≡ some (ascii t, k)
    → key_of t path ≡ some k
split-key t path k e =
    ap (key_of t) (split_maybe_subscripted_path_sound path (ascii t) k e) ∙ key_of-bracketed t k

pub names_differ : ascii "metadata.labels" ≢ ascii "metadata.annotations"
unfolding ascii
names_differ e = omega (arith, ap length e)
