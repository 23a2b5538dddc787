-- ===== src/Environment/Bracketed.antt =====
-- pkg/utils/podutils/env.go: the key in brackets at the end of a path, read apart from the code's
-- splitting of paths.
use clusterrouter.Base.{
  ℕ, zero, suc, ◌-◌, Bool, true, false, Option, none, some, [], ◌∷◌, ◌++◌, ◌≡◌, ◌≢◌, refl, sym,
  subst, ap, ap₂, ◌∙◌, ite, if_pos, if_neg, if◌then◌else◌, length, length-append, take, drop, arith,
  ℕ_discrete, some_cancel, Option-cases, inl, inr, String,
}
use clusterrouter.Expansion.{Bytes}
use clusterrouter.Environment.{bytes_dec, ascii}
use clusterrouter.Environment.Fields.{
  has_prefix, has_suffix, split_2, subscript_opener, subscript_closer, subscripted,
  split_maybe_subscripted_path,
}

-- What follows the first text in the second.
abbrev pub after : Bytes → Bytes → Option Bytes
after [] s = some s
after (c ∷ p) [] = none
after (c ∷ p) (d ∷ s) = ite (ℕ_discrete c d) (after p s) none

abbrev before_more : ℕ → Option Bytes → Option Bytes
before_more c none = none
before_more c (some k) = some (c ∷ k)

-- What stands before the brackets that end the text.
abbrev pub before_closer : Bytes → Option Bytes
before_closer [] = none
before_closer (c ∷ s) =
    ite (bytes_dec (c ∷ s) subscript_closer) (some []) (before_more c (before_closer s))

abbrev key_in : Option Bytes → Option Bytes
key_in none = none
key_in (some rest) = before_closer rest

-- The key of a path of the form `t['key']`.
abbrev pub key_of : String → Bytes → Option Bytes
key_of t path = key_in (after (ascii t ++ subscript_opener) path)

-- `path['subscript']`.
abbrev pub bracketed : Bytes → Bytes → Bytes
bracketed path subscript = (path ++ (subscript_opener ++ subscript)) ++ subscript_closer

after_sound : (p s r : Bytes) → after p s ≡ some r → s ≡ p ++ r
after_sound [] s r e = some_cancel e
after_sound (c ∷ p) [] r e = cc
after_sound (c ∷ p) (d ∷ s) r e = elim (ℕ_discrete c d) [
  | yes q ↦ ap₂ (λ x y. x ∷ y) (sym q) (after_sound p s r (sym (rw (if_pos _ q)) ∙ e))
  | no n ↦ none_some (sym (rw (if_neg _ n)) ∙ e)
]
  where
    none_some : none ≡ some r → d ∷ s ≡ (c ∷ p) ++ r
    none_some f = cc

after_append : (p r : Bytes) → after p (p ++ r) ≡ some r
after_append [] r = refl
after_append (c ∷ p) r = rw (if_pos (ℕ_discrete c c) refl) (after_append p r)

before_sound : (s k : Bytes) → before_closer s ≡ some k → s ≡ k ++ subscript_closer
before_sound [] k e = cc
before_sound (c ∷ s) k e = elim (bytes_dec (c ∷ s) subscript_closer) [
  | yes q ↦
      subst (λ x. c ∷ s ≡ x ++ subscript_closer)
        (some_cancel (
          sym (
            if_pos (bytes_dec (c ∷ s) subscript_closer) q (some [])
              (before_more c (before_closer s)))
          ∙ e))
        q
  | no n ↦
      let e' : before_more c (before_closer s) ≡ some k =
        sym (
          if_neg (bytes_dec (c ∷ s) subscript_closer) n (some []) (before_more c (before_closer s)))
        ∙ e in
      elim (Option-cases (before_closer s)) [
        | inl f ↦ absurd (more_none (before_closer s) f e')
        | inr (j, f) ↦
            subst (λ x. c ∷ s ≡ x ++ subscript_closer) (more_some (before_closer s) j f e')
              (ap (◌∷◌ c) (before_sound s j f))
      ]
]
  where
    more_none : (o : Option Bytes) → o ≡ none → before_more c o ≡ some k → ⊥
    more_none none f g = cc
    more_none (some j) f g = cc

    more_some : (o : Option Bytes) (j : Bytes) → o ≡ some j → before_more c o ≡ some k → c ∷ j ≡ k
    more_some none j f g = cc
    more_some (some i) j f g = ap (◌∷◌ c) (sym (some_cancel f)) ∙ some_cancel g

before_append : (k : Bytes) → before_closer (k ++ subscript_closer) ≡ some k
before_append [] = rw (if_pos (bytes_dec subscript_closer subscript_closer) refl) refl
before_append (c ∷ k) =
    rw (if_neg (bytes_dec (c ∷ (k ++ subscript_closer)) subscript_closer) differs)
      (ap (before_more c) (before_append k))
  where
    differs : c ∷ (k ++ subscript_closer) ≢ subscript_closer
    differs e = omega (arith, length-append k subscript_closer, ap length e)

bracketed_lem : (p k : Bytes) → bracketed p k ≡ (p ++ subscript_opener) ++ (k ++ subscript_closer)
bracketed_lem [] k = refl
bracketed_lem (c ∷ p) k = ap (◌∷◌ c) (bracketed_lem p k)

pub key_of-bracketed : (t : String) (k : Bytes) → key_of t (bracketed (ascii t) k) ≡ some k
key_of-bracketed t k =
    let rest = k ++ subscript_closer in
    ap (key_of t) (bracketed_lem (ascii t) k)
    ∙ ap key_in (after_append (ascii t ++ subscript_opener) rest)
    ∙ before_append k

pub key_of_sound :
    (t : String) (path k : Bytes) → key_of t path ≡ some k → path ≡ bracketed (ascii t) k
key_of_sound t path k e = by_rest (after (ascii t ++ subscript_opener) path) refl e
  where
    by_rest :
        (o : Option Bytes)
        → after (ascii t ++ subscript_opener) path ≡ o
        → key_in o ≡ some k
        → path ≡ bracketed (ascii t) k
    by_rest none f g = cc
    by_rest (some rest) f g =
        after_sound (ascii t ++ subscript_opener) path rest f
        ∙ ap (λ x. (ascii t ++ subscript_opener) ++ x) (before_sound rest k g)
        ∙ sym (bracketed_lem (ascii t) k)

has_prefix_sound : (s p : Bytes) → has_prefix s p ≡ true → s ≡ p ++ drop (length p) s
unfolding has_prefix
has_prefix_sound s [] e = refl
has_prefix_sound [] (d ∷ p) e = cc
has_prefix_sound (c ∷ s) (d ∷ p) e = ground (arith, has_prefix_sound s p)

split_2_step :
    (sep s a b : Bytes) (c : ℕ) (h : Bool) (o : Option (Bytes × Bytes))
    → has_prefix (c ∷ s) sep ≡ h
    → ((a' b' : Bytes) → o ≡ some (a', b') → s ≡ a' ++ (sep ++ b'))
    → if◌then◌else◌ {A = Option (Bytes × Bytes)} h
        (some ([], drop (length sep) (c ∷ s)))
        (elim o [ none ↦ none | some (a', b') ↦ some (c ∷ a', b') ])
      ≡ some (a, b)
    → c ∷ s ≡ a ++ (sep ++ b)
split_2_step sep s a b c true o p ih e =
    subst (λ (x : Bytes × Bytes). c ∷ s ≡ x.0 ++ (sep ++ x.1)) (some_cancel e)
      (has_prefix_sound (c ∷ s) sep p)
split_2_step sep s a b c false none p ih e = cc
split_2_step sep s a b c false (some (a', b')) p ih e =
    subst (λ (x : Bytes × Bytes). c ∷ s ≡ x.0 ++ (sep ++ x.1)) (some_cancel e)
      (ap (◌∷◌ c) (ih a' b' refl))

split_2_sound : (sep s a b : Bytes) → split_2 sep s ≡ some (a, b) → s ≡ a ++ (sep ++ b)
unfolding split_2
split_2_sound sep [] a b e = cc
split_2_sound sep (c ∷ s) a b e =
    split_2_step sep s a b c (has_prefix (c ∷ s) sep) (split_2 sep s) refl
      (λ a' b'. split_2_sound sep s a' b') e

take-drop : (n : ℕ) (s : Bytes) → take n s ++ drop n s ≡ s
take-drop zero s = refl
take-drop (suc n) [] = refl
take-drop (suc n) (c ∷ s) = ap (◌∷◌ c) (take-drop n s)

-- A path that the code splits has the form of the two parts.
pub split_maybe_subscripted_path_sound :
    (path p k : Bytes) → split_maybe_subscripted_path path ≡ some (p, k) → path ≡ bracketed p k
unfolding split_maybe_subscripted_path has_suffix
split_maybe_subscripted_path_sound path p k e =
    by_parts (bytes_dec (drop (length path - 2) path) subscript_closer)
      (split_2 subscript_opener (take (length path - 2) path)) refl e
  where
    by_parts :
        (d : Dec (drop (length path - 2) path ≡ subscript_closer)) (o : Option (Bytes × Bytes))
        → split_2 subscript_opener (take (length path - 2) path) ≡ o
        → (if ite d true false then subscripted o else none) ≡ some (p, k)
        → path ≡ bracketed p k
    by_parts (no n) o f g = cc
    by_parts (yes c) none f g = cc
    by_parts (yes c) (some ([], x)) f g = cc
    by_parts (yes c) (some (a ∷ q, x)) f g =
        subst (λ (y : Bytes × Bytes). path ≡ bracketed y.0 y.1) (some_cancel g)
          (sym (take-drop (length path - 2) path)
            ∙ ap₂ (λ u v. u ++ v) (split_2_sound subscript_opener _ (a ∷ q) x f) c)
