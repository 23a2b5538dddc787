-- ===== src/Base/Maps.antt =====
-- Go's maps from texts, as association lists: a lookup takes the first entry of its key.
use Prim.Native.String.{String}
use mathlib.Core.Path.{◌≡◌, refl, sym, ap, subst, ◌∙◌}
use mathlib.Core.Logic.{ite, if_pos, if_neg}
use mathlib.Core.Option.{Option, none, some}
use mathlib.Core.List.{List, [], ◌∷◌}
use native.Mathlib.Omega.{arith}
use clusterrouter.Base.Tests.{text_dec}

abbrev pub Map {ℓ} : Type ℓ → Type ℓ
Map V = List (String × V)

module _ {ℓ} {V : Type ℓ} where
  unfoldable pub lookup : String → Map V → Option V
  lookup k [] = none
  lookup k ((j, v) ∷ m) = ite (text_dec j k) (some v) (lookup k m)

  unfoldable pub insert : String → V → Map V → Map V
  insert k v [] = (k, v) ∷ []
  insert k v ((j, w) ∷ m) = ite (text_dec j k) ((k, v) ∷ m) ((j, w) ∷ insert k v m)

  -- `delete`: every entry of the key goes.
  unfoldable pub delete : String → Map V → Map V
  delete k [] = []
  delete k ((j, v) ∷ m) = let rest = delete k m in ite (text_dec j k) rest ((j, v) ∷ rest)

  pub lookup-insert :
      (k j : String) (v : V) (m : Map V)
      → lookup j (insert k v m) ≡ ite (text_dec k j) (some v) (lookup j m)
  unfolding lookup insert
  lookup-insert k j v [] = refl
  lookup-insert k j v ((i, w) ∷ m) = ground (arith, lookup-insert k j v m)

  pub lookup-delete :
      (k j : String) (m : Map V) → lookup j (delete k m) ≡ ite (text_dec k j) none (lookup j m)
  unfolding lookup delete
  lookup-delete k j [] = ground arith
  lookup-delete k j ((i, w) ∷ m) = ground (arith, lookup-delete k j m)

  -- Each key has one entry, as in a map of Go.
  abbrev pub Distinct : Map V → Type ℓ
  Distinct [] = Unit
  Distinct ((k, v) ∷ m) = (lookup k m ≡ none) × Distinct m

  pub insert-Distinct : (k : String) (v : V) (m : Map V) → Distinct m → Distinct (insert k v m)
  unfolding insert lookup
  insert-Distinct k v [] d = (refl, tt)
  insert-Distinct k v ((j, w) ∷ m) d = elim (text_dec j k) [
    | yes e ↦ rw (if_pos _ e) (subst (λ i. (lookup i m ≡ none) × Distinct m) e d)
    | no n ↦
        rw (if_neg _ n)
          (lookup-insert k j v m ∙ rw (if_neg _ (λ e. n (sym e))) (d.0), insert-Distinct k v m d.1)
  ]

-- `for k, v := range m { … }`, the body being a function of the map that it changes.
module _ {ℓ κ} {V : Type ℓ} {W : Type κ} where
  pub for_range : (Map W → String → V → Map W) → Map W → Map V → Map W
  for_range body l [] = l
  for_range body l ((k, v) ∷ m) = for_range body (body l k v) m

  -- The entry of a key after a loop over its entry.
  abbrev pub updated : (Option W → V → Option W) → Option W → Option V → Option W
  updated f o none = o
  updated f o (some v) = f o v

  -- A loop whose body touches only the key at hand: each key is updated by its own entry, in
  -- whatever order the loop goes.
  pub lookup-for_range :
      (body : Map W → String → V → Map W) (f : Option W → V → Option W)
      → ((l : Map W) (k : String) (v : V) (j : String)
          → lookup j (body l k v) ≡ ite (text_dec k j) (f (lookup k l) v) (lookup j l))
      → (l : Map W) (m : Map V) → Distinct m
      → (j : String) → lookup j (for_range body l m) ≡ updated f (lookup j l) (lookup j m)
  unfolding for_range lookup
  lookup-for_range body f h l [] d j = refl
  lookup-for_range body f h l ((k, v) ∷ m) d j =
      let ih = lookup-for_range body f h (body l k v) m d.1 j in
      elim (text_dec k j) [
        | yes e ↦
            let absent : lookup j m ≡ none = subst (λ i. lookup i m ≡ none) e d.0 in
            rw (if_pos _ e)
              (ih ∙ rw absent (h l k v j ∙ rw (if_pos _ e) (ap (λ i. f (lookup i l) v) e)))
        | no n ↦
            rw (if_neg _ n) (ih ∙ ap (λ o. updated f o (lookup j m)) (h l k v j ∙ rw (if_neg _ n)))
      ]

  pub for_range-Distinct :
      (body : Map W → String → V → Map W)
      → ((l : Map W) (k : String) (v : V) → Distinct l → Distinct (body l k v))
      → (l : Map W) (m : Map V) → Distinct l
      → Distinct (for_range body l m)
  unfolding for_range
  for_range-Distinct body h l [] d = d
  for_range-Distinct body h l ((k, v) ∷ m) d = for_range-Distinct body h (body l k v) m (h l k v d)
