-- ===== src/Base/Lists.antt =====
-- Lists measured by native numbers, and predicates on every element.
use Prim.Native.Nat.{ℕ, zero, suc, ◌+◌, ◌-◌, ◌≤◌}
use mathlib.Core.Path.{◌≡◌, refl, ap}
use mathlib.Core.Option.{Option, none, some}
use mathlib.Core.List.{List, [], ◌∷◌, ◌++◌}
use native.Mathlib.Omega.{arith}

module _ {ℓ} {A : Type ℓ} where
  abbrev pub length : List A → ℕ
  length [] = 0
  length (x ∷ xs) = suc (length xs)

  pub length-append : (xs ys : List A) → length (xs ++ ys) ≡ length xs + length ys
  length-append [] ys = omega arith
  length-append (x ∷ xs) ys = omega (arith, length-append xs ys)

  abbrev pub All {κ} : (A → Type κ) → List A → Type κ
  All P [] = Unit
  All P (x ∷ xs) = P x × All P xs

  pub All-append {κ} : (P : A → Type κ) (xs ys : List A) → All P xs → All P ys → All P (xs ++ ys)
  All-append P [] ys hx hy = hy
  All-append P (x ∷ xs) ys hx hy = (hx.0, All-append P xs ys hx.1 hy)

  pub All-imp {κ κ'} :
      (P : A → Type κ) (Q : A → Type κ')
      → ((x : A) → P x → Q x)
      → (xs : List A) → All P xs
      → All Q xs
  All-imp P Q f [] h = tt
  All-imp P Q f (x ∷ xs) h = (f x h.0, All-imp P Q f xs h.1)

module _ {ℓ} {A : Type ℓ} where
  abbrev pub get_elem? : List A → ℕ → Option A
  get_elem? [] i = none
  get_elem? (x ∷ xs) zero = some x
  get_elem? (x ∷ xs) (suc i) = get_elem? xs i

  abbrev pub take : ℕ → List A → List A
  take zero xs = []
  take (suc n) [] = []
  take (suc n) (x ∷ xs) = x ∷ take n xs

  abbrev pub drop : ℕ → List A → List A
  drop zero xs = xs
  drop (suc n) [] = []
  drop (suc n) (x ∷ xs) = drop n xs

  -- `xs[i:j]`.
  abbrev pub slice : ℕ → ℕ → List A → List A
  slice i j xs = take (j - i) (drop i xs)

  pub get_elem?-append :
      (pre : List A) (x : A) (s : List A) → get_elem? (pre ++ x ∷ s) (length pre) ≡ some x
  get_elem?-append [] x s = refl
  get_elem?-append (y ∷ pre) x s = get_elem?-append pre x s

  pub drop-append : (pre s : List A) → drop (length pre) (pre ++ s) ≡ s
  drop-append [] s = refl
  drop-append (x ∷ pre) s = drop-append pre s

  pub take-append : (pre s : List A) → take (length pre) (pre ++ s) ≡ pre
  take-append [] s = refl
  take-append (x ∷ pre) s = ap (◌∷◌ x) (take-append pre s)

  pub drop-append_le :
      (n : ℕ) (pre s : List A) → n ≤ length pre → drop n (pre ++ s) ≡ drop n pre ++ s
  drop-append_le zero pre s h = refl
  drop-append_le (suc n) [] s h = absurd (omega arith)
  drop-append_le (suc n) (x ∷ pre) s h = drop-append_le n pre s (omega arith)

  pub length-drop : (n : ℕ) (xs : List A) → length (drop n xs) ≡ length xs - n
  length-drop zero xs = omega arith
  length-drop (suc n) [] = omega arith
  length-drop (suc n) (x ∷ xs) = omega (arith, length-drop n xs)

  pub slice-append :
      (n : ℕ) (pre s : List A) → n ≤ length pre → slice n (length pre) (pre ++ s) ≡ drop n pre
  slice-append n pre s h =
      rw (drop-append_le n pre s h, ← length-drop n pre) (take-append (drop n pre) s)
