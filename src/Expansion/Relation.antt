-- ===== src/Expansion/Relation.antt =====
-- pkg/utils/expansion/expand.go: expansion as a relation between texts, which speaks of no cursor
-- and no buffer.
use clusterrouter.Base.{
  ℕ, zero, suc, ◌<◌, ◌≡◌, ◌≢◌, ◌⊎◌, inl, inr, ap, [], ◌∷◌, ◌++◌, arith, length, length-append, All,
  ℕ_discrete,
}
use clusterrouter.Expansion.{Bytes, operator, reference_opener, reference_closer, string_of_byte}

abbrev pub Lacks : ℕ → Bytes → Type 0
Lacks b = All (λ c. c ≢ b)

-- A text without the operator stands for itself; the operator is written twice; a reference is
-- replaced by what its name is mapped to; an opener that is never closed is no reference; an
-- operator before any other byte stays, as does one at the end.
pub data Expands (mapping : Bytes → Bytes) : Bytes → Bytes → Type 0 where
  nothing : Expands mapping [] []
  literal :
      {c : ℕ} {s t : Bytes} → c ≢ operator → Expands mapping s t → Expands mapping (c ∷ s) (c ∷ t)
  last : {c : ℕ} → c ≡ operator → Expands mapping (c ∷ []) (c ∷ [])
  escaped :
      {c d : ℕ} {s t : Bytes}
      → c ≡ operator
      → d ≡ operator
      → Expands mapping s t
      → Expands mapping (c ∷ d ∷ s) (d ∷ t)
  reference :
      {c d : ℕ} {s r t : Bytes} (name : Bytes)
      → c ≡ operator
      → d ≡ reference_opener
      → Lacks reference_closer name
      → r ≡ name ++ reference_closer ∷ s
      → Expands mapping s t
      → Expands mapping (c ∷ d ∷ r) (mapping name ++ t)
  unclosed :
      {c d : ℕ} {s t : Bytes}
      → c ≡ operator
      → d ≡ reference_opener
      → Lacks reference_closer s
      → Expands mapping s t
      → Expands mapping (c ∷ d ∷ s) (operator ∷ reference_opener ∷ t)
  other :
      {c d : ℕ} {s t : Bytes}
      → c ≡ operator
      → d ≢ operator
      → d ≢ reference_opener
      → Expands mapping s t
      → Expands mapping (c ∷ d ∷ s) (operator ∷ (string_of_byte d ++ t))

-- A text has a first closer, or none.
pub closer_cases :
    (s : Bytes)
    → ((name : Bytes) × (rest : Bytes) × Lacks reference_closer name
        × (s ≡ name ++ reference_closer ∷ rest))
      ⊎ Lacks reference_closer s
closer_cases [] = inr tt
closer_cases (c ∷ s) = elim (ℕ_discrete c reference_closer) [
  | yes e ↦ inl ([], s, tt, ap (λ x. x ∷ s) e)
  | no n ↦ elim (closer_cases s) [
    | inl (name, rest, lacks, e) ↦ inl (c ∷ name, rest, (n, lacks), ap (◌∷◌ c) e)
    | inr lacks ↦ inr (n, lacks)
  ]
]

-- Every text has an expansion.
pub Expands-total :
    (mapping : Bytes → Bytes) (n : ℕ) (s : Bytes) → length s < n → (t : Bytes) × Expands mapping s t
Expands-total m zero s h = absurd (omega arith)
Expands-total m (suc n) [] h = ([], nothing)
Expands-total m (suc n) (c ∷ []) h = elim (ℕ_discrete c operator) [
  | yes e ↦ (c ∷ [], last e)
  | no e ↦ (c ∷ [], literal e nothing)
]
Expands-total m (suc n) (c ∷ d ∷ s) h = elim (ℕ_discrete c operator) [
  | no e ↦ let (t, x) = Expands-total m n (d ∷ s) (omega arith) in (c ∷ t, literal e x)
  | yes e ↦
      let (t, x) = Expands-total m n s (omega arith) in
      elim (ℕ_discrete d operator) [
        | yes f ↦ (d ∷ t, escaped e f x)
        | no f ↦ elim (ℕ_discrete d reference_opener) [
          | no g ↦ (_, other e f g x)
          | yes g ↦ elim (closer_cases s) [
            | inr lacks ↦ (_, unclosed e g lacks x)
            | inl (name, rest, lacks, p) ↦
                let (u, y) = Expands-total m n rest (rest_shorter s name rest p n (omega arith)) in
                (_, reference name e g lacks p y)
          ]
        ]
      ]
]
  where
    rest_shorter :
        (s name rest : Bytes)
        → s ≡ name ++ reference_closer ∷ rest
        → (k : ℕ) → length s < k
        → length rest < k
    rest_shorter s name rest p k h =
        omega (arith, ap length p, length-append name (reference_closer ∷ rest))
