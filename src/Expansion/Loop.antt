-- ===== src/Expansion/Loop.antt =====
-- pkg/utils/expansion/expand.go: single rounds of the loop of `Expand`, and what is read behind an
-- operator.
use clusterrouter.Base.{
  ℕ, suc, ◌+◌, ◌-◌, ◌≤◌, ◌<◌, ◌≡◌, ◌≢◌, ◌⊎◌, inl, inr, refl, ap, ◌∙◌, Bool, true, false, ◌&&◌, none,
  some, [], ◌∷◌, ◌++◌, append_assoc, arith, ltb, ◌==◌, length, length-append, drop, slice,
  get_elem?-append, drop-append, slice-append, take-append,
}
use clusterrouter.Expansion.{
  Bytes, operator, reference_opener, reference_closer, string_of_byte, find_closer,
  try_read_variable_name, written, expand_from,
}
use clusterrouter.Expansion.Relation.{Lacks}

-- One round at a byte that is copied later.
pub literal_round :
    (m : Bytes → Bytes) (fuel : ℕ) (pre : Bytes) (c : ℕ) (s : Bytes) (checkpoint : ℕ) (buf : Bytes)
    → (c ≢ operator) ⊎ (s ≡ [])
    → expand_from (suc fuel) (pre ++ c ∷ s) m (length pre) checkpoint buf
      ≡ expand_from fuel (pre ++ c ∷ s) m (length pre + 1) checkpoint buf
unfolding expand_from
literal_round m fuel pre c s checkpoint buf h =
    let inside : ltb (length pre) (length (pre ++ c ∷ s)) ≡ true =
      ground (arith, length-append pre (c ∷ s)) in
    let stays : (c == operator && ltb (length pre + 1) (length (pre ++ c ∷ s))) ≡ false =
      stays_lem c s (length pre) (length (pre ++ c ∷ s)) (length-append pre (c ∷ s)) h in
    rw (inside, expand_from, get_elem?-append pre c s, stays)
  where
    stays_lem :
        (c : ℕ) (s : Bytes) (p n : ℕ)
        → n ≡ p + suc (length s)
        → (c ≢ operator) ⊎ (s ≡ [])
        → (c == operator && ltb (p + 1) n) ≡ false
    stays_lem c s p n e (inl h) = ground arith
    stays_lem c s p n e (inr h) = ground (arith, ap length h)

-- One round at an operator that something follows.
reading_round :
    (m : Bytes → Bytes) (fuel : ℕ) (pre : Bytes) (c : ℕ) (r : Bytes) (checkpoint : ℕ) (buf : Bytes)
    (read : Bytes) (is_var : Bool) (advance : ℕ)
    → c ≡ operator
    → 0 < length r
    → checkpoint ≤ length pre
    → try_read_variable_name r ≡ some (read, is_var, advance)
    → expand_from (suc fuel) (pre ++ c ∷ r) m (length pre) checkpoint buf
      ≡ expand_from fuel
          (pre ++ c ∷ r)
          m
          (length pre + advance + 1)
          (length pre + advance + 1)
          (buf ++ drop checkpoint pre ++ written m read is_var)
unfolding expand_from
reading_round m fuel pre c r checkpoint buf read is_var advance e h k p =
    let inside : ltb (length pre) (length (pre ++ c ∷ r)) ≡ true =
      ground (arith, length-append pre (c ∷ r)) in
    let reads : (c == operator && ltb (length pre + 1) (length (pre ++ c ∷ r))) ≡ true =
      ground (arith, length-append pre (c ∷ r)) in
    let rest : drop (length pre + 1) (pre ++ c ∷ r) ≡ r = after pre c r in
    rw (
      inside,
      expand_from,
      get_elem?-append pre c r,
      reads,
      rest,
      p,
      slice-append checkpoint pre (c ∷ r) k,
    )
  where
    after : (pre : Bytes) (c : ℕ) (r : Bytes) → drop (length pre + 1) (pre ++ c ∷ r) ≡ r
    after pre c r =
        let l : length pre + 1 ≡ length (pre ++ c ∷ []) =
          omega (arith, length-append pre (c ∷ [])) in
        rw (l, ← append_assoc pre (c ∷ []) r) (drop-append (pre ++ c ∷ []) r)

pub find_closer-append :
    (i : ℕ) (name s : Bytes)
    → Lacks reference_closer name
    → find_closer i (name ++ reference_closer ∷ s) ≡ some (i + length name)
unfolding find_closer
find_closer-append i [] s l = ap some (omega arith)
find_closer-append i (c ∷ name) s l = ground (arith, find_closer-append (suc i) name s l.1)

find_closer-none : (i : ℕ) (s : Bytes) → Lacks reference_closer s → find_closer i s ≡ none
unfolding find_closer
find_closer-none i [] l = refl
find_closer-none i (c ∷ s) l = ground (arith, find_closer-none (suc i) s l.1)

module _ (d : ℕ) (s : Bytes) where
  pub read_escaped : d ≡ operator → try_read_variable_name (d ∷ s) ≡ some (d ∷ [], false, 1)
  unfolding try_read_variable_name
  read_escaped e = ground arith

  pub read_other :
      d ≢ operator
      → d ≢ reference_opener
      → try_read_variable_name (d ∷ s) ≡ some (operator ∷ string_of_byte d, false, 1)
  unfolding try_read_variable_name
  read_other e f = ground arith

  pub read_unclosed :
      d ≡ reference_opener
      → Lacks reference_closer s
      → try_read_variable_name (d ∷ s) ≡ some (operator ∷ reference_opener ∷ [], false, 1)
  unfolding try_read_variable_name
  read_unclosed e l = ground (arith, find_closer-none 1 s l)

  pub read_closed :
      (name : Bytes)
      → d ≡ reference_opener
      → Lacks reference_closer name
      → try_read_variable_name (d ∷ (name ++ reference_closer ∷ s))
        ≡ some (name, true, length name + 2)
  unfolding try_read_variable_name
  read_closed name e l =
      let named : slice 1 (1 + length name) (d ∷ (name ++ reference_closer ∷ s)) ≡ name =
        let k : 1 + length name - 1 ≡ length name = omega arith in
        rw k (take-append name (reference_closer ∷ s)) in
      let two : 1 + length name + 1 ≡ length name + 2 = omega arith in
      ground (arith, find_closer-append 1 name s l, named, two)

-- The rest of the loop after a reading.
pub after_reading :
    (m : Bytes → Bytes) (fuel : ℕ) (pre : Bytes) (c : ℕ) (consumed s t : Bytes) (checkpoint : ℕ)
    (buf : Bytes) (read : Bytes) (is_var : Bool)
    → c ≡ operator
    → 0 < length consumed
    → checkpoint ≤ length pre
    → try_read_variable_name (consumed ++ s) ≡ some (read, is_var, length consumed)
    → ((pre' buf' : Bytes)
        → expand_from fuel (pre' ++ s) m (length pre') (length pre') buf' ≡ some (buf' ++ t))
    → expand_from (suc fuel) (pre ++ c ∷ (consumed ++ s)) m (length pre) checkpoint buf
      ≡ some (buf ++ drop checkpoint pre ++ written m read is_var ++ t)
after_reading m fuel pre c consumed s t checkpoint buf read is_var e h k p ih =
    let l : length pre + length consumed + 1 ≡ length (pre ++ c ∷ consumed) =
      omega (arith, length-append pre (c ∷ consumed)) in
    reading_round m fuel pre c (consumed ++ s) checkpoint buf read is_var (length consumed) e
      (omega (arith, length-append consumed s)) k p
    ∙ rw (l, ← append_assoc pre (c ∷ consumed) s)
        (ih (pre ++ c ∷ consumed) (buf ++ drop checkpoint pre ++ written m read is_var))
