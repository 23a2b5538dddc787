-- ===== src/Expansion/Correct.antt =====
-- pkg/utils/expansion/expand.go: the loop of `Expand` computes the one expansion of its text.
use clusterrouter.Base.{
  ℕ, zero, suc, ◌+◌, ◌≤◌, ◌<◌, ◌≡◌, ◌≢◌, ◌⊎◌, inl, inr, refl, some_cancel, sym, ap, subst, ◌∙◌,
  Bool, true, false, some, [], ◌∷◌, ◌++◌, append_assoc, append-nil, arith, ltb, length,
  length-append, drop, drop-append_le,
}
use clusterrouter.Expansion.{
  Bytes, operator, reference_opener, reference_closer, string_of_byte, try_read_variable_name,
  written, expand_from, expand,
}
use clusterrouter.Expansion.Relation.{
  Lacks, Expands, nothing, literal, last, escaped, reference, unclosed, other, Expands-total,
}
use clusterrouter.Expansion.Loop.{
  literal_round, after_reading, read_escaped, read_other, read_unclosed, read_closed,
}

-- From any point of the loop on, what is pending is written, and then the expansion of the rest.
abbrev Runs : (Bytes → Bytes) → Bytes → Bytes → Type 0
Runs m s t =
    (fuel : ℕ) (pre : Bytes) (checkpoint : ℕ) (buf : Bytes)
    → checkpoint ≤ length pre
    → length s < fuel
    → expand_from fuel (pre ++ s) m (length pre) checkpoint buf
      ≡ some (buf ++ drop checkpoint pre ++ t)

drop_all : (pre : Bytes) → drop (length pre) pre ≡ []
drop_all [] = refl
drop_all (x ∷ pre) = drop_all pre

Runs-fresh :
    (m : Bytes → Bytes) (s t : Bytes)
    → Runs m s t
    → (fuel : ℕ) → length s < fuel
    → (pre buf : Bytes)
    → expand_from fuel (pre ++ s) m (length pre) (length pre) buf ≡ some (buf ++ t)
Runs-fresh m s t r fuel h pre buf =
    r fuel pre (length pre) buf (omega arith) h
    ∙ ap (λ x. some (x ++ t)) (ap (◌++◌ buf) (drop_all pre) ∙ append-nil buf)

Runs-nothing : (m : Bytes → Bytes) → Runs m [] []
unfolding expand_from
Runs-nothing m zero pre checkpoint buf k h = absurd (omega arith)
Runs-nothing m (suc fuel) pre checkpoint buf k h =
    let outside : ltb (length pre) (length pre) ≡ false = ground arith in
    rw (
      append-nil pre,
      outside,
      expand_from,
      append-nil pre,
      append-nil (buf ++ drop checkpoint pre),
    )

Runs-literal :
    (m : Bytes → Bytes) (c : ℕ) (s t : Bytes)
    → (c ≢ operator) ⊎ (s ≡ [])
    → Runs m s t
    → Runs m (c ∷ s) (c ∷ t)
Runs-literal m c s t n r zero pre checkpoint buf k h = absurd (omega arith)
Runs-literal m c s t n r (suc fuel) pre checkpoint buf k h =
    let l : length pre + 1 ≡ length (pre ++ c ∷ []) = omega (arith, length-append pre (c ∷ [])) in
    literal_round m fuel pre c s checkpoint buf n
    ∙ rw (l, ← append_assoc pre (c ∷ []) s)
        (r fuel (pre ++ c ∷ []) checkpoint buf (omega arith) (omega arith))
    ∙ ap some
        (ap (λ x. (buf ++ x) ++ t) (drop-append_le checkpoint pre (c ∷ []) k) ∙ simp append_assoc)

Runs-reading :
    (m : Bytes → Bytes) (c : ℕ) (consumed s t : Bytes) (read : Bytes) (is_var : Bool)
    → c ≡ operator
    → 0 < length consumed
    → try_read_variable_name (consumed ++ s) ≡ some (read, is_var, length consumed)
    → Runs m s t
    → Runs m (c ∷ (consumed ++ s)) (written m read is_var ++ t)
Runs-reading m c consumed s t read is_var e h p r zero pre checkpoint buf k l = absurd (omega arith)
Runs-reading m c consumed s t read is_var e h p r (suc fuel) pre checkpoint buf k l =
    after_reading m fuel pre c consumed s t checkpoint buf read is_var e h k p
      (Runs-fresh m s t r fuel (omega (arith, length-append consumed s)))
    ∙ ap some (append_assoc (buf ++ drop checkpoint pre) (written m read is_var) t)

read_whole :
    (d : ℕ) (s name : Bytes)
    → d ≡ reference_opener
    → Lacks reference_closer name
    → try_read_variable_name (d ∷ ((name ++ reference_closer ∷ []) ++ s))
      ≡ some (name, true, length (d ∷ (name ++ reference_closer ∷ [])))
read_whole d s name f l =
    let n : length (d ∷ (name ++ reference_closer ∷ [])) ≡ length name + 2 =
      omega (arith, length-append name (reference_closer ∷ [])) in
    rw (append_assoc name (reference_closer ∷ []) s, n) (read_closed d s name f l)

Expands-Runs : (m : Bytes → Bytes) {s t : Bytes} → Expands m s t → Runs m s t
Expands-Runs m nothing = Runs-nothing m
Expands-Runs m (literal {c = c} {s = s} {t = t} n x) =
    Runs-literal m c s t (inl n) (Expands-Runs m x)
Expands-Runs m (last {c = c} e) = Runs-literal m c [] [] (inr refl) (Runs-nothing m)
Expands-Runs m (escaped {c = c} {d = d} {s = s} {t = t} e f x) =
    Runs-reading m c (d ∷ []) s t (d ∷ []) false e (omega arith) (read_escaped d s f)
      (Expands-Runs m x)
Expands-Runs m (reference {c = c} {d = d} {s = s} {t = t} name e f l q x) =
    subst (λ y. Runs m (c ∷ d ∷ y) (m name ++ t))
      (append_assoc name (reference_closer ∷ []) s ∙ sym q)
      (Runs-reading m c (d ∷ (name ++ reference_closer ∷ [])) s t name true e (omega arith)
        (read_whole d s name f l) (Expands-Runs m x))
Expands-Runs m (unclosed {c = c} {d = d} {s = s} {t = t} e f l x) =
    Runs-reading m c (d ∷ []) s t (operator ∷ reference_opener ∷ []) false e (omega arith)
      (read_unclosed d s f l) (Expands-Runs m x)
Expands-Runs m (other {c = c} {d = d} {s = s} {t = t} e f g x) =
    Runs-reading m c (d ∷ []) s t (operator ∷ string_of_byte d) false e (omega arith)
      (read_other d s f g) (Expands-Runs m x)

-- Every text has exactly one expansion, and `Expand` returns it: the loop reads no byte outside
-- its text and always ends.
pub expand-Expands :
    (input : Bytes) (mapping : Bytes → Bytes)
    → (t : Bytes) × (expand input mapping ≡ some t)
      × Expands mapping input t
      × ((u : Bytes) → Expands mapping input u → u ≡ t)
unfolding expand
expand-Expands input mapping =
    let (t, x) = Expands-total mapping (length input + 1) input (omega arith) in
    (t, whole t x, x, λ u y. some_cancel (sym (whole u y) ∙ whole t x))
  where
    whole :
        (t : Bytes)
        → Expands mapping input t
        → expand_from (length input + 1) input mapping 0 0 [] ≡ some t
    whole t x = Expands-Runs mapping x (length input + 1) [] 0 [] (omega arith) (omega arith)
