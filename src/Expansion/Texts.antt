-- ===== src/Expansion/Texts.antt =====
-- pkg/utils/expansion/expand.go: texts, and what they expand to.
use clusterrouter.Base.{
  ℕ, ◌+◌, ◌/◌, ◌%◌, ◌≤◌, ◌<◌, ◌≡◌, ◌≢◌, refl, ap, subst, ◌∙◌, true, false, Option, none, some, List,
  [], ◌∷◌, ◌++◌, append_assoc, append-nil, arith, ◌==◌, if◌then◌else◌, length, All, ℕ_discrete,
}
use clusterrouter.Expansion.{
  Bytes, operator, reference_closer, syntax_wrap, string_of_byte, expand, mapping_func_for,
}
use clusterrouter.Expansion.Relation.{Lacks, Expands, nothing, literal, escaped, reference, other}
use clusterrouter.Expansion.Correct.{expand-Expands}

-- What has been derived is what `Expand` returns.
expand_of : (m : Bytes → Bytes) {s t : Bytes} → Expands m s t → expand s m ≡ some t
expand_of m {s} {t} x = let (u, p, _, unique) = expand-Expands s m in rw (unique t x) p

Expands-self : (m : Bytes → Bytes) (s : Bytes) → Lacks operator s → Expands m s s
Expands-self m [] l = nothing
Expands-self m (c ∷ s) l = literal l.0 (Expands-self m s l.1)

Expands-append :
    (m : Bytes → Bytes) (pre : Bytes) {s t : Bytes}
    → Lacks operator pre
    → Expands m s t
    → Expands m (pre ++ s) (pre ++ t)
Expands-append m [] l x = x
Expands-append m (c ∷ pre) l x = literal l.0 (Expands-append m pre l.1 x)

-- A name between the wrapping that `syntaxWrap` gives is replaced by the value that it is mapped
-- to, in a text that is plain before it; what follows is expanded as if it stood alone.
pub expand-syntax_wrap :
    (m : Bytes → Bytes) (pre name s : Bytes)
    → Lacks operator pre
    → Lacks reference_closer name
    → (t : Bytes) × (expand s m ≡ some t)
      × (expand (pre ++ (syntax_wrap name ++ s)) m ≡ some (pre ++ (m name ++ t)))
unfolding syntax_wrap
expand-syntax_wrap m pre name s l k =
    let (t, p, x, _) = expand-Expands s m in
    (
      t,
      p,
      expand_of m (
          Expands-append m pre l
            (reference name refl refl k (append_assoc name (reference_closer ∷ []) s) x)),
    )

pub expand_empty : (m : Bytes → Bytes) → expand [] m ≡ some []
expand_empty m = expand_of m nothing

mapping_miss :
    (context : List (Bytes → Option Bytes)) (name : Bytes)
    → All (λ vars. vars name ≡ none) context
    → mapping_func_for context name ≡ syntax_wrap name
unfolding mapping_func_for
mapping_miss [] name h = refl
mapping_miss (vars ∷ context) name h = rw (h.0) (mapping_miss context name h.1)

-- A reference to a name that no map of the context has stays as it is written.
pub expand_unmapped :
    (context : List (Bytes → Option Bytes)) (name : Bytes)
    → Lacks reference_closer name
    → All (λ vars. vars name ≡ none) context
    → expand (syntax_wrap name) (mapping_func_for context) ≡ some (syntax_wrap name)
unfolding syntax_wrap
expand_unmapped context name k h =
    let m = mapping_func_for context in
    let value : m name ≡ syntax_wrap name = mapping_miss context name h in
    expand_of m (reference name refl refl k refl nothing) ∙ ap some (append-nil (m name) ∙ value)

-- Every operator doubled.
unfoldable pub escape : Bytes → Bytes
escape [] = []
escape (c ∷ s) = let rest = escape s in if c == operator then c ∷ c ∷ rest else c ∷ rest

Expands-escape : (m : Bytes → Bytes) (s : Bytes) → Expands m (escape s) s
unfolding escape
Expands-escape m [] = nothing
Expands-escape m (c ∷ s) = elim (ℕ_discrete c operator) [
  | yes e ↦ rw (doubled c e) (escaped e e (Expands-escape m s))
  | no n ↦ rw (single c n) (literal n (Expands-escape m s))
]
  where
    doubled : (c : ℕ) → c ≡ operator → (c == operator) ≡ true
    doubled c e = ground arith

    single : (c : ℕ) → c ≢ operator → (c == operator) ≡ false
    single c n = ground arith

-- Doubling every operator protects a text from expansion, whatever names are mapped.
pub expand-escape : (m : Bytes → Bytes) (s : Bytes) → expand (escape s) m ≡ some s
expand-escape m s = expand_of m (Expands-escape m s)

-- An operator before a byte of 128 or more: that byte is not copied. The two bytes of the UTF-8
-- text of the code point of the same number take its place, and a text whose first character
-- after the operator takes several bytes is no longer the same text.
pub expand_high_byte :
    (m : Bytes → Bytes) (d : ℕ) (s : Bytes)
    → 128 ≤ d
    → d < 256
    → (t : Bytes) × (expand s m ≡ some t)
      × (expand (operator ∷ d ∷ s) m ≡ some (operator ∷ (192 + d / 64) ∷ (128 + d % 64) ∷ t))
      × (operator ∷ (192 + d / 64) ∷ (128 + d % 64) ∷ t ≢ operator ∷ d ∷ t)
unfolding string_of_byte
expand_high_byte m d s low high =
    let (t, p, x, _) = expand-Expands s m in
    let two : string_of_byte d ≡ (192 + d / 64) ∷ (128 + d % 64) ∷ [] = ground arith in
    (
      t,
      p,
      expand_of m (
          subst (λ y. Expands m (operator ∷ d ∷ s) (operator ∷ (y ++ t))) two
            (other refl (omega arith) (omega arith) x)),
      λ e. omega (arith, ap length e),
    )
