-- ===== src/Expansion.antt =====
-- pkg/utils/expansion/expand.go: the expansion of `$(name)` in a text, over its bytes.
pub mod Relation
pub mod Loop
pub mod Correct
pub mod Texts
mod Tests
use clusterrouter.Base.{
  ℕ, zero, suc, ◌+◌, ◌/◌, ◌%◌, Bool, true, false, ◌&&◌, Option, none, some, List, [], ◌∷◌, ◌++◌,
  ltb, ◌==◌, if◌then◌else◌, length, get_elem?, drop, slice,
}

abbrev pub Bytes : Type 0
Bytes = List ℕ

abbrev pub operator : ℕ
operator = b'$'

abbrev pub reference_opener : ℕ
reference_opener = b'('

abbrev pub reference_closer : ℕ
reference_closer = b')'

-- `syntaxWrap`.
unfoldable pub syntax_wrap : Bytes → Bytes
syntax_wrap input = operator ∷ reference_opener ∷ (input ++ reference_closer ∷ [])

-- Go's `string(b)` of one byte: the UTF-8 text of the code point with that number.
unfoldable pub string_of_byte : ℕ → Bytes
string_of_byte c = if ltb c 128 then c ∷ [] else (192 + c / 64) ∷ (128 + c % 64) ∷ []

-- The loop that looks for the closer, `i` being the index of the first byte of the rest.
unfoldable pub find_closer : ℕ → Bytes → Option ℕ
find_closer i [] = none
find_closer i (c ∷ s) = if c == reference_closer then some i else find_closer (suc i) s

-- What is read behind an opener, which `input` begins with.
unfoldable pub read_reference : Bytes → Option ℕ → Bytes × Bool × ℕ
read_reference input (some i) = (slice 1 i input, true, i + 1)
read_reference input none = (operator ∷ reference_opener ∷ [], false, 1)

-- `tryReadVariableName`; `none` is the panic of `input[0]` on an empty text.
unfoldable pub try_read_variable_name : Bytes → Option (Bytes × Bool × ℕ)
unfolding find_closer read_reference
try_read_variable_name [] = none
try_read_variable_name (c ∷ s) =
    if c == operator
    then some (c ∷ [], false, 1)
    else if c == reference_opener
    then some (read_reference (c ∷ s) (find_closer 1 s))
    else some (operator ∷ string_of_byte c, false, 1)

-- What one reading writes to the buffer.
abbrev pub written : (Bytes → Bytes) → Bytes → Bool → Bytes
written mapping read is_var = if is_var then mapping read else read

-- The loop of `Expand`; `none` is a panic, or fuel that has run out.
pub expand_from : ℕ → Bytes → (Bytes → Bytes) → ℕ → ℕ → Bytes → Option Bytes
expand_from zero input mapping cursor checkpoint buf = none
expand_from (suc fuel) input mapping cursor checkpoint buf = elim (ltb cursor (length input)) [
  | false ↦ some (buf ++ drop checkpoint input)
  | true ↦ elim (get_elem? input cursor) [
    | none ↦ none
    | some c ↦ elim (c == operator && ltb (cursor + 1) (length input)) [
      | false ↦ expand_from fuel input mapping (cursor + 1) checkpoint buf
      | true ↦ elim (try_read_variable_name (drop (cursor + 1) input)) [
        | none ↦ none
        | some (read, is_var, advance) ↦
            expand_from fuel input mapping (cursor + advance + 1) (cursor + advance + 1)
              (buf ++ slice checkpoint cursor input ++ written mapping read is_var)
      ]
    ]
  ]
]

-- `Expand`: a round for each byte at most, and one to leave the loop.
pub expand : Bytes → (Bytes → Bytes) → Option Bytes
unfolding expand_from
expand input mapping = expand_from (length input + 1) input mapping 0 0 []

-- A context is a map from names to values, as a function.
unfoldable pub mapping_func_for : List (Bytes → Option Bytes) → Bytes → Bytes
mapping_func_for [] input = syntax_wrap input
mapping_func_for (vars ∷ context) input = elim (vars input) [
  | some val ↦ val
  | none ↦ mapping_func_for context input
]
