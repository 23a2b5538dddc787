-- ===== src/Expansion/Tests.antt =====
-- pkg/utils/expansion/expand.go: the theorems at short texts.
use clusterrouter.Base.{◌≡◌, ◌≢◌, Option, none, some, [], ◌∷◌, arith, ◌==◌, if◌then◌else◌}
use clusterrouter.Expansion.{Bytes, expand, mapping_func_for}
use clusterrouter.Expansion.Relation.{Expands}
use clusterrouter.Expansion.Correct.{expand-Expands}
use clusterrouter.Expansion.Texts.{expand_high_byte, escape, expand-escape}

-- The name `v` has the value `xyz`.
abbrev vars : Bytes → Option Bytes
vars [] = none
vars (c ∷ s) = if c == b'v' then some (b'x' ∷ b'y' ∷ b'z' ∷ []) else none

abbrev mapping : Bytes → Bytes
mapping = mapping_func_for (vars ∷ [])

-- `a$(v)$$`.
abbrev text : Bytes
text = b'a' ∷ b'$' ∷ b'(' ∷ b'v' ∷ b')' ∷ b'$' ∷ b'$' ∷ []

expand-Expands_example :
    (t : Bytes) × (expand text mapping ≡ some t)
    × Expands mapping text t
    × ((u : Bytes) → Expands mapping text u → u ≡ t)
expand-Expands_example = expand-Expands text mapping

expand-escape_example :
    expand (b'$' ∷ b'$' ∷ b'(' ∷ b'v' ∷ b')' ∷ []) mapping ≡ some (b'$' ∷ b'(' ∷ b'v' ∷ b')' ∷ [])
unfolding escape
expand-escape_example = expand-escape mapping (b'$' ∷ b'(' ∷ b'v' ∷ b')' ∷ [])

-- The first byte of the UTF-8 text of U+00E9, after an operator.
expand_high_byte_example :
    (t : Bytes) × (expand (169 ∷ []) mapping ≡ some t)
    × (expand (b'$' ∷ 195 ∷ 169 ∷ []) mapping ≡ some (b'$' ∷ 195 ∷ 131 ∷ t))
    × (b'$' ∷ 195 ∷ 131 ∷ t ≢ b'$' ∷ 195 ∷ t)
expand_high_byte_example = expand_high_byte mapping 195 (169 ∷ []) (omega arith) (omega arith)
