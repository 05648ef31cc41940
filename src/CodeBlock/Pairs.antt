-- ===== src/CodeBlock/Pairs.antt =====
-- engine/console/codeBlock.cc, `calcBreakList`: its last loop, which puts the opcode that stands at a
-- break's position into the line of the break. `code` and `lineBreakPairs` are one array.
use Prim.Native.Nat.{bit_or}
use korkscript.Prelude.{
  List, Option, [], get_elem?, none, set, some, suc, u32, zero, ℕ, ◌*◌, ◌+◌, ◌^◌, ◌∷◌,
}
use korkscript.CodeBlock.Breaks.{then_on}

-- `code[p[1]]`; `none` is a read outside of the array.
abbrev pub word_at : List ℕ → Option ℕ → Option ℕ
word_at words none = none
word_at words (some ip) = get_elem? words ip

-- `p[0] = (p[0] << 8) | code[p[1]]`
abbrev pub mark_word : List ℕ → ℕ → Option ℕ → Option ℕ → Option (List ℕ)
mark_word words at (some line) (some op) = some (set words at (bit_or (u32 (line * 2 ^ 8)) op))
mark_word words at _ _ = none

unfoldable pub mark_pair : ℕ → List ℕ → Option (List ℕ)
mark_pair at words =
    mark_word words at (get_elem? words at) (word_at words (get_elem? words (at + 1)))

-- The loop over `n` pairs, of which the first is at the given index.
unfoldable pub mark_pairs : ℕ → ℕ → List ℕ → Option (List ℕ)
mark_pairs zero at words = some words
mark_pairs (suc n) at words = then_on (mark_pair at words) (mark_pairs n (at + 2))

-- The lines of the pairs, before they are marked.
unfoldable pub lines_of : List ℕ → List ℕ
lines_of [] = []
lines_of (line ∷ []) = []
lines_of (line ∷ ip ∷ rest) = line ∷ lines_of rest
