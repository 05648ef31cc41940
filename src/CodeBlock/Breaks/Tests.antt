-- ===== src/CodeBlock/Breaks/Tests.antt =====
-- engine/console/codeBlock.cc: the lines of a small block.
use korkscript.Prelude.{
  List, [], arith, length, refl, some, true, u32, ℕ, ◌*◌, ◌+◌, ◌-◌, ◌^◌, ◌∷◌, ◌≡◌,
}
use korkscript.CodeBlock.Breaks.{
  LinePair, break_list, break_list_size, clear_all_breaks, fill_list, find_break_line, find_pair,
  search_loop, search_round, set_breakpoint,
}
use korkscript.CodeBlock.Breaks.Covering.{Covers, find_pair-Covers}
use korkscript.CodeBlock.Breaks.Debugged.{Debugged, clear_all_breaks-restores}
use korkscript.CodeBlock.Breaks.Lines.{
  AreLines, break_list_size-break_list, expand, expand-break_list,
}

-- Line 3 twice, as a loop has it, then 4, 5 and 9.
abbrev lines : List ℕ
lines = 3 ∷ 3 ∷ 4 ∷ 5 ∷ 9 ∷ []

lines-AreLines : AreLines lines
lines-AreLines = (
  omega arith,
  omega arith,
  (
    omega arith,
    omega arith,
    (omega arith, omega arith, (omega arith, omega arith, (omega arith, omega arith, tt))),
  ),
)

list_of_lines : break_list lines ≡ 2 ∷ 1 ∷ (2 ^ 32 - 1) ∷ 3 ∷ 3 ∷ 1 ∷ []
unfolding break_list fill_list u32
list_of_lines = refl

expand-break_list_example : expand 1 (break_list lines) ≡ lines
expand-break_list_example = expand-break_list lines lines-AreLines

break_list_size-break_list_example : break_list_size lines ≡ length (break_list lines)
break_list_size-break_list_example = break_list_size-break_list lines

abbrev pairs : List LinePair
pairs = (3 * 256 + 72, 0) ∷ (4 * 256 + 73, 6) ∷ (7 * 256 + 11, 9) ∷ (9 * 256 + 14, 20) ∷ []

in_the_middle : find_break_line pairs 8 ≡ some (4, 73)
unfolding find_break_line find_pair search_loop search_round
in_the_middle = refl

behind_all : find_break_line pairs 21 ≡ some (0, 133)
unfolding find_break_line find_pair search_loop search_round
behind_all = refl

find_pair-Covers_example : Covers pairs 8 (find_pair pairs 8)
find_pair-Covers_example = find_pair-Covers pairs 8

-- A block of two statements.
abbrev two_pairs : List LinePair
two_pairs = (3 * 256 + 72, 0) ∷ (4 * 256 + 15, 2) ∷ []

abbrev two_code : List ℕ
two_code = 72 ∷ 7 ∷ 15 ∷ []

broken : set_breakpoint two_pairs 4 two_code ≡ some (72 ∷ 7 ∷ 93 ∷ [], true)
unfolding set_breakpoint
broken = refl

clear_all_breaks-restores_example : clear_all_breaks two_pairs (72 ∷ 7 ∷ 93 ∷ []) ≡ some two_code
clear_all_breaks-restores_example =
    clear_all_breaks-restores two_pairs two_code (72 ∷ 7 ∷ 93 ∷ []) (refl, (refl, tt))
      (Debugged.set_one 4 true Debugged.untouched broken)
