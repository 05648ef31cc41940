-- ===== src/CodeBlock/Breaks.antt =====
-- engine/console/codeBlock.cc: the lines of a block for the debugger. `lineBreakPairs` is a list of pairs,
-- at first of a line and a position in the code, and after `calcBreakList` of the line with the opcode
-- that stands there (`LinePair`) and the position.
pub mod Lines
pub mod Covering
pub mod Restore
pub mod Debugged
mod Tests
use korkscript.Prelude.{
  Bool, List, Option, [], false, get_elem?, if◌then◌else◌, leb, length, ltb, none, set, some, suc,
  true, u32, zero, ℕ, ◌%◌, ◌+◌, ◌-◌, ◌/◌, ◌==◌, ◌^◌, ◌||◌, ◌∷◌,
}
use korkscript.Opcodes.{op_break, op_invalid}

-- `getMax(0, line)` of a line as an `S32`.
abbrev pub positive : ℕ → ℕ
positive n = if ltb n (2 ^ 31) then n else 0

-- The lines from the last one to the next, in a `U32`.
abbrev pub gap_to : ℕ → ℕ → ℕ
gap_to n prev = u32 (n + (2 ^ 32 - (prev + 1)))

abbrev pub flush : ℕ → List ℕ → List ℕ
flush seq_count rest = if seq_count == 0 then rest else seq_count ∷ rest

-- The two passes of `calcBreakList` over the lines. `follow` is `U32(line + 1)`.
unfoldable pub count_list : ℕ → ℕ → List ℕ → ℕ → ℕ
count_list seq_count follow [] size = if seq_count == 0 then size else size + 1
count_list seq_count follow (n ∷ lines) size =
    let same = n == follow in
    count_list (if same then seq_count + 1 else 1) (u32 (n + 1)) lines
      (if same then size else (if seq_count == 0 then size else size + 1) + 1)

unfoldable pub fill_list : ℕ → ℕ → ℕ → List ℕ → List ℕ
fill_list seq_count follow prev [] = flush seq_count []
fill_list seq_count follow prev (n ∷ lines) =
    let same = n == follow in
    let rest = fill_list (if same then seq_count + 1 else 1) (u32 (n + 1)) (positive n) lines in
    if same then rest else flush seq_count (gap_to n prev ∷ rest)

unfoldable pub break_list_size : List ℕ → ℕ
break_list_size lines = count_list 0 0 lines 0

unfoldable pub break_list : List ℕ → List ℕ
break_list lines = fill_list 0 0 0 lines

-- `LinePair`: the line with the opcode (`instLine`), and the position (`ip`).
abbrev pub LinePair : Type 0
LinePair = ℕ × ℕ

-- A round of the search in `findBreakLine`.
pub data Search : Type 0 where
  at_pair : ℕ → Search
  between : ℕ → ℕ → Search
  no_pair : Search

abbrev pub probe : ℕ → ℕ → ℕ → ℕ → Option LinePair → Search
probe ip low high mid none = no_pair
probe ip low high mid (some (inst_line, place)) =
    if place == ip then at_pair mid else if ltb ip place then between low mid else between mid high

unfoldable pub search_round : List LinePair → ℕ → ℕ → ℕ → Search
search_round pairs ip low high =
    let mid = (low + high) / 2 in
    if low == high - 1 then at_pair low else probe ip low high mid (get_elem? pairs mid)

-- What the search comes to: the index of a pair, or a read outside or no end.
pub data Line : Type 0 where
  no_line lost : Line
  line_at : ℕ → Line

unfoldable pub search_loop : ℕ → List LinePair → ℕ → ℕ → ℕ → Line
search_loop zero pairs ip low high = lost
search_loop (suc f) pairs ip low high = elim (search_round pairs ip low high) [
  | at_pair k ↦ line_at k
  | between low' high' ↦ search_loop f pairs ip low' high'
  | no_pair ↦ lost
]

abbrev pub find_from : List LinePair → ℕ → Option LinePair → Option LinePair → Line
find_from pairs ip (some (first_line, low)) (some (last_line, high)) =
    if ltb ip low || ltb high ip
    then no_line
    else if low == ip
    then line_at 0
    else if high == ip
    then line_at (length pairs - 1)
    else search_loop (length pairs) pairs ip 0 (length pairs - 1)
find_from pairs ip _ _ = no_line

unfoldable pub find_pair : List LinePair → ℕ → Line
find_pair pairs ip = find_from pairs ip (get_elem? pairs 0) (get_elem? pairs (length pairs - 1))

-- `line` and `instruction`.
abbrev pub line_of : List LinePair → Line → Option (ℕ × ℕ)
line_of pairs no_line = some (0, op_invalid)
line_of pairs lost = none
line_of pairs (line_at k) = elim (get_elem? pairs k) [
  | none ↦ none
  | some p ↦ some (p.0 / 2 ^ 8, p.0 % 2 ^ 8)
]

unfoldable pub find_break_line : List LinePair → ℕ → Option (ℕ × ℕ)
find_break_line pairs ip = line_of pairs (find_pair pairs ip)

-- A store into the code; none is one outside.
abbrev pub store : List ℕ → ℕ → ℕ → Option (List ℕ)
store code ip word = if ltb ip (length code) then some (set code ip word) else none

abbrev pub found_break : Option (List ℕ) → Option (List ℕ × Bool)
found_break none = none
found_break (some code) = some (code, true)

-- `setBreakpoint`, `clearBreakpoint`, `setAllBreaks` and `clearAllBreaks` on the code of the block.
unfoldable pub set_breakpoint : List LinePair → ℕ → List ℕ → Option (List ℕ × Bool)
set_breakpoint [] line_number code = some (code, false)
set_breakpoint ((inst_line, ip) ∷ pairs) line_number code =
    let others = set_breakpoint pairs line_number code in
    if inst_line / 2 ^ 8 == line_number then found_break (store code ip op_break) else others

unfoldable pub clear_breakpoint : List LinePair → ℕ → List ℕ → Option (List ℕ)
clear_breakpoint [] line_number code = some code
clear_breakpoint ((inst_line, ip) ∷ pairs) line_number code =
    let others = clear_breakpoint pairs line_number code in
    if inst_line / 2 ^ 8 == line_number then store code ip (inst_line % 2 ^ 8) else others

abbrev pub then_on : Option (List ℕ) → (List ℕ → Option (List ℕ)) → Option (List ℕ)
then_on none f = none
then_on (some code) f = f code

unfoldable pub set_all_breaks : List LinePair → List ℕ → Option (List ℕ)
set_all_breaks [] code = some code
set_all_breaks ((inst_line, ip) ∷ pairs) code =
    then_on (store code ip op_break) (set_all_breaks pairs)

unfoldable pub clear_all_breaks : List LinePair → List ℕ → Option (List ℕ)
clear_all_breaks [] code = some code
clear_all_breaks ((inst_line, ip) ∷ pairs) code =
    then_on (store code ip (inst_line % 2 ^ 8)) (clear_all_breaks pairs)

-- `findFirstBreakLine`
unfoldable find_first_break_line : List LinePair → ℕ → ℕ
find_first_break_line [] line_number = 0
find_first_break_line ((inst_line, ip) ∷ pairs) line_number =
    let others = find_first_break_line pairs line_number in
    if leb line_number (inst_line / 2 ^ 8) then inst_line / 2 ^ 8 else others
