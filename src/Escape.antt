-- ===== src/Escape.antt =====
-- engine/core/escape.cc: `expandEscape` and `collapseEscape`, which put the special bytes of a text
-- into escapes and take them out again, the latter in place.
pub mod Shapes
pub mod Gaps
pub mod RoundTrip
pub mod Inverse
mod Tests
use korkscript.Prelude.{
  Bool, Bytes, Option, [], drop, false, get_elem?, get_or, if◌then◌else◌, leb, length, ltb, none,
  put_bytes, set, some, suc, take, true, within, zero, ℕ, ◌%◌, ◌&&◌, ◌*◌, ◌++◌, ◌+◌, ◌-◌, ◌/◌, ◌==◌,
  ◌||◌, ◌∷◌,
}
use korkscript.Compiler.StringTable.{c_text}

unfoldable pub char_conv : ℕ → ℕ
char_conv c =
    if c == b'r' then b'\r' else if c == b'n' then b'\n' else if c == b't' then b'\t' else c

-- `none` is -1.
unfoldable pub get_hex_digit : ℕ → Option ℕ
get_hex_digit c =
    if within b'0' b'9' c
    then some (c - b'0')
    else if within b'A' b'F' c
    then some (c - b'A' + 10)
    else if within b'a' b'f' c
    then some (c - b'a' + 10)
    else none

abbrev pub expand_remap : Bytes
expand_remap = 0 ∷ 0 ∷ 1 ∷ 2 ∷ 3 ∷ 4 ∷ 5 ∷ 6 ∷ 0 ∷ 0 ∷ 0 ∷ 7 ∷ 8 ∷ 0 ∷ 9 ∷ []

abbrev pub collapse_remap : Bytes
collapse_remap = 0x1 ∷ 0x2 ∷ 0x3 ∷ 0x4 ∷ 0x5 ∷ 0x6 ∷ 0x7 ∷ 0xb ∷ 0xc ∷ 0xe ∷ []

unfoldable pub hex_char : ℕ → ℕ
hex_char d = if ltb d 10 then d + b'0' else d + (b'A' - 10)

-- The last byte of the escape for a color.
unfoldable pub color_char : ℕ → ℕ
color_char c =
    if c == 15
    then b'r'
    else if c == 16
    then b'p'
    else if c == 17
    then b'o'
    else get_or expand_remap c 0 + b'0'

-- The bytes that `expandEscape` writes for one.
unfoldable pub expand_byte : ℕ → Bytes
expand_byte c =
    if c == b'"'
    then b'\\' ∷ b'"' ∷ []
    else if c == b'\\'
    then b'\\' ∷ b'\\' ∷ []
    else if c == b'\r'
    then b'\\' ∷ b'r' ∷ []
    else if c == b'\n'
    then b'\\' ∷ b'n' ∷ []
    else if c == b'\t'
    then b'\\' ∷ b't' ∷ []
    else if c == b'\''
    then b'\\' ∷ b'\'' ∷ []
    else if within 1 7 c || within 11 12 c || within 14 15 c
    then b'\\' ∷ b'c' ∷ color_char c ∷ []
    else if ltb c 32
    then b'\\' ∷ b'x' ∷ hex_char (c / 16) ∷ hex_char (c % 16) ∷ []
    else c ∷ []

-- `expandEscape`, of the text before the terminator; the terminator is left out.
unfoldable pub expand_escape : Bytes → Bytes
expand_escape [] = []
expand_escape (c ∷ cs) = expand_byte c ++ expand_escape cs

-- `memmove` within the buffer; `none` is a read outside of the memory that is there.
unfoldable pub mem_move : ℕ → ℕ → ℕ → Bytes → Option Bytes
mem_move dst src n buf =
    if leb (src + n) (length buf) then some (put_bytes (take n (drop src buf)) dst buf) else none

-- The variables of the loop.
pub record Collapse : Type 0 where
  pub buf : Bytes
  pub i : ℕ
  pub len : ℕ

-- One round: the loop goes on, `false` is returned, or memory that is not there is read.
pub data Round : Type 0 where
  go : Collapse → Round
  refused : Bytes → Round
  faulted : Round

-- The loop goes on at `i` with the buffer that `memmove` left.
abbrev pub moved_to : ℕ → ℕ → Option Bytes → Round
moved_to i len none = faulted
moved_to i len (some buf) = go (record { buf = buf; i = i; len = len })

-- `buf[i] = c`, the `n` bytes from `i + skip` on move to `i + 1`, and `drop_len` bytes are gone.
unfoldable pub close_gap : ℕ → ℕ → ℕ → ℕ → Collapse → Round
close_gap c skip n drop_len s =
    moved_to (s.i + 1) (s.len - drop_len) (mem_move (s.i + 1) (s.i + skip) n (set s.buf s.i c))

-- `buf[i + k]`; a read outside of the memory is a fault.
abbrev pub with_byte : Option ℕ → (ℕ → Round) → Round
with_byte none f = faulted
with_byte (some b) f = f b

abbrev pub with_digit : Collapse → Option ℕ → (ℕ → Round) → Round
with_digit s none f = refused s.buf
with_digit s (some d) f = f d

-- The second digit is read only behind a first one.
abbrev pub collapse_hex : Collapse → Option ℕ → Option ℕ → Round
collapse_hex s first second = with_byte first (λ h. with_digit s (get_hex_digit h) (λ d1.
    with_byte second (λ l.
      with_digit s (get_hex_digit l)
        (λ d2. close_gap ((d1 * 16 + d2) % 256) 4 (s.len - s.i - 3) 3 s))))

unfoldable pub color_of : ℕ → Option ℕ
color_of k =
    if k == b'r'
    then some 15
    else if k == b'p'
    then some 16
    else if k == b'o'
    then some 17
    else if within b'0' b'9' k
    then some (get_or collapse_remap (k - b'0') 0)
    else none

-- A first byte 0x01 is stored as 0x02 0x01.
abbrev pub collapse_color : Collapse → Option ℕ → Round
collapse_color s none = refused s.buf
collapse_color s (some c) =
    if c == 1 && s.i == 0
    then moved_to 1 (s.len - 1) (mem_move 2 3 (s.len - 1) (set (set s.buf 0 2) 1 1))
    else close_gap c 3 (s.len - s.i - 2) 2 s

-- The body of the loop.
unfoldable pub collapse_round : Collapse → Round
collapse_round s =
    let at = λ (k : ℕ). get_elem? s.buf (s.i + k) in
    with_byte (at 0) (λ b.
      if b == b'\\'
      then with_byte (at 1) (λ kind.
        if kind == b'x'
        then collapse_hex s (at 2) (at 3)
        else if kind == b'c'
        then with_byte (at 2) (λ k. collapse_color s (color_of k))
        else close_gap (char_conv kind) 2 (s.len - s.i - 1) 1 s)
      else go (record s { i = s.i + 1 }))

-- What follows a round: the loop goes on, or it returns.
abbrev pub next_of : (Collapse → Option (Bool × Bytes)) → Round → Option (Bool × Bytes)
next_of go_on (go t) = go_on t
next_of go_on (refused buf) = some (false, buf)
next_of go_on faulted = none

-- The result with the buffer, on fuel; `none` is a fault or no more fuel.
unfoldable pub collapse_loop : ℕ → Collapse → Option (Bool × Bytes)
collapse_loop zero s = none
collapse_loop (suc fuel) s =
    if ltb s.i s.len
    then next_of (λ t. collapse_loop fuel t) (collapse_round s)
    else some (true, s.buf)

unfoldable pub collapse_escape : Bytes → Option (Bool × Bytes)
collapse_escape buf =
    let n = length (c_text buf) + 1 in collapse_loop (suc n) (record { buf = buf; i = 0; len = n })
