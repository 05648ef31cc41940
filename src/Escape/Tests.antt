-- ===== src/Escape/Tests.antt =====
-- engine/core/escape.cc: `expandEscape` and `collapseEscape` on texts.
use korkscript.Prelude.{Bytes, [], arith, none, refl, ◌++◌, ◌∷◌, ◌≡◌}
use korkscript.Compiler.StringTable.{c_text}
use korkscript.Escape.{
  close_gap, collapse_escape, collapse_loop, collapse_round, color_char, expand_byte, expand_escape,
  hex_char, mem_move,
}
use korkscript.Escape.Inverse.{collapse_escape-expand_escape}
use korkscript.Escape.RoundTrip.{AreBytes, Holding}

-- `A`, a line feed, a color, `"`, 0x1e and 200.
abbrev mixed : Bytes
mixed = b'A' ∷ b'\n' ∷ 3 ∷ b'"' ∷ 30 ∷ 200 ∷ []

mixed-AreBytes : AreBytes mixed
mixed-AreBytes = (
  omega arith,
  omega arith,
  (
    omega arith,
    omega arith,
    (
      omega arith,
      omega arith,
      (omega arith, omega arith, (omega arith, omega arith, (omega arith, omega arith, tt))),
    ),
  ),
)

expand_mixed :
    expand_escape mixed
    ≡ b'A' ∷ b'\\' ∷ b'n' ∷ b'\\' ∷ b'c' ∷ b'2' ∷ b'\\' ∷ b'"' ∷ b'\\' ∷ b'x' ∷ b'1' ∷ b'E' ∷ 200
      ∷ []
unfolding expand_escape expand_byte color_char hex_char
expand_mixed = refl

collapse_escape-expand_escape_example :
    Holding mixed (collapse_escape (expand_escape mixed ++ (0 ∷ 7 ∷ [])))
collapse_escape-expand_escape_example = collapse_escape-expand_escape mixed [] 7 mixed-AreBytes refl

-- With no byte behind the terminator, `memmove` reads outside of the buffer.
collapse_outside : collapse_escape (b'\\' ∷ b'n' ∷ 0 ∷ []) ≡ none
unfolding collapse_escape collapse_loop collapse_round close_gap mem_move c_text
collapse_outside = refl
