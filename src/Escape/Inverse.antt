-- ===== src/Escape/Inverse.antt =====
-- engine/core/escape.cc: `collapseEscape` against `expandEscape`, over whole texts.
use korkscript.Prelude.{
  AreNonzero, Bytes, [], arith, false, length, length-append, refl, some, suc, zero, ℕ, ◌++◌, ◌+◌,
  ◌<◌, ◌∷◌, ◌≡◌, ◌≤◌,
}
use korkscript.Compiler.StringTable.{c_text}
use korkscript.Escape.{
  char_conv, collapse_escape, color_of, expand_byte, expand_escape, get_hex_digit,
}
use korkscript.Escape.RoundTrip.{AreBytes, Holding, collapse_loop-Holding, first_is_one}
use korkscript.Escape.Shapes.{Shape, color, expand_byte-Shape, hex, plain, short}

AreNonzero-append : (xs ys : Bytes) → AreNonzero xs → AreNonzero ys → AreNonzero (xs ++ ys)
AreNonzero-append [] ys h k = k
AreNonzero-append (x ∷ xs) ys h k = (h.0, AreNonzero-append xs ys h.1 k)

c_text_lem : (s behind : Bytes) → AreNonzero s → c_text (s ++ 0 ∷ behind) ≡ s
unfolding c_text
c_text_lem [] behind h = refl
c_text_lem (c ∷ s) behind h = ground (arith, c_text_lem s behind h.1)

get_hex_digit-positive : (h d : ℕ) → get_hex_digit h ≡ some d → 0 < h
unfolding get_hex_digit
get_hex_digit-positive zero d e = absurd (ground arith)
get_hex_digit-positive (suc h) d e = omega arith

color_of-positive : (k d : ℕ) → color_of k ≡ some d → 0 < k
unfolding color_of
color_of-positive zero d e = absurd (ground arith)
color_of-positive (suc k) d e = omega arith

char_conv-positive : (x c : ℕ) → char_conv x ≡ c → 0 < c → 0 < x
unfolding char_conv
char_conv-positive zero c e h = absurd (ground arith)
char_conv-positive (suc x) c e h = omega arith

Shape-AreNonzero : (c : ℕ) (e : Bytes) → Shape c e → 0 < c → AreNonzero e
Shape-AreNonzero c e (plain p) h = (h, tt)
Shape-AreNonzero c e (short x p q r) h = (omega arith, (char_conv-positive x c r h, tt))
Shape-AreNonzero c e (color k p) h = (omega arith, (omega arith, (color_of-positive k c p, tt)))
Shape-AreNonzero c e (hex x y d1 d2 p q r) h = (
  omega arith,
  (omega arith, (get_hex_digit-positive x d1 p, (get_hex_digit-positive y d2 q, tt))),
)

expand_escape-AreNonzero : (s : Bytes) → AreBytes s → AreNonzero (expand_escape s)
unfolding expand_escape
expand_escape-AreNonzero [] h = tt
expand_escape-AreNonzero (c ∷ s) h =
    AreNonzero-append (expand_byte c) (expand_escape s)
      (Shape-AreNonzero c (expand_byte c) (expand_byte-Shape c h.1) h.0)
      (expand_escape-AreNonzero s h.2)

Shape-length : (c : ℕ) (e : Bytes) → Shape c e → 1 ≤ length e
Shape-length c e (plain p) = omega arith
Shape-length c e (short x p q r) = omega arith
Shape-length c e (color k p) = omega arith
Shape-length c e (hex h l d1 d2 p q r) = omega arith

length-expand_escape : (s : Bytes) → AreBytes s → length s ≤ length (expand_escape s)
unfolding expand_escape
length-expand_escape [] h = omega arith
length-expand_escape (c ∷ s) h = omega (
  arith,
  length-append (expand_byte c) (expand_escape s),
  Shape-length c (expand_byte c) (expand_byte-Shape c h.1),
  length-expand_escape s h.2,
)

-- For every text of nonzero bytes that does not begin with 0x01: given the text that `expandEscape`
-- writes, its terminator, one byte behind it and any memory behind that, `collapseEscape` reads
-- nothing outside of them, ends, returns true, and leaves the text itself in the buffer.
pub collapse_escape-expand_escape :
    (s behind : Bytes) (b : ℕ)
    → AreBytes s
    → first_is_one [] s ≡ false
    → Holding s (collapse_escape (expand_escape s ++ (0 ∷ b ∷ behind)))
unfolding collapse_escape
collapse_escape-expand_escape s behind b h g =
    let read = c_text_lem (expand_escape s) (b ∷ behind) (expand_escape-AreNonzero s h) in
    let more : suc (length (expand_escape s) + 1) ≡ length (expand_escape s) + 2 = omega arith in
    rw (read, more)
      (collapse_loop-Holding (length (expand_escape s) + 2) [] s behind b
        (length (expand_escape s) + 1) tt h g (omega arith)
        (omega (arith, length-expand_escape s h)))
