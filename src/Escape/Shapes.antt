-- ===== src/Escape/Shapes.antt =====
-- engine/core/escape.cc: the escapes that `expandEscape` writes, and what stands for which byte.
use korkscript.Prelude.{
  Bool, Bool-cases, Bytes, Option, [], arith, false, if◌then◌else◌, inl, inr, ltb, none, not, refl,
  some, suc, true, within, zero, ℕ, ◌%◌, ◌&&◌, ◌*◌, ◌+◌, ◌/◌, ◌<◌, ◌==◌, ◌||◌, ◌∷◌, ◌≡◌,
}
use korkscript.Escape.{char_conv, color_char, color_of, expand_byte, get_hex_digit, hex_char}

pub data Shape (c : ℕ) : Bytes → Type 0 where
  plain : (c == b'\\') ≡ false → Shape c (c ∷ [])
  short :
      (e : ℕ)
      → (e == b'x') ≡ false
      → (e == b'c') ≡ false
      → char_conv e ≡ c
      → Shape c (b'\\' ∷ e ∷ [])
  color : (k : ℕ) → color_of k ≡ some c → Shape c (b'\\' ∷ b'c' ∷ k ∷ [])
  hex :
      (h l d1 d2 : ℕ)
      → get_hex_digit h ≡ some d1
      → get_hex_digit l ≡ some d2
      → (d1 * 16 + d2) % 256 ≡ c
      → Shape c (b'\\' ∷ b'x' ∷ h ∷ l ∷ [])

get_hex_digit-hex_char : (d : ℕ) → d < 16 → get_hex_digit (hex_char d) ≡ some d
unfolding get_hex_digit hex_char
get_hex_digit-hex_char d h = ground arith

abbrev is_color : ℕ → Bool
is_color c = within 1 7 c || within 11 12 c || within 14 15 c

-- The two tables are inverse to each other.
abbrev is_some : Option ℕ → ℕ → Bool
is_some none c = false
is_some (some d) c = d == c

abbrev color_back : ℕ → Bool
color_back c = not (is_color c) || is_some (color_of (color_char c)) c

abbrev all_below : ℕ → (ℕ → Bool) → Bool
all_below zero f = true
all_below (suc n) f = f n && all_below n f

all_below_lem : (n : ℕ) (f : ℕ → Bool) (i : ℕ) → all_below n f ≡ true → i < n → f i ≡ true
all_below_lem zero f i h k = absurd (omega arith)
all_below_lem (suc n) f i h k = elim (Bool-cases (i == n)) [
  | inl e ↦ let same : i ≡ n = ground arith in rw same (ground arith)
  | inr e ↦ all_below_lem n f i (ground arith) (ground arith)
]

all_colors_back : all_below 16 color_back ≡ true
unfolding color_of color_char
all_colors_back = refl

is_some_lem : (o : Option ℕ) (c : ℕ) → is_some o c ≡ true → o ≡ some c
is_some_lem none c h = absurd (ground arith)
is_some_lem (some d) c h = let same : d ≡ c = ground arith in rw same refl

right_of : (a b : Bool) → a ≡ true → (not a || b) ≡ true → b ≡ true
right_of true b h k = k
right_of false b h k = absurd (ground arith)

color_of-color_char : (c : ℕ) → is_color c ≡ true → color_of (color_char c) ≡ some c
color_of-color_char c h =
    let back = all_below_lem 16 color_back c all_colors_back (ground arith) in
    is_some_lem (color_of (color_char c)) c
      (right_of (is_color c) (is_some (color_of (color_char c)) c) h back)

if_Shape :
    (c : ℕ) (b : Bool) (xs ys : Bytes)
    → (b ≡ true → Shape c xs)
    → (b ≡ false → Shape c ys)
    → Shape c (if b then xs else ys)
if_Shape c true xs ys f g = f refl
if_Shape c false xs ys f g = g refl

pub expand_byte-Shape : (c : ℕ) → c < 256 → Shape c (expand_byte c)
unfolding expand_byte char_conv
expand_byte-Shape c h =
    if_Shape c (c == b'"') _ _ (λ e. short b'"' refl refl (ground arith))
      (λ quote.
        if_Shape c (c == b'\\') _ _ (λ e. short b'\\' refl refl (ground arith))
          (λ slash.
            if_Shape c (c == b'\r') _ _ (λ e. short b'r' refl refl (ground arith))
              (λ cr.
                if_Shape c (c == b'\n') _ _ (λ e. short b'n' refl refl (ground arith))
                  (λ nl.
                    if_Shape c (c == b'\t') _ _ (λ e. short b't' refl refl (ground arith))
                      (λ tab.
                        if_Shape c (c == b'\'') _ _ (λ e. short b'\'' refl refl (ground arith))
                          (λ tick.
                            if_Shape c (is_color c) _ _
                              (λ e. color (color_char c) (color_of-color_char c e))
                              (λ no_color.
                                if_Shape c (ltb c 32) _ _
                                  (λ e.
                                    hex (hex_char (c / 16)) (hex_char (c % 16)) (c / 16) (c % 16)
                                      (get_hex_digit-hex_char (c / 16) (omega arith))
                                      (get_hex_digit-hex_char (c % 16) (omega arith)) (omega arith))
                                  (λ big. plain slash))))))))
