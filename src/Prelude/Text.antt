-- ===== src/Prelude/Text.antt =====
-- Bytes, ASCII texts as bytes, and the character classes of the C locale.
use Prim.Native.Nat.{ℕ, ◌+◌, ◌%◌, ◌^◌}
use Prim.Native.Char.{code}
use Prim.Native.String.{String}
use mathlib.Core.Bool.{Bool, true, false, ◌&&◌, ◌||◌}
use mathlib.Core.List.{List, [], ◌∷◌}
use Prim.Native.Nat.{◌<◌}
use mathlib.Core.Path.{◌≡◌}
use native.Mathlib.Omega.{arith}
use korkscript.Prelude.Tests.{leb, ◌==◌, if◌then◌else◌}

abbrev pub Bytes : Type 0
Bytes = List ℕ

-- No byte is the terminator.
abbrev pub AreNonzero : Bytes → Type 0
AreNonzero [] = Unit
AreNonzero (c ∷ cs) = (0 < c) × AreNonzero cs

-- The code points of a text: its bytes, for the ASCII literals of the source.
abbrev pub codes : String → Bytes
codes String.[] = []
codes (String.◌∷◌ c s) = code c ∷ codes s

abbrev pub within : ℕ → ℕ → ℕ → Bool
within lo hi c = leb lo c && leb c hi

-- `isdigit`, `isalpha` and `isalnum` of the C locale.
abbrev pub is_digit : ℕ → Bool
is_digit c = within b'0' b'9' c

abbrev pub is_alpha : ℕ → Bool
is_alpha c = within b'a' b'z' c || within b'A' b'Z' c

abbrev pub is_alnum : ℕ → Bool
is_alnum c = is_alpha c || is_digit c

-- `tolower` of the C locale.
abbrev pub to_lower : ℕ → ℕ
to_lower c = if within b'A' b'Z' c then c + 32 else c

-- `strcmp(a, b) == 0` on texts without their terminators.
unfoldable pub equal : Bytes → Bytes → Bool
equal [] [] = true
equal (x ∷ xs) (y ∷ ys) = x == y && equal xs ys
equal _ _ = false

-- `strcasecmp(a, b) == 0`.
unfoldable pub equal_fold : Bytes → Bytes → Bool
equal_fold [] [] = true
equal_fold (x ∷ xs) (y ∷ ys) = to_lower x == to_lower y && equal_fold xs ys
equal_fold _ _ = false

-- The conversion to `U32`.
unfoldable pub u32 : ℕ → ℕ
u32 n = n % 2 ^ 32

pub u32_lem : (n : ℕ) → n < 2 ^ 32 → u32 n ≡ n
unfolding u32
u32_lem n h = omega arith
