-- ===== src/Prelude/Memory.antt =====
-- Reading and writing runs of bytes in a buffer.
use Prim.Native.Nat.{ℕ, zero, suc, ◌+◌, ◌≤◌, ◌<◌}
use mathlib.Core.Path.{◌≡◌, refl, ◌∙◌}
use mathlib.Core.List.{[], ◌∷◌}
use mathlib.Core.Option.{some}
use native.Mathlib.Omega.{arith}
use korkscript.Prelude.Lists.{
  length, get_elem?, set, drop, length-set, get_elem?-set_self, get_elem?-set_ne,
}
use korkscript.Prelude.Text.{Bytes}

-- Stores bytes from position `i` on; those that fall outside the buffer change nothing.
unfoldable pub put_bytes : Bytes → ℕ → Bytes → Bytes
put_bytes [] i buf = buf
put_bytes (c ∷ cs) i buf = put_bytes cs (i + 1) (set buf i c)

-- The buffer holds these bytes from position `i` on.
abbrev pub Holds : Bytes → ℕ → Bytes → Type 0
Holds buf i [] = Unit
Holds buf i (c ∷ cs) = (get_elem? buf i ≡ some c) × Holds buf (i + 1) cs

pub length-put_bytes : (bs : Bytes) (i : ℕ) (buf : Bytes) → length (put_bytes bs i buf) ≡ length buf
unfolding put_bytes
length-put_bytes [] i buf = refl
length-put_bytes (c ∷ cs) i buf = length-put_bytes cs (i + 1) (set buf i c) ∙ length-set buf i c

pub get_elem?-put_bytes_before :
    (bs : Bytes) (i j : ℕ) (buf : Bytes)
    → j < i
    → get_elem? (put_bytes bs i buf) j ≡ get_elem? buf j
unfolding put_bytes
get_elem?-put_bytes_before [] i j buf h = refl
get_elem?-put_bytes_before (c ∷ cs) i j buf h =
    get_elem?-put_bytes_before cs (i + 1) j (set buf i c) (omega arith)
    ∙ get_elem?-set_ne buf c (λ e. omega arith)

-- What is stored is there.
pub put_bytes-Holds :
    (bs : Bytes) (i : ℕ) (buf : Bytes)
    → i + length bs ≤ length buf
    → Holds (put_bytes bs i buf) i bs
unfolding put_bytes
put_bytes-Holds [] i buf h = tt
put_bytes-Holds (c ∷ cs) i buf h = (
  get_elem?-put_bytes_before cs (i + 1) i (set buf i c) (omega arith)
      ∙ get_elem?-set_self buf i c (omega arith),
  put_bytes-Holds cs (i + 1) (set buf i c) (omega (arith, length-set buf i c)),
)

-- What lies before stays.
pub Holds-put_bytes :
    (cs bs : Bytes) (i j : ℕ) (buf : Bytes)
    → j + length cs ≤ i
    → Holds buf j cs
    → Holds (put_bytes bs i buf) j cs
Holds-put_bytes [] bs i j buf h k = tt
Holds-put_bytes (c ∷ cs) bs i j buf h k = (
  get_elem?-put_bytes_before bs i j buf (omega arith) ∙ k.0,
  Holds-put_bytes cs bs i (j + 1) buf (omega arith) k.1,
)

-- What lies at a position is the head of the buffer from there on.
pub drop_cons :
    (i c : ℕ) (buf : Bytes) → get_elem? buf i ≡ some c → drop i buf ≡ c ∷ drop (i + 1) buf
drop_cons i c [] h = absurd (ground arith)
drop_cons zero c (x ∷ xs) h = ground arith
drop_cons (suc i) c (x ∷ xs) h = ground (arith, drop_cons i c xs h)
