-- ===== src/Escape/RoundTrip.antt =====
-- engine/core/escape.cc: `collapseEscape` of what `expandEscape` wrote.
use korkscript.Prelude.{
  Bool, Bytes, Option, [], ap, append-nil, append_assoc, arith, false, length, length-append, ltb,
  none, refl, some, suc, sym, true, zero, ℕ, ◌&&◌, ◌++◌, ◌+◌, ◌-◌, ◌<◌, ◌==◌, ◌∙◌, ◌∷◌, ◌≡◌, ◌≤◌,
}
use korkscript.Compiler.StringTable.{c_text}
use korkscript.Escape.{
  Round, close_gap, collapse_loop, collapse_round, expand_byte, expand_escape, go,
}
use korkscript.Escape.Gaps.{close_gap_lem, get_elem?-behind, leftover, state}
use korkscript.Escape.Shapes.{Shape, color, expand_byte-Shape, hex, plain, short}

-- The escaped rest of the text with its terminator and the memory behind it.
abbrev rest_of : Bytes → ℕ → Bytes → Bytes
rest_of cs b behind = expand_escape cs ++ (0 ∷ b ∷ behind)

-- The bytes that move over the gap: the rest, its terminator, and one byte more.
abbrev moving : Bytes → ℕ → Bytes
moving cs b = expand_escape cs ++ (0 ∷ b ∷ [])

moving-append : (cs behind : Bytes) (b : ℕ) → moving cs b ++ behind ≡ rest_of cs b behind
moving-append cs behind b = append_assoc (expand_escape cs) (0 ∷ b ∷ []) behind

length-moving : (cs : Bytes) (b : ℕ) → length (moving cs b) ≡ length (expand_escape cs) + 2
length-moving cs b = omega (arith, length-append (expand_escape cs) (0 ∷ b ∷ []))

-- What a round over the escape of `c` comes to.
pub data Collapses (done : Bytes) (c : ℕ) (cs : Bytes) (b len : ℕ) (r : Round) : Type 0 where
  collapses :
      (behind : Bytes)
      → r ≡ go (state (done ++ c ∷ []) (rest_of cs b behind) len)
      → Collapses done c cs b len r

closed-Collapses :
    (done mid cs behind : Bytes) (b x c len gone n : ℕ)
    → n ≡ length (expand_escape cs) + 2
    → Collapses done c cs b
        (len - gone)
        (close_gap c (length mid + 1) n gone (state done (x ∷ (mid ++ rest_of cs b behind)) len))
closed-Collapses done mid cs behind b x c len gone n e =
    let left = leftover mid (moving cs b) behind in
    let count : n ≡ length (moving cs b) = e ∙ sym (length-moving cs b) in
    let buf : done ++ (c ∷ (moving cs b ++ left)) ≡ (done ++ c ∷ []) ++ rest_of cs b left =
      ap (λ z. done ++ (c ∷ z)) (moving-append cs left b)
      ∙ sym (append_assoc done (c ∷ []) (rest_of cs b left)) in
    let at : length done + 1 ≡ length (done ++ c ∷ []) =
      omega (arith, length-append done (c ∷ [])) in
    collapses left (
      ap
        (λ z.
          close_gap c (length mid + 1) z gone (state done (x ∷ (mid ++ rest_of cs b behind)) len))
        count
      ∙ ap
          (λ z.
            close_gap c (length mid + 1) (length (moving cs b)) gone
              (state done (x ∷ (mid ++ z)) len))
          (sym (moving-append cs behind b))
      ∙ close_gap_lem done mid (moving cs b) behind x c len gone
      ∙ ap (λ z. go (record { buf = z; i = length done + 1; len = len - gone })) buf
      ∙ ap
          (λ z.
            go (record { buf = (done ++ c ∷ []) ++ rest_of cs b left; i = z; len = len - gone }))
          at)

round-Collapses :
    (done e cs behind : Bytes) (b c len : ℕ)
    → Shape c e
    → (c == 1 && length done == 0) ≡ false
    → len ≡ length done + length e + length (expand_escape cs) + 1
    → Collapses done c cs b
        (len + 1 - length e)
        (collapse_round (state done (e ++ rest_of cs b behind) len))
unfolding collapse_round
round-Collapses done e cs behind b c len (plain p) g n =
    let at : length done + 1 ≡ length (done ++ c ∷ []) =
      omega (arith, length-append done (c ∷ [])) in
    let same : len + 1 - 1 ≡ len = omega arith in
    rw (get_elem?-behind done (c ∷ rest_of cs b behind) 0, p, same)
      (collapses behind (
        ap (λ z. go (record { buf = z; i = length done + 1; len = len }))
          (sym (append_assoc done (c ∷ []) (rest_of cs b behind)))
        ∙ ap (λ z. go (record { buf = (done ++ c ∷ []) ++ rest_of cs b behind; i = z; len = len }))
            at))
round-Collapses done e cs behind b c len (short x p q r) g n =
    let ys = b'\\' ∷ x ∷ rest_of cs b behind in
    let less : len + 1 - 2 ≡ len - 1 = omega arith in
    rw (get_elem?-behind done ys 0, get_elem?-behind done ys 1, p, q, r, less)
      (closed-Collapses done (x ∷ []) cs behind b b'\\' c len 1 (len - length done - 1)
        (omega arith))
round-Collapses done e cs behind b c len (color k p) g n =
    let ys = b'\\' ∷ b'c' ∷ k ∷ rest_of cs b behind in
    let less : len + 1 - 3 ≡ len - 2 = omega arith in
    rw
      (
        get_elem?-behind done ys 0,
        get_elem?-behind done ys 1,
        get_elem?-behind done ys 2,
        p,
        g,
        less,
      )
      (closed-Collapses done (b'c' ∷ k ∷ []) cs behind b b'\\' c len 2 (len - length done - 2)
        (omega arith))
round-Collapses done e cs behind b c len (hex h l d1 d2 p q r) g n =
    let ys = b'\\' ∷ b'x' ∷ h ∷ l ∷ rest_of cs b behind in
    let less : len + 1 - 4 ≡ len - 3 = omega arith in
    rw
      (
        get_elem?-behind done ys 0,
        get_elem?-behind done ys 1,
        get_elem?-behind done ys 2,
        get_elem?-behind done ys 3,
        p,
        q,
        r,
        less,
      )
      (closed-Collapses done (b'x' ∷ h ∷ l ∷ []) cs behind b b'\\' c len 3 (len - length done - 3)
        (omega arith))

-- All bytes are bytes of a text.
abbrev pub AreBytes : Bytes → Type 0
AreBytes [] = Unit
AreBytes (c ∷ cs) = (0 < c) × (c < 256) × AreBytes cs

-- The bytes at the beginning of the buffer that are no 0x01 in front.
abbrev pub first_is_one : Bytes → Bytes → Bool
first_is_one done [] = false
first_is_one done (c ∷ cs) = c == 1 && length done == 0

-- The whole text stands in the buffer.
abbrev pub Holding : Bytes → Option (Bool × Bytes) → Type 0
Holding text none = ⊥
Holding text (some (ok, buf)) = (ok ≡ true) × (c_text buf ≡ text)

c_text-behind : (s behind : Bytes) → AreBytes s → c_text (s ++ 0 ∷ behind) ≡ s
unfolding c_text
c_text-behind [] behind h = refl
c_text-behind (c ∷ s) behind h = ground (arith, c_text-behind s behind h.2)

AreBytes-append : (xs : Bytes) (c : ℕ) → AreBytes xs → 0 < c → c < 256 → AreBytes (xs ++ c ∷ [])
AreBytes-append [] c h p q = (p, q, tt)
AreBytes-append (x ∷ xs) c h p q = (h.0, h.1, AreBytes-append xs c h.2 p q)

first_is_one-later : (done s : Bytes) (c : ℕ) → first_is_one (done ++ c ∷ []) s ≡ false
first_is_one-later done [] c = refl
first_is_one-later done (x ∷ s) c = ground (arith, length-append done (c ∷ []))

collapse_round-end :
    (done ys : Bytes) (len : ℕ)
    → collapse_round (state done (0 ∷ ys) len)
      ≡ go (record { buf = done ++ 0 ∷ ys; i = length done + 1; len = len })
unfolding collapse_round
collapse_round-end done ys len = rw (get_elem?-behind done (0 ∷ ys) 0) refl

-- The rounds from `done` on: the rest of the text is collapsed behind it.
pub collapse_loop-Holding :
    (fuel : ℕ) (done s behind : Bytes) (b len : ℕ)
    → AreBytes done
    → AreBytes s
    → first_is_one done s ≡ false
    → len ≡ length done + length (expand_escape s) + 1
    → length s + 2 ≤ fuel
    → Holding (done ++ s) (collapse_loop fuel (state done (rest_of s b behind) len))
unfolding collapse_loop expand_escape
collapse_loop-Holding zero done s behind b len d h g n f = absurd (omega arith)
collapse_loop-Holding (suc zero) done [] behind b len d h g n f = absurd (omega arith)
collapse_loop-Holding (suc (suc fuel)) done [] behind b len d h g n f =
    let more : ltb (length done) len ≡ true = ground arith in
    let no_more : ltb (length done + 1) len ≡ false = ground arith in
    rw (more, collapse_round-end done (b ∷ behind) len, no_more, append-nil done)
      (refl, c_text-behind done (b ∷ behind) d)
collapse_loop-Holding (suc fuel) done (c ∷ s) behind b len d h g n f =
    let e = expand_byte c in
    let long : length (e ++ expand_escape s) ≡ length e + length (expand_escape s) =
      length-append e (expand_escape s) in
    let count : len ≡ length done + length e + length (expand_escape s) + 1 = omega arith in
    let more : ltb (length done) len ≡ true = ground arith in
    let split = append_assoc e (expand_escape s) (0 ∷ b ∷ behind) in
    elim (round-Collapses done e s behind b c len (expand_byte-Shape c h.1) g count) [
      | collapses left turn ↦
          let rest =
            collapse_loop-Holding fuel (done ++ c ∷ []) s left b (len + 1 - length e)
              (AreBytes-append done c d h.0 h.1) h.2 (first_is_one-later done s c)
              (omega (arith, length-append done (c ∷ []))) (omega arith) in
          rw (more, split, turn, ← append_assoc done (c ∷ []) s) rest
    ]
