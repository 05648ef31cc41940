-- ===== src/StringStack/Keeps.antt =====
-- engine/console/stringStack.h: what lies below a frame, operation by operation.
use korkscript.Prelude.{
  Bool, Bool-cases, Bytes, Option, [], ap, arith, false, get_elem?, if◌then◌else◌, inl, inr, length,
  length-put_bytes, length-set, ltb, none, put_bytes, refl, set, some, some-injective, subst, sym,
  true, ℕ, ◌&&◌, ◌++◌, ◌+◌, ◌-◌, ◌<◌, ◌==◌, ◌∙◌, ◌∷◌, ◌≡◌, ◌≤◌,
}
use korkscript.StringStack.Frames.{
  Kept, Kept-save, Kept-top, SameBelow-put_bytes, SameBelow-set, SameBelow-trans,
  SameBelow-validate_buffer_size, length-validate_buffer_size,
}
use korkscript.StringStack.Moves.{advance, advance_char, rewind, rewind_from, rewind_to, save_top}
use korkscript.StringStack.State.{
  Slot, StringStack, max_stack_depth, poke, set_packed, set_string_value, type_string,
  validate_buffer_size,
}

pub Kept-refl : (p : StringStack) → p.start < length p.buffer → Kept p p
Kept-refl p h = record {
  depth = omega arith;
  frames = refl;
  slots = λ i k. refl;
  offsets = λ i k. refl;
  start = omega arith;
  bytes = λ i k. refl;
  room = h;
  grown = omega arith;
  above = λ i x k j e. absurd (omega arith);
}

pub poke-Kept :
    (p u w : StringStack) (i c : ℕ) → p.start ≤ i → Kept p u → poke i c u ≡ some w → Kept p w
unfolding poke
poke-Kept p u w i c h k e = split (ltb i (length u.buffer)) e
  where
    split :
        (b : Bool)
        → (if b then some (record u { buffer = set u.buffer i c }) else none) ≡ some w
        → Kept p w
    split false q = absurd (ground arith)
    split true q = subst (Kept p) (some-injective _ _ q) (
        Kept-top (record u { buffer = set u.buffer i c }) k refl refl refl refl k.start
          (SameBelow-set p.start i c u.buffer h) (omega (arith, length-set u.buffer i c)))

pub validate_buffer_size-record :
    (size : ℕ) (s : StringStack)
    → validate_buffer_size size s ≡ record s { buffer = (validate_buffer_size size s).buffer }
unfolding validate_buffer_size
validate_buffer_size-record size s = elim (Bool-cases (ltb (length s.buffer) size)) [
  | inl e ↦ rw e refl
  | inr e ↦ rw e refl
]

pub set_string_value-Kept :
    (p u w : StringStack) (text : Option Bytes)
    → Kept p u
    → set_string_value text u ≡ some w
    → Kept p w
unfolding set_string_value
set_string_value-Kept p u w none k e =
    poke-Kept p (record u { len = 0 }) w u.start 0 k.start
      (Kept-top (record u { len = 0 }) k refl refl refl refl k.start (λ i h. refl) (omega arith)) e
set_string_value-Kept p u w (some text) k e =
    let n = length text in
    let u0 = record u { len = n; type = type_string } in
    let size = u.start + n + 2 in
    let buf = (validate_buffer_size size u0).buffer in
    let bytes = text ++ 0 ∷ [] in
    let eq =
      sym (
        ap (λ (v : StringStack). some (record v { buffer = put_bytes bytes u.start v.buffer }))
          (validate_buffer_size-record size u0))
      ∙ e in
    subst (Kept p) (some-injective _ _ eq) (
      Kept-top (record u0 { buffer = put_bytes bytes u.start buf }) k refl refl refl refl k.start
        (SameBelow-trans p.start u.buffer buf (put_bytes bytes u.start buf)
          (SameBelow-validate_buffer_size p.start size u0 (omega (arith, k.room)))
          (SameBelow-put_bytes p.start u.start bytes buf k.start))
        (omega
          (arith, (length-validate_buffer_size size u0).0, length-put_bytes bytes u.start buf)))

pub set_packed-Kept : (p u : StringStack) (type v : ℕ) → Kept p u → Kept p (set_packed type v u)
unfolding set_packed
set_packed-Kept p u type v k =
    subst (Kept p)
      (sym (
        ap (λ (z : StringStack). record z { len = 0; value = v; type = type })
          (validate_buffer_size-record (u.start + 16) u)))
      (Kept-top _ k refl refl refl refl k.start
        (SameBelow-validate_buffer_size p.start (u.start + 16) u (omega (arith, k.room)))
        (length-validate_buffer_size (u.start + 16) u).0)

pub advance-Kept : (p u w : StringStack) → Kept p u → advance u ≡ some w → Kept p w
unfolding advance save_top
advance-Kept p u w k e = split (ltb u.start_stack_size (max_stack_depth - 1)) e
  where
    split :
        (b : Bool)
        → (if b
            then some (record (save_top u) { start = u.start + u.len; len = 0; type = type_string })
            else none)
          ≡ some w
        → Kept p w
    split false q = absurd (ground arith)
    split true q = subst (Kept p) (some-injective _ _ q) (
        Kept-save _ _ k refl refl refl refl refl (omega (arith, k.start)) (λ i h. refl)
          (omega arith))

pub advance_char-Kept :
    (p u w : StringStack) (c : ℕ) → Kept p u → advance_char c u ≡ some w → Kept p w
unfolding advance_char save_top
advance_char-Kept p u w c k e =
    split
      (ltb u.start_stack_size (max_stack_depth - 1) && ltb (u.start + u.len + 1) (length u.buffer))
      e
  where
    at : ℕ
    at = u.start + u.len

    split :
        (b : Bool)
        → (if b
            then some (record (save_top u) {
              buffer = set (set u.buffer at c) (at + 1) 0;
              start = at + 1;
              len = 0;
              type = type_string;
            })
            else none)
          ≡ some w
        → Kept p w
    split false q = absurd (ground arith)
    split true q = subst (Kept p) (some-injective _ _ q) (
        Kept-save _ _ k refl refl refl refl refl (omega (arith, k.start))
          (SameBelow-trans p.start u.buffer (set u.buffer at c) (set (set u.buffer at c) (at + 1) 0)
            (SameBelow-set p.start at c u.buffer (omega (arith, k.start)))
            (SameBelow-set p.start (at + 1) 0 (set u.buffer at c) (omega (arith, k.start))))
          (omega (arith, length-set u.buffer at c, length-set (set u.buffer at c) (at + 1) 0)))

rewind_to-Kept :
    (p u w : StringStack) (value_size : ℕ → ℕ) (i : ℕ) (o : Option Slot)
    → Kept p u
    → p.start_stack_size ≤ i
    → i < u.start_stack_size
    → get_elem? u.slots i ≡ o
    → rewind_to value_size u i o ≡ some w
    → Kept p w
rewind_to-Kept p u w value_size i none k h j e q = absurd (ground arith)
rewind_to-Kept p u w value_size i (some x) k h j e q =
    subst (Kept p) (some-injective _ _ q) (record {
      depth = h;
      frames = k.frames;
      slots = k.slots;
      offsets = k.offsets;
      start = k.above i x h j e;
      bytes = k.bytes;
      room = k.room;
      grown = k.grown;
      above = λ m y a b. k.above m y a (omega arith);
    })

rewind_from-Kept :
    (p u w : StringStack) (value_size : ℕ → ℕ)
    → Kept p u
    → p.start_stack_size < u.start_stack_size
    → rewind_from value_size (some u) ≡ some w
    → Kept p w
rewind_from-Kept p u w value_size k h e =
    let deep : (u.start_stack_size == 0) ≡ false = ground arith in
    let i = u.start_stack_size - 1 in
    rewind_to-Kept p u w value_size i (get_elem? u.slots i) k (omega arith) (omega arith) refl
      (rw deep at e)

poke_depth :
    (u v : StringStack) (i c : ℕ) → poke i c u ≡ some v → v.start_stack_size ≡ u.start_stack_size
unfolding poke
poke_depth u v i c e = split (ltb i (length u.buffer)) e
  where
    split :
        (b : Bool)
        → (if b then some (record u { buffer = set u.buffer i c }) else none) ≡ some v
        → v.start_stack_size ≡ u.start_stack_size
    split false q = absurd (ground arith)
    split true q = sym (ap (λ z. z.start_stack_size) (some-injective _ _ q))

pub poked_rewind-Kept :
    (p u w : StringStack) (value_size : ℕ → ℕ) (o : Option StringStack)
    → Kept p u
    → p.start_stack_size < u.start_stack_size
    → poke u.start 0 u ≡ o
    → rewind_from value_size o ≡ some w
    → Kept p w
poked_rewind-Kept p u w value_size none k h a b = absurd (ground arith)
poked_rewind-Kept p u w value_size (some v) k h a b =
    rewind_from-Kept p v w value_size (poke-Kept p u v u.start 0 k.start k a)
      (omega (arith, poke_depth u v u.start 0 a)) b

pub rewind-Kept :
    (p u w : StringStack) (value_size : ℕ → ℕ)
    → Kept p u
    → p.start_stack_size < u.start_stack_size
    → rewind value_size u ≡ some w
    → Kept p w
unfolding rewind
rewind-Kept p u w value_size k h e = split (u.type == type_string) e
  where
    split :
        (b : Bool)
        → rewind_from value_size (if b then some u else poke u.start 0 u) ≡ some w
        → Kept p w
    split true q = rewind_from-Kept p u w value_size k h q
    split false q = poked_rewind-Kept p u w value_size (poke u.start 0 u) k h refl q
