-- ===== src/StringStack/Frames.antt =====
-- engine/console/stringStack.h: what lies below a frame.
use korkscript.Prelude.{
  Bool-cases, Bytes, ap, arith, get_elem?, get_elem?-append_left, get_elem?-put_bytes_before,
  get_elem?-set_lem, get_elem?-set_ne, inl, inr, length, length-append, length-replicate, ltb,
  put_bytes, refl, replicate, set, some, subst, sym, ℕ, ◌+◌, ◌-◌, ◌<◌, ◌==◌, ◌∙◌, ◌≡◌, ◌≤◌,
}
use korkscript.StringStack.State.{Slot, StringStack, validate_buffer_size}

-- The buffers agree below a position.
abbrev pub SameBelow : ℕ → Bytes → Bytes → Type 0
SameBelow n a b = (i : ℕ) → i < n → get_elem? b i ≡ get_elem? a i

pub SameBelow-trans : (n : ℕ) (a b c : Bytes) → SameBelow n a b → SameBelow n b c → SameBelow n a c
SameBelow-trans n a b c f g i h = g i h ∙ f i h

pub SameBelow-set : (n i c : ℕ) (a : Bytes) → n ≤ i → SameBelow n a (set a i c)
SameBelow-set n i c a h j k = get_elem?-set_ne a c (λ e. omega arith)

pub SameBelow-put_bytes : (n i : ℕ) (bs a : Bytes) → n ≤ i → SameBelow n a (put_bytes bs i a)
SameBelow-put_bytes n i bs a h j k = get_elem?-put_bytes_before bs i j a (omega arith)

pub SameBelow-validate_buffer_size :
    (n size : ℕ) (s : StringStack)
    → n ≤ length s.buffer
    → SameBelow n s.buffer (validate_buffer_size size s).buffer
unfolding validate_buffer_size
SameBelow-validate_buffer_size n size s h = elim (Bool-cases (ltb (length s.buffer) size)) [
  | inl e ↦ rw e (λ i k. get_elem?-append_left s.buffer _ i (omega arith))
  | inr e ↦ rw e (λ i k. refl)
]

pub length-validate_buffer_size :
    (size : ℕ) (s : StringStack)
    → (length s.buffer ≤ length (validate_buffer_size size s).buffer)
      × (size ≤ length (validate_buffer_size size s).buffer)
unfolding validate_buffer_size
length-validate_buffer_size size s = elim (Bool-cases (ltb (length s.buffer) size)) [
  | inl e ↦
      let more : Bytes = replicate (size + 2048 - length s.buffer) 0 in
      let n = size + 2048 - length s.buffer in
      rw e (ground (arith, length-append s.buffer more, length-replicate {A = ℕ} n 0))
  | inr e ↦ rw e (ground arith)
]

-- Between the states `p` and `u` of one frame: everything below the frame is as it was, and all
-- operands of the frame lie behind its start.
pub record Kept (p u : StringStack) : Type 0 where
  pub depth : p.start_stack_size ≤ u.start_stack_size
  pub frames : u.num_frames ≡ p.num_frames
  pub slots : (i : ℕ) → i < p.start_stack_size → get_elem? u.slots i ≡ get_elem? p.slots i
  pub offsets :
      (i : ℕ) → i < p.num_frames → get_elem? u.frame_offsets i ≡ get_elem? p.frame_offsets i
  pub start : p.start ≤ u.start
  pub bytes : SameBelow p.start p.buffer u.buffer
  pub room : p.start < length u.buffer
  pub grown : length p.buffer ≤ length u.buffer
  pub above :
      (i : ℕ) (x : Slot)
      → p.start_stack_size ≤ i
      → i < u.start_stack_size
      → get_elem? u.slots i ≡ some x
      → p.start ≤ x.offset

-- A step that leaves the slots and the frames alone.
pub Kept-top :
    {p u : StringStack} (w : StringStack)
    → Kept p u
    → w.slots ≡ u.slots
    → w.frame_offsets ≡ u.frame_offsets
    → w.num_frames ≡ u.num_frames
    → w.start_stack_size ≡ u.start_stack_size
    → p.start ≤ w.start
    → SameBelow p.start u.buffer w.buffer
    → length u.buffer ≤ length w.buffer
    → Kept p w
Kept-top {p} {u} w k a b c d st by n = record {
  depth = rw d k.depth;
  frames = c ∙ k.frames;
  slots = λ i h. ap (λ xs. get_elem? xs i) a ∙ k.slots i h;
  offsets = λ i h. ap (λ xs. get_elem? xs i) b ∙ k.offsets i h;
  start = st;
  bytes = SameBelow-trans p.start p.buffer u.buffer w.buffer k.bytes by;
  room = omega (arith, k.room);
  grown = omega (arith, k.grown);
  above = λ i x h j e. k.above i x h (omega arith) (sym (ap (λ xs. get_elem? xs i) a) ∙ e);
}

-- A step that saves the top in the next slot.
pub Kept-save :
    {p u : StringStack} (w : StringStack) (x : Slot)
    → Kept p u
    → w.slots ≡ set u.slots u.start_stack_size x
    → x.offset ≡ u.start
    → w.frame_offsets ≡ u.frame_offsets
    → w.num_frames ≡ u.num_frames
    → w.start_stack_size ≡ u.start_stack_size + 1
    → p.start ≤ w.start
    → SameBelow p.start u.buffer w.buffer
    → length u.buffer ≤ length w.buffer
    → Kept p w
Kept-save {p} {u} w x k a o b c d st by n = record {
  depth = omega (arith, k.depth);
  frames = c ∙ k.frames;
  slots = λ i h.
      ap (λ xs. get_elem? xs i) a
      ∙ get_elem?-set_ne u.slots x (λ e. omega (arith, k.depth))
      ∙ k.slots i h;
  offsets = λ i h. ap (λ xs. get_elem? xs i) b ∙ k.offsets i h;
  start = st;
  bytes = SameBelow-trans p.start p.buffer u.buffer w.buffer k.bytes by;
  room = omega (arith, k.room);
  grown = omega (arith, k.grown);
  above = λ i y h j e. saved i y h (omega arith) (sym (ap (λ xs. get_elem? xs i) a) ∙ e);
}
  where
    saved :
        (i : ℕ) (y : Slot)
        → p.start_stack_size ≤ i
        → i < u.start_stack_size + 1
        → get_elem? (set u.slots u.start_stack_size x) i ≡ some y
        → p.start ≤ y.offset
    saved i y h j e = elim (Bool-cases (i == u.start_stack_size)) [
      | inl q ↦
          let here : i ≡ u.start_stack_size = ground arith in
          let same : y ≡ x =
            get_elem?-set_lem u.slots u.start_stack_size x y
              (subst (λ m. get_elem? (set u.slots u.start_stack_size x) m ≡ some y) here e) in
          omega (arith, ap (λ z. z.offset) same, o, k.start)
      | inr q ↦
          let before : i < u.start_stack_size = ground arith in
          k.above i y h before (sym (get_elem?-set_ne u.slots x (λ r. omega arith)) ∙ e)
    ]
