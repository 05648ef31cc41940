-- ===== src/StringStack/Calls.antt =====
-- engine/console/stringStack.h: what a call leaves of the caller's state.
use korkscript.Prelude.{
  Bool, Bytes, Option, ap, arith, false, get_elem?, get_elem?-set_lem, get_elem?-set_ne,
  if◌then◌else◌, length, length-set, ltb, none, refl, set, some, some-injective, subst, sym, true,
  ℕ, ◌&&◌, ◌+◌, ◌-◌, ◌<◌, ◌==◌, ◌∙◌, ◌≡◌, ◌≤◌,
}
use korkscript.StringStack.Args.{compare}
use korkscript.StringStack.Frames.{
  Kept, SameBelow-validate_buffer_size, length-validate_buffer_size,
}
use korkscript.StringStack.Keeps.{
  Kept-refl, advance-Kept, advance_char-Kept, rewind-Kept, set_packed-Kept, set_string_value-Kept,
  validate_buffer_size-record,
}
use korkscript.StringStack.Moves.{
  advance, advance_char, begin_frame, pop_at, pop_frame, pop_to, push, push_frame, rewind,
  rewind_terminate, save_top,
}
use korkscript.StringStack.State.{
  Slot, StringStack, clear_function_offset, get_frame_buffer, get_func_buffer, max_frame_depth,
  max_stack_depth, return_buffer_space, set_console_value_size, set_console_value_value, set_packed,
  set_string_value, set_typed_len, type_string, validate_buffer_size,
}
use korkscript.StringStack.Within.{
  clear_function_offset-Kept, compare-Kept, get_frame_buffer-Kept, get_func_buffer-Kept,
  rewind_terminate-Kept, set_console_value_size-Kept, set_console_value_value-Kept,
  set_typed_len-Kept,
}

-- What may run in the frame of a state: the operations on the top, with operands taken off only as
-- long as the frame has some of its own, and whole calls. `setConsoleValue` and `performOp`, which
-- call functions of the types, are not among them.
pub data Inside : StringStack → StringStack → Type 0 where
  opened : (p : StringStack) → Inside p p
  sets :
      {p u w : StringStack} (text : Option Bytes)
      → Inside p u
      → set_string_value text u ≡ some w
      → Inside p w
  packs : {p u : StringStack} (type v : ℕ) → Inside p u → Inside p (set_packed type v u)
  advances : {p u w : StringStack} → Inside p u → advance u ≡ some w → Inside p w
  advances_char :
      {p u w : StringStack} (c : ℕ) → Inside p u → advance_char c u ≡ some w → Inside p w
  rewinds :
      {p u w : StringStack} (value_size : ℕ → ℕ)
      → Inside p u
      → p.start_stack_size < u.start_stack_size
      → rewind value_size u ≡ some w
      → Inside p w
  pushes : {p u w : StringStack} → Inside p u → push u ≡ some w → Inside p w
  rewinds_terminated :
      {p u w : StringStack} (value_size : ℕ → ℕ)
      → Inside p u
      → p.start_stack_size < u.start_stack_size
      → rewind_terminate value_size u ≡ some w
      → Inside p w
  compares :
      {p u w : StringStack} (same : Bool)
      → Inside p u
      → p.start_stack_size < u.start_stack_size
      → compare u ≡ some (w, same)
      → Inside p w
  sizes_value :
      {p u : StringStack} (type n : ℕ) → Inside p u → Inside p (set_console_value_size type n u)
  sets_value :
      {p u : StringStack} (type v : ℕ) → Inside p u → Inside p (set_console_value_value type v u)
  types_len : {p u : StringStack} (type n : ℕ) → Inside p u → Inside p (set_typed_len type n u)
  takes_frame_buffer :
      {p u : StringStack} (type size : ℕ) → Inside p u → Inside p (get_frame_buffer type size u).0
  takes_func_buffer :
      {p u : StringStack} (type size : ℕ) → Inside p u → Inside p (get_func_buffer type size u).0
  clears_offset : {p u : StringStack} → Inside p u → Inside p (clear_function_offset u)
  calls :
      {p u q r w : StringStack}
      → Inside p u
      → push_frame u ≡ some q
      → Inside q r
      → pop_frame r ≡ some w
      → Inside p w

-- What a call leaves of the caller's state: all of it, with the bytes up to the space for the return
-- value; the buffer may have grown.
pub record Restores (s w : StringStack) : Type 0 where
  pub depth : w.start_stack_size ≡ s.start_stack_size
  pub frames : w.num_frames ≡ s.num_frames
  pub start : w.start ≡ s.start
  pub len : w.len ≡ s.len
  pub type : w.type ≡ s.type
  pub value : w.value ≡ s.value
  pub slots : (i : ℕ) → i < s.start_stack_size → get_elem? w.slots i ≡ get_elem? s.slots i
  pub offsets :
      (i : ℕ) → i < s.num_frames → get_elem? w.frame_offsets i ≡ get_elem? s.frame_offsets i
  pub bytes :
      (i : ℕ)
      → i < s.start + return_buffer_space
      → i < length s.buffer
      → get_elem? w.buffer i ≡ get_elem? s.buffer i
  pub room : length s.buffer ≤ length w.buffer

-- `openFrame` with its fields written out.
abbrev framed : StringStack → StringStack
framed s = record (save_top s) {
  frame_offsets = set s.frame_offsets s.num_frames s.start_stack_size;
  num_frames = s.num_frames + 1;
}

abbrev grown_buffer : StringStack → Bytes
grown_buffer s = (validate_buffer_size (s.start + return_buffer_space + 1) (framed s)).buffer

abbrev frame_of : StringStack → StringStack
frame_of s = record (framed s) {
  buffer = set (grown_buffer s) (s.start + return_buffer_space) 0;
  start = s.start + return_buffer_space;
  type = type_string;
  value = 0;
  len = 0;
}

push_frame-frame_of : (s q : StringStack) → push_frame s ≡ some q → frame_of s ≡ q
unfolding push_frame begin_frame
push_frame-frame_of s q e =
    split (ltb s.num_frames (max_frame_depth - 1) && ltb s.start_stack_size (max_stack_depth - 1)) e
  where
    split : (b : Bool) → (if b then some (begin_frame s) else none) ≡ some q → frame_of s ≡ q
    split false h = absurd (ground arith)
    split true h =
        let at = s.start + return_buffer_space in
        sym (
          ap
            (λ (u : StringStack). record u {
              buffer = set u.buffer at 0;
              start = at;
              type = type_string;
              value = 0;
              len = 0;
            })
            (validate_buffer_size-record (at + 1) (framed s)))
        ∙ some-injective _ _ h

frame_of_room : (s : StringStack) → s.start + return_buffer_space < length (frame_of s).buffer
frame_of_room s =
    let at = s.start + return_buffer_space in
    omega
      (arith, (length-validate_buffer_size (at + 1) (framed s)).1, length-set (grown_buffer s) at 0)

frame_of_grown : (s : StringStack) → length s.buffer ≤ length (frame_of s).buffer
unfolding save_top
frame_of_grown s =
    let at = s.start + return_buffer_space in
    omega
      (arith, (length-validate_buffer_size (at + 1) (framed s)).0, length-set (grown_buffer s) at 0)

frame_of_bytes :
    (s : StringStack) (i : ℕ)
    → i < s.start + return_buffer_space
    → i < length s.buffer
    → get_elem? (frame_of s).buffer i ≡ get_elem? s.buffer i
unfolding save_top
frame_of_bytes s i h n =
    let at = s.start + return_buffer_space in
    get_elem?-set_ne (grown_buffer s) 0 (λ e. omega arith)
    ∙ SameBelow-validate_buffer_size (length s.buffer) (at + 1) (framed s) (omega arith) i n

-- What `popFrame` read.
pub record Popped (r w : StringStack) : Type 0 where
  pub depth : ℕ
  pub slot : Slot
  pub framed : get_elem? r.frame_offsets (r.num_frames - 1) ≡ some depth
  pub stacked : get_elem? r.slots depth ≡ some slot
  pub popped : pop_to r depth (some slot) ≡ some w

pop_frame-Popped : (r w : StringStack) → pop_frame r ≡ some w → Popped r w
unfolding pop_frame
pop_frame-Popped r w e = split (r.num_frames == 0) e
  where
    at_slot :
        (d : ℕ)
        → get_elem? r.frame_offsets (r.num_frames - 1) ≡ some d
        → (o : Option Slot) → get_elem? r.slots d ≡ o
        → pop_to r d o ≡ some w
        → Popped r w
    at_slot d f none g h = absurd (ground arith)
    at_slot d f (some x) g h = record { depth = d; slot = x; framed = f; stacked = g; popped = h }

    at_frame :
        (o : Option ℕ)
        → get_elem? r.frame_offsets (r.num_frames - 1) ≡ o
        → pop_at r o ≡ some w
        → Popped r w
    at_frame none f h = absurd (ground arith)
    at_frame (some d) f h = at_slot d f (get_elem? r.slots d) refl h

    split :
        (b : Bool)
        → (if b then none else pop_at r (get_elem? r.frame_offsets (r.num_frames - 1))) ≡ some w
        → Popped r w
    split true h = absurd (ground arith)
    split false h = at_frame (get_elem? r.frame_offsets (r.num_frames - 1)) refl h

-- The end of a call whose frame was kept.
Kept-Restores : (s r w : StringStack) → Kept (frame_of s) r → pop_frame r ≡ some w → Restores s w
unfolding save_top
Kept-Restores s r w k e =
    let p = pop_frame-Popped r w e in
    let saved : Slot = record { offset = s.start; size = s.len; type = s.type; value = s.value } in
    let last : r.num_frames - 1 ≡ s.num_frames = omega (arith, k.frames) in
    let depth : p.depth ≡ s.start_stack_size =
      get_elem?-set_lem s.frame_offsets s.num_frames s.start_stack_size p.depth (
        sym (k.offsets s.num_frames (omega arith))
        ∙ ap (get_elem? r.frame_offsets) (sym last)
        ∙ p.framed) in
    let slot : p.slot ≡ saved = get_elem?-set_lem s.slots s.start_stack_size saved p.slot (
      sym (k.slots s.start_stack_size (omega arith))
      ∙ ap (get_elem? r.slots) (sym depth)
      ∙ p.stacked) in
    let back = some-injective _ _ p.popped in
    subst (Restores s) back (record {
      depth = depth;
      frames = last;
      start = ap (λ x. x.offset) slot;
      len = ap (λ x. x.size) slot;
      type = ap (λ x. x.type) slot;
      value = ap (λ x. x.value) slot;
      slots = λ i h. k.slots i (omega arith) ∙ get_elem?-set_ne s.slots saved (λ z. omega arith);
      offsets = λ i h.
          k.offsets i (omega arith)
          ∙ get_elem?-set_ne s.frame_offsets s.start_stack_size (λ z. omega arith);
      bytes = λ i h n. k.bytes i h ∙ frame_of_bytes s i h n;
      room = omega (arith, k.grown, frame_of_grown s);
    })

-- A whole call keeps the frame that it is made in.
Restores-Kept : (p u w : StringStack) → Kept p u → Restores u w → Kept p w
Restores-Kept p u w k r = record {
  depth = omega (arith, k.depth, r.depth);
  frames = r.frames ∙ k.frames;
  slots = λ i h. r.slots i (omega (arith, k.depth)) ∙ k.slots i h;
  offsets = λ i h. r.offsets i (omega (arith, k.frames)) ∙ k.offsets i h;
  start = omega (arith, k.start, r.start);
  bytes = λ i h. r.bytes i (omega (arith, k.start)) (omega (arith, k.room)) ∙ k.bytes i h;
  room = omega (arith, k.room, r.room);
  grown = omega (arith, k.grown, r.room);
  above = λ i x h j e.
      let j' : i < u.start_stack_size = omega (arith, j, r.depth) in
      k.above i x h j' (sym (r.slots i j') ∙ e);
}

Inside-Kept : {p u : StringStack} → Inside p u → p.start < length p.buffer → Kept p u
Inside-Kept (opened p) h = Kept-refl p h
Inside-Kept (sets {p} {u} {w} text i e) h = set_string_value-Kept p u w text (Inside-Kept i h) e
Inside-Kept (packs {p} {u} type v i) h = set_packed-Kept p u type v (Inside-Kept i h)
Inside-Kept (advances {p} {u} {w} i e) h = advance-Kept p u w (Inside-Kept i h) e
Inside-Kept (advances_char {p} {u} {w} c i e) h = advance_char-Kept p u w c (Inside-Kept i h) e
Inside-Kept (rewinds {p} {u} {w} f i d e) h = rewind-Kept p u w f (Inside-Kept i h) d e
Inside-Kept (pushes {p} {u} {w} i e) h =
    advance_char-Kept p u w 0 (Inside-Kept i h) (unfold push in e)
Inside-Kept (rewinds_terminated {p} {u} {w} f i d e) h =
    rewind_terminate-Kept p u w f (Inside-Kept i h) d e
Inside-Kept (compares {p} {u} {w} same i d e) h = compare-Kept p u w same (Inside-Kept i h) d e
Inside-Kept (sizes_value {p} {u} type n i) h =
    set_console_value_size-Kept p u type n (Inside-Kept i h)
Inside-Kept (sets_value {p} {u} type v i) h =
    set_console_value_value-Kept p u type v (Inside-Kept i h)
Inside-Kept (types_len {p} {u} type n i) h = set_typed_len-Kept p u type n (Inside-Kept i h)
Inside-Kept (takes_frame_buffer {p} {u} type n i) h =
    get_frame_buffer-Kept p u type n (Inside-Kept i h)
Inside-Kept (takes_func_buffer {p} {u} type n i) h =
    get_func_buffer-Kept p u type n (Inside-Kept i h)
Inside-Kept (clears_offset {p} {u} i) h = clear_function_offset-Kept p u (Inside-Kept i h)
Inside-Kept (calls {p} {u} {q} {r} {w} i e j g) h =
    let same = push_frame-frame_of u q e in
    let room : q.start < length q.buffer =
      subst (λ z. z.start < length z.buffer) same (frame_of_room u) in
    Restores-Kept p u w (Inside-Kept i h)
      (Kept-Restores u r w (subst (λ z. Kept z r) (sym same) (Inside-Kept j room)) g)

-- Between `pushFrame` and `popFrame` may run, any number of times and in any order: the setters of
-- texts, numbers, typed values, sizes and lengths, `getFrameBuffer`, `getFuncBuffer` and
-- `clearFunctionOffset`, `advance`, `advanceChar` and `push`, and whole calls, and while the frame has
-- an operand of its own below the top, `rewind`, `rewindTerminate` and `compare`. Afterwards the
-- caller's top, its slots, its frames and all its bytes up to the space for the return value are as
-- they were.
pub pop_frame-push_frame :
    (s q r w : StringStack)
    → push_frame s ≡ some q
    → Inside q r
    → pop_frame r ≡ some w
    → Restores s w
pop_frame-push_frame s q r w e i g =
    let inner = subst (λ z. Inside z r) (sym (push_frame-frame_of s q e)) i in
    Kept-Restores s r w (Inside-Kept inner (frame_of_room s)) g
