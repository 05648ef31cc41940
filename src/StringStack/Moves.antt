-- ===== src/StringStack/Moves.antt =====
-- engine/console/stringStack.h: the operations that move the top of the stack, and the frames.
use korkscript.Prelude.{
  Option, drop, get_elem?, if◌then◌else◌, length, ltb, none, set, some, ℕ, ◌&&◌, ◌+◌, ◌-◌, ◌==◌,
}
use korkscript.Compiler.StringTable.{c_text}
use korkscript.StringStack.State.{
  Slot, StringStack, max_frame_depth, max_stack_depth, poke, return_buffer_space, type_begin_custom,
  type_string, validate_buffer_size,
}

-- The top goes into the next slot.
unfoldable pub save_top : StringStack → StringStack
save_top s = record s {
  slots =
      set s.slots s.start_stack_size
        (record { offset = s.start; size = s.len; type = s.type; value = s.value });
  start_stack_size = s.start_stack_size + 1;
}

unfoldable pub advance : StringStack → Option StringStack
advance s =
    if ltb s.start_stack_size (max_stack_depth - 1)
    then some (record (save_top s) { start = s.start + s.len; len = 0; type = type_string })
    else none

-- `advanceChar`, which stores behind the text without a look at the buffer's size.
unfoldable pub advance_char : ℕ → StringStack → Option StringStack
advance_char c s =
    let at = s.start + s.len in
    if ltb s.start_stack_size (max_stack_depth - 1) && ltb (at + 1) (length s.buffer)
    then some (record (save_top s) {
      buffer = set (set s.buffer at c) (at + 1) 0;
      start = at + 1;
      len = 0;
      type = type_string;
    })
    else none

unfoldable pub push : StringStack → Option StringStack
push s = advance_char 0 s

-- `getHeadLength`, with the sizes of the custom types.
unfoldable pub get_head_length : (ℕ → ℕ) → StringStack → ℕ
get_head_length value_size s =
    if s.type == type_string
    then length (c_text (drop s.start s.buffer))
    else if ltb s.type type_begin_custom
    then 0
    else value_size s.type

-- The slot below becomes the top; its length is measured again.
abbrev pub rewind_to : (ℕ → ℕ) → StringStack → ℕ → Option Slot → Option StringStack
rewind_to value_size s depth none = none
rewind_to value_size s depth (some x) =
    let u = record s {
      start_stack_size = depth;
      start = x.offset;
      type = x.type;
      value = x.value;
    } in
    some (record u { len = get_head_length value_size u })

abbrev pub rewind_from : (ℕ → ℕ) → Option StringStack → Option StringStack
rewind_from value_size none = none
rewind_from value_size (some s) =
    if s.start_stack_size == 0
    then none
    else rewind_to value_size s (s.start_stack_size - 1)
        (get_elem? s.slots (s.start_stack_size - 1))

unfoldable pub rewind : (ℕ → ℕ) → StringStack → Option StringStack
rewind value_size s =
    rewind_from value_size (if s.type == type_string then some s else poke s.start 0 s)

unfoldable pub rewind_terminate : (ℕ → ℕ) → StringStack → Option StringStack
rewind_terminate value_size s = rewind_from value_size (poke s.start 0 s)

-- The frame that `pushFrame` opens behind the space for a return value.
unfoldable pub begin_frame : StringStack → StringStack
begin_frame s =
    let at = s.start + return_buffer_space in
    let u = validate_buffer_size (at + 1) (record (save_top s) {
      frame_offsets = set s.frame_offsets s.num_frames s.start_stack_size;
      num_frames = s.num_frames + 1;
    }) in
    record u { buffer = set u.buffer at 0; start = at; type = type_string; value = 0; len = 0 }

unfoldable pub push_frame : StringStack → Option StringStack
push_frame s =
    if ltb s.num_frames (max_frame_depth - 1) && ltb s.start_stack_size (max_stack_depth - 1)
    then some (begin_frame s)
    else none

abbrev pub pop_to : StringStack → ℕ → Option Slot → Option StringStack
pop_to s depth none = none
pop_to s depth (some x) = some (record s {
  num_frames = s.num_frames - 1;
  start_stack_size = depth;
  start = x.offset;
  len = x.size;
  type = x.type;
  value = x.value;
})

abbrev pub pop_at : StringStack → Option ℕ → Option StringStack
pop_at s none = none
pop_at s (some depth) = pop_to s depth (get_elem? s.slots depth)

unfoldable pub pop_frame : StringStack → Option StringStack
pop_frame s =
    if s.num_frames == 0 then none else pop_at s (get_elem? s.frame_offsets (s.num_frames - 1))
