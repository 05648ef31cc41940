-- ===== src/StringStack/Tests.antt =====
-- engine/console/stringStack.h: a call and a concatenation on a small stack.
use korkscript.Prelude.{
  Option, arith, codes, length, none, put_bytes, refl, replicate, some, ℕ, ◌++◌, ◌<◌, ◌≡◌,
}
use korkscript.Compiler.StringTable.{c_text}
use korkscript.Compiler.StringTable.Layout.{IsText}
use korkscript.StringStack.Calls.{Restores, opened, pop_frame-push_frame, sets}
use korkscript.StringStack.Concat.{rewind-advance}
use korkscript.StringStack.Moves.{advance, begin_frame, pop_frame, push_frame, rewind, save_top}
use korkscript.StringStack.State.{
  Slot, StringStack, get_string_value, max_frame_depth, max_stack_depth, set_string_value,
  type_string, validate_buffer_size,
}

abbrev no_slot : Slot
no_slot = record { offset = 0; size = 0; type = 0; value = 0 }

abbrev caller : StringStack
caller = record {
  buffer = codes "left" ++ replicate 4 0;
  frame_offsets = replicate max_frame_depth 0;
  slots = replicate max_stack_depth no_slot;
  value = 0;
  type = type_string;
  func_id = 0;
  num_frames = 0;
  start = 0;
  len = 4;
  start_stack_size = 0;
  function_offset = 0;
}

abbrev the : Option StringStack → StringStack
the none = caller
the (some s) = s

abbrev callee : StringStack
callee = begin_frame caller

abbrev returning : StringStack
returning = the (set_string_value (some (codes "hi")) callee)

abbrev back : StringStack
back = the (pop_frame returning)

push_frame-caller : push_frame caller ≡ some callee
unfolding push_frame
push_frame-caller = refl

set_string_value-callee : set_string_value (some (codes "hi")) callee ≡ some returning
unfolding set_string_value
set_string_value-callee = refl

pop_frame-returning : pop_frame returning ≡ some back
unfolding pop_frame set_string_value begin_frame validate_buffer_size save_top
pop_frame-returning = refl

pop_frame-push_frame_example : Restores caller back
pop_frame-push_frame_example =
    pop_frame-push_frame caller callee returning back push_frame-caller
      (sets (some (codes "hi")) (opened callee) set_string_value-callee) pop_frame-returning

text_back : get_string_value back ≡ codes "left"
unfolding get_string_value c_text pop_frame set_string_value begin_frame validate_buffer_size
    save_top put_bytes
text_back = refl

-- "left" in the caller, then "hi" behind it.
abbrev no_sizes : ℕ → ℕ
no_sizes type = 0

abbrev first_set : StringStack
first_set = the (set_string_value (some (codes "left")) caller)

abbrev moved_on : StringStack
moved_on = the (advance first_set)

abbrev second_set : StringStack
second_set = the (set_string_value (some (codes "hi")) moved_on)

abbrev joined_up : StringStack
joined_up = the (rewind no_sizes second_set)

set_string_value-caller : set_string_value (some (codes "left")) caller ≡ some first_set
unfolding set_string_value
set_string_value-caller = refl

advance-first_set : advance first_set ≡ some moved_on
unfolding advance set_string_value validate_buffer_size
advance-first_set = refl

set_string_value-moved_on : set_string_value (some (codes "hi")) moved_on ≡ some second_set
unfolding set_string_value
set_string_value-moved_on = refl

rewind-second_set : rewind no_sizes second_set ≡ some joined_up
unfolding rewind advance save_top set_string_value validate_buffer_size put_bytes
rewind-second_set = refl

left-IsText : IsText (codes "left")
left-IsText = omega arith

hi-IsText : IsText (codes "hi")
hi-IsText = omega arith

caller_slots : caller.start_stack_size < length caller.slots
caller_slots = omega arith

rewind-advance_example :
    (get_string_value joined_up ≡ codes "left" ++ codes "hi")
    × (joined_up.len ≡ length (codes "left" ++ codes "hi"))
    × (joined_up.start ≡ caller.start)
    × (joined_up.start_stack_size ≡ caller.start_stack_size)
rewind-advance_example =
    rewind-advance no_sizes caller first_set moved_on second_set joined_up (codes "left")
      (codes "hi") left-IsText hi-IsText caller_slots set_string_value-caller advance-first_set
      set_string_value-moved_on rewind-second_set
