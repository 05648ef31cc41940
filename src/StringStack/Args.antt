-- ===== src/StringStack/Args.antt =====
-- engine/console/stringStack.h and stringStack.cc: the comparison of the two upper operands, and the
-- arguments of a call.
use korkscript.Prelude.{
  Bool, List, Option, [], drop, equal_fold, get_elem?, if◌then◌else◌, min, none, some, suc, u32,
  zero, ℕ, ◌%◌, ◌&&◌, ◌+◌, ◌-◌, ◌==◌, ◌^◌, ◌∷◌,
}
use korkscript.Compiler.StringTable.{c_text}
use korkscript.StringStack.State.{
  ConsoleValue, Slot, StringStack, get_stack_console_value, max_args, poke,
}

-- The state with the result beside it.
abbrev pub compared : Bool → Option StringStack → Option (StringStack × Bool)
compared same none = none
compared same (some s) = some (s, same)

-- The comparison of the top with the slot below it, whose text is emptied. The type of the top is
-- kept in a `U8`.
abbrev pub compare_to : StringStack → Option Slot → Option (StringStack × Bool)
compare_to s none = none
compare_to s (some x) =
    let same =
      x.type == s.type % 256
      && equal_fold (c_text (drop x.offset s.buffer)) (c_text (drop s.start s.buffer)) in
    compared same (
      poke x.offset 0 (record s {
        start_stack_size = s.start_stack_size - 1;
        start = x.offset;
        type = x.type;
        value = x.value;
        len = 0;
      }))

unfoldable pub compare : StringStack → Option (StringStack × Bool)
compare s =
    if s.start_stack_size == 0
    then none
    else compare_to s (get_elem? s.slots (s.start_stack_size - 1))

-- The values of `n` slots from `i` on.
unfoldable pub arg_values : ℕ → ℕ → StringStack → Option (List ConsoleValue)
arg_values zero i s = some []
arg_values (suc n) i s =
    let rest = arg_values n (i + 1) s in
    elim (get_stack_console_value i s) [
      | none ↦ none
      | some v ↦ elim rest [ none ↦ none | some vs ↦ some (v ∷ vs) ]
    ]

-- `getArgcArgv` without the function's name, which is the first argument. The number of slots is
-- a `U32`, and the code's assertion refuses 19 arguments and more.
unfoldable pub get_args : StringStack → Option (List ConsoleValue)
get_args s =
    if s.num_frames == 0 then none else elim (get_elem? s.frame_offsets (s.num_frames - 1)) [
      | none ↦ none
      | some base ↦
          let n = min (u32 (s.start_stack_size + 2 ^ 32 - (base + 1))) (max_args - 1) in
          if n == max_args - 1 then none else arg_values n (base + 1) s
    ]
