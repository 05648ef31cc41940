-- ===== src/StringStack/Within.antt =====
-- engine/console/stringStack.h and stringStack.cc: what lies below a frame, for the comparison, the
-- terminating rewind and the setters of values.
use korkscript.Prelude.{
  Bool, Option, ap, arith, drop, equal_fold, false, get_elem?, none, refl, some, some-injective,
  subst, sym, ℕ, ◌%◌, ◌&&◌, ◌+◌, ◌-◌, ◌<◌, ◌==◌, ◌≡◌, ◌≤◌,
}
use korkscript.Compiler.StringTable.{c_text}
use korkscript.StringStack.Args.{compare, compare_to, compared}
use korkscript.StringStack.Frames.{
  Kept, Kept-top, SameBelow-validate_buffer_size, length-validate_buffer_size,
}
use korkscript.StringStack.Keeps.{poke-Kept, poked_rewind-Kept, validate_buffer_size-record}
use korkscript.StringStack.Moves.{rewind_terminate}
use korkscript.StringStack.State.{
  Slot, StringStack, clear_function_offset, get_frame_buffer, get_func_buffer, poke,
  set_console_value_size, set_console_value_value, set_typed_len, validate_buffer_size,
}

pub set_console_value_size-Kept :
    (p u : StringStack) (type n : ℕ) → Kept p u → Kept p (set_console_value_size type n u)
unfolding set_console_value_size
set_console_value_size-Kept p u type n k =
    Kept-top _ k refl refl refl refl k.start (λ i h. refl) (omega arith)

pub set_console_value_value-Kept :
    (p u : StringStack) (type v : ℕ) → Kept p u → Kept p (set_console_value_value type v u)
unfolding set_console_value_value
set_console_value_value-Kept p u type v k =
    Kept-top _ k refl refl refl refl k.start (λ i h. refl) (omega arith)

pub set_typed_len-Kept :
    (p u : StringStack) (type n : ℕ) → Kept p u → Kept p (set_typed_len type n u)
unfolding set_typed_len
set_typed_len-Kept p u type n k =
    Kept-top _ k refl refl refl refl k.start (λ i h. refl) (omega arith)

pub clear_function_offset-Kept : (p u : StringStack) → Kept p u → Kept p (clear_function_offset u)
unfolding clear_function_offset
clear_function_offset-Kept p u k =
    Kept-top _ k refl refl refl refl k.start (λ i h. refl) (omega arith)

-- The buffer made larger, with other members that are not looked at here.
validate-Kept : (p u : StringStack) (size : ℕ) → Kept p u → Kept p (validate_buffer_size size u)
validate-Kept p u size k = subst (Kept p) (sym (validate_buffer_size-record size u)) (
    Kept-top _ k refl refl refl refl k.start
      (SameBelow-validate_buffer_size p.start size u (omega (arith, k.room)))
      (length-validate_buffer_size size u).0)

pub get_frame_buffer-Kept :
    (p u : StringStack) (type size : ℕ) → Kept p u → Kept p (get_frame_buffer type size u).0
unfolding get_frame_buffer
get_frame_buffer-Kept p u type size k = validate-Kept p u (u.start + size) k

pub get_func_buffer-Kept :
    (p u : StringStack) (type size : ℕ) → Kept p u → Kept p (get_func_buffer type size u).0
unfolding get_func_buffer
get_func_buffer-Kept p u type size k =
    let v = validate-Kept p u (u.start + u.function_offset + size) k in
    Kept-top _ v refl refl refl refl v.start (λ i h. refl) (omega arith)

pub rewind_terminate-Kept :
    (p u w : StringStack) (value_size : ℕ → ℕ)
    → Kept p u
    → p.start_stack_size < u.start_stack_size
    → rewind_terminate value_size u ≡ some w
    → Kept p w
unfolding rewind_terminate
rewind_terminate-Kept p u w value_size k h e =
    poked_rewind-Kept p u w value_size (poke u.start 0 u) k h refl e

-- The slot below becomes the top, and its text is emptied.
lowered : StringStack → Slot → StringStack
lowered u x = record u {
  start_stack_size = u.start_stack_size - 1;
  start = x.offset;
  type = x.type;
  value = x.value;
  len = 0;
}

lowered-Kept :
    (p u : StringStack) (x : Slot)
    → Kept p u
    → p.start_stack_size < u.start_stack_size
    → p.start ≤ x.offset
    → Kept p (lowered u x)
unfolding lowered
lowered-Kept p u x k h below = record {
  depth = omega arith;
  frames = k.frames;
  slots = k.slots;
  offsets = k.offsets;
  start = below;
  bytes = k.bytes;
  room = k.room;
  grown = k.grown;
  above = λ i y a b. k.above i y a (omega arith);
}

compare_to-Kept :
    (p u w : StringStack) (same : Bool) (o : Option Slot)
    → Kept p u
    → p.start_stack_size < u.start_stack_size
    → get_elem? u.slots (u.start_stack_size - 1) ≡ o
    → compare_to u o ≡ some (w, same)
    → Kept p w
compare_to-Kept p u w same none k h e q = absurd (ground arith)
compare_to-Kept p u w same (some x) k h e q =
    poked (poke x.offset 0 (lowered u x)) refl (unfold lowered in q)
  where
    flag : Bool
    flag =
        x.type == u.type % 256
        && equal_fold (c_text (drop x.offset u.buffer)) (c_text (drop u.start u.buffer))

    below : p.start ≤ x.offset
    below = k.above (u.start_stack_size - 1) x (omega arith) (omega arith) e

    poked :
        (r : Option StringStack)
        → poke x.offset 0 (lowered u x) ≡ r
        → compared flag r ≡ some (w, same)
        → Kept p w
    poked none a b = absurd (ground arith)
    poked (some v) a b =
        subst (Kept p) (ap (λ z. z.0) (some-injective _ _ b))
          (poke-Kept p (lowered u x) v x.offset 0 below (lowered-Kept p u x k h below) a)

pub compare-Kept :
    (p u w : StringStack) (same : Bool)
    → Kept p u
    → p.start_stack_size < u.start_stack_size
    → compare u ≡ some (w, same)
    → Kept p w
unfolding compare
compare-Kept p u w same k h e =
    let deep : (u.start_stack_size == 0) ≡ false = ground arith in
    compare_to-Kept p u w same (get_elem? u.slots (u.start_stack_size - 1)) k h refl (rw deep at e)
