-- ===== src/Evaluator.antt =====
-- engine/console/compiledEval.cc: `runVM`, the opcodes that work on the stacks of numbers, and the
-- jumps.
use Prim.Native.Nat.{bit_and, bit_or, bit_xor}
use korkscript.Prelude.{
  Bool, List, Option, [], false, get_elem?, if◌then◌else◌, leb, length, ltb, none, not, some, true,
  ℕ, ◌&&◌, ◌+◌, ◌-◌, ◌==◌, ◌^◌, ◌||◌, ◌∷◌, ◌≡◌,
}
use korkscript.Codegen.{Numbers}
use korkscript.Opcodes.{
  op_add, op_and, op_bitand, op_bitor, op_cmpeq, op_cmpge, op_cmpgr, op_cmple, op_cmplt, op_cmpne,
  op_div, op_flt_to_none, op_flt_to_uint, op_invalid, op_jmp, op_jmpif, op_jmpif_np, op_jmpiff,
  op_jmpiffnot, op_jmpifnot, op_jmpifnot_np, op_loadimmed_flt, op_loadimmed_uint, op_mod, op_mul,
  op_neg, op_not, op_notf, op_onescomplement, op_or, op_shl, op_shr, op_str_to_none, op_sub,
  op_uint_to_flt, op_uint_to_none, op_xor,
}

-- `ip`, and the cells of `intStack` from 1 to `_UINT` and of `floatStack` from 1 to `_FLT`, the top
-- first. The opcodes below read no cell above the top.
pub record Machine (F : Type 0) : Type 0 where
  pub ip : ℕ
  pub ints : List ℕ
  pub floats : List F

-- `MaxStackSize`
abbrev pub max_stack_size : ℕ
max_stack_size = 12

-- How a round ends: with the next state, at an opcode that leaves the loop, with a write beyond the
-- last cell of `intStack` or of `floatStack`, or at a cell, word or number that is not there or an
-- opcode that is not modelled.
pub data Outcome (F : Type 0) : Type 0 where
  goes_on : Machine F → Outcome F
  finished : Outcome F
  int_overflowed : Outcome F
  float_overflowed : Outcome F
  faulted : Outcome F

module _ {F : Type 0} where
  abbrev pub push_int : ℕ → Machine F → Outcome F
  push_int v m =
      if ltb (length m.ints + 1) max_stack_size
      then goes_on (record m { ints = v ∷ m.ints })
      else int_overflowed

  abbrev pub push_float : F → Machine F → Outcome F
  push_float x m =
      if ltb (length m.floats + 1) max_stack_size
      then goes_on (record m { floats = x ∷ m.floats })
      else float_overflowed

  -- The top of a stack, taken off.
  abbrev pub with_int : List ℕ → Machine F → (ℕ → Machine F → Outcome F) → Outcome F
  with_int [] m f = faulted
  with_int (v ∷ vs) m f = f v (record m { ints = vs })

  abbrev pub with_float : List F → Machine F → (F → Machine F → Outcome F) → Outcome F
  with_float [] m f = faulted
  with_float (x ∷ xs) m f = f x (record m { floats = xs })

  -- `intStack[_UINT-1] = intStack[_UINT] op intStack[_UINT-1]`, and `_UINT` goes down.
  unfoldable pub int_operation : (ℕ → ℕ → ℕ) → Machine F → Outcome F
  int_operation f m =
      with_int m.ints m
        (λ a n. with_int n.ints n (λ b o. goes_on (record o { ints = f a b ∷ o.ints })))

  unfoldable pub float_operation : (F → F → F) → Machine F → Outcome F
  float_operation f m =
      with_float m.floats m
        (λ a n. with_float n.floats n (λ b o. goes_on (record o { floats = f a b ∷ o.floats })))

  -- A comparison of the two floats on top, as an integer.
  unfoldable pub comparison : (F → F → Bool) → Machine F → Outcome F
  comparison f m =
      with_float m.floats m
        (λ a n. with_float n.floats n (λ b o. push_int (if f a b then 1 else 0) o))

  -- `ip = code[ip]`
  abbrev pub jump_to : Option ℕ → Machine F → Outcome F
  jump_to none m = faulted
  jump_to (some target) m = goes_on (record m { ip = target })

  unfoldable pub jump : List ℕ → Machine F → Outcome F
  jump code m = jump_to (get_elem? code m.ip) m

  -- Past the operand, or to its target.
  abbrev pub branch : Bool → List ℕ → Machine F → Outcome F
  branch true code m = jump code m
  branch false code m = goes_on (record m { ip = m.ip + 1 })

  -- The test stays on the stack where the jump is taken.
  abbrev pub branch_keeping : Bool → List ℕ → Machine F → Machine F → Outcome F
  branch_keeping true code m popped = jump code m
  branch_keeping false code m popped = goes_on (record popped { ip = m.ip + 1 })

  abbrev pub immediate : (ℕ → Machine F → Outcome F) → Option ℕ → Machine F → Outcome F
  immediate f none m = faulted
  immediate f (some w) m = f w (record m { ip = m.ip + 1 })

  abbrev pub push_found : Option F → Machine F → Outcome F
  push_found none m = faulted
  push_found (some x) m = push_float x m

abbrev pub is_zero : ℕ → Bool
is_zero v = v == 0

module _ {F : Type 0} (num : Numbers F) where
  abbrev pub is_zero_float : F → Bool
  is_zero_float x = num.eq_float x num.zero_float

  -- `OP_MOD`
  unfoldable pub modulo : F → F → F
  modulo a b = if is_zero_float b then num.zero_float else num.fmod a b

  unfoldable pub run_jump : ℕ → List ℕ → Machine F → Outcome F → Outcome F
  run_jump op code m other =
      if op == op_jmpiffnot
      then with_float m.floats m (λ x n. branch (is_zero_float x) code n)
      else if op == op_jmpifnot
      then with_int m.ints m (λ v n. branch (is_zero v) code n)
      else if op == op_jmpiff
      then with_float m.floats m (λ x n. branch (not (is_zero_float x)) code n)
      else if op == op_jmpif
      then with_int m.ints m (λ v n. branch (not (is_zero v)) code n)
      else if op == op_jmpifnot_np
      then with_int m.ints m (λ v n. branch_keeping (is_zero v) code m n)
      else if op == op_jmpif_np
      then with_int m.ints m (λ v n. branch_keeping (not (is_zero v)) code m n)
      else if op == op_jmp
      then jump code m
      else other

  unfoldable pub run_comparison : ℕ → Machine F → Outcome F → Outcome F
  run_comparison op m other =
      if op == op_cmpeq
      then comparison (λ a b. num.eq_float a b) m
      else if op == op_cmpgr
      then comparison (λ a b. num.lt_float b a) m
      else if op == op_cmpge
      then comparison (λ a b. num.le_float b a) m
      else if op == op_cmplt
      then comparison (λ a b. num.lt_float a b) m
      else if op == op_cmple
      then comparison (λ a b. num.le_float a b) m
      else if op == op_cmpne
      then comparison (λ a b. not (num.eq_float a b)) m
      else other

  unfoldable pub run_integers : ℕ → Machine F → Outcome F → Outcome F
  run_integers op m other =
      if op == op_xor
      then int_operation (λ a b. bit_xor a b) m
      else if op == op_bitand
      then int_operation (λ a b. bit_and a b) m
      else if op == op_bitor
      then int_operation (λ a b. bit_or a b) m
      else if op == op_not
      then with_int m.ints m
          (λ v n. goes_on (record n { ints = (if is_zero v then 1 else 0) ∷ n.ints }))
      else if op == op_notf
      then with_float m.floats m (λ x n. push_int (if is_zero_float x then 1 else 0) n)
      else if op == op_onescomplement
      then with_int m.ints m (λ v n. goes_on (record n { ints = (2 ^ 64 - 1 - v) ∷ n.ints }))
      else if op == op_shr
      then int_operation (λ a b. num.shift_right a b) m
      else if op == op_shl
      then int_operation (λ a b. num.shift_left a b) m
      else if op == op_and
      then int_operation (λ a b. if is_zero a || is_zero b then 0 else 1) m
      else if op == op_or
      then int_operation (λ a b. if is_zero a && is_zero b then 0 else 1) m
      else other

  unfoldable pub run_floats : ℕ → Machine F → Outcome F → Outcome F
  run_floats op m other =
      if op == op_mod
      then float_operation modulo m
      else if op == op_add
      then float_operation (λ a b. num.add_float a b) m
      else if op == op_sub
      then float_operation (λ a b. num.sub_float a b) m
      else if op == op_mul
      then float_operation (λ a b. num.mul_float a b) m
      else if op == op_div
      then float_operation (λ a b. num.div_float a b) m
      else if op == op_neg
      then with_float m.floats m (λ x n. goes_on (record n { floats = num.neg_float x ∷ n.floats }))
      else other

  unfoldable pub run_conversion : ℕ → List ℕ → List F → Machine F → Outcome F → Outcome F
  run_conversion op code table m other =
      if op == op_flt_to_uint
      then with_float m.floats m (λ x n. push_int (num.to_int x) n)
      else if op == op_flt_to_none
      then with_float m.floats m (λ x n. goes_on n)
      else if op == op_uint_to_flt
      then with_int m.ints m (λ v n. push_float (num.from_int v) n)
      else if op == op_uint_to_none
      then with_int m.ints m (λ v n. goes_on n)
      else if op == op_str_to_none
      then goes_on m
      else if op == op_loadimmed_uint
      then immediate push_int (get_elem? code m.ip) m
      else if op == op_loadimmed_flt
      then immediate (λ k n. push_found (get_elem? table k) n) (get_elem? code m.ip) m
      else other

  -- One round, of an opcode that was read. An unknown opcode ends the loop.
  unfoldable pub run_opcode : ℕ → List ℕ → List F → Machine F → Outcome F
  unfolding run_jump run_comparison run_integers run_floats run_conversion int_operation
      float_operation comparison modulo jump
  run_opcode op code table m = run_jump op code m (
      run_comparison op m (
        run_integers op m (
          run_floats op m
            (run_conversion op code table m (if leb op_invalid op then finished else faulted)))))

  abbrev pub run_read : Option ℕ → List ℕ → List F → Machine F → Outcome F
  run_read none code table m = faulted
  run_read (some op) code table m = run_opcode op code table (record m { ip = m.ip + 1 })

  unfoldable pub step : List ℕ → List F → Machine F → Outcome F
  step code table m = run_read (get_elem? code m.ip) code table m

  -- The loop goes on from one state to another.
  pub data Runs (code : List ℕ) (table : List F) (m : Machine F) : Machine F → Type 0 where
    here : Runs code table m m
    next :
        {n o : Machine F}
        → Runs code table m n
        → step code table n ≡ goes_on o
        → Runs code table m o
