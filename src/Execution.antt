-- ===== src/Execution.antt =====
-- engine/console/astNodes.cc and compiledEval.cc together: what an expression over numbers is worth,
-- and that the evaluator finds it when it runs the code of the expression.
use Prim.Native.Nat.{bit_and, bit_or, bit_xor}
pub mod Growth
pub mod Code
pub mod Does
pub mod Opcode
pub mod Straight
pub mod Literal
pub mod Jumps
pub mod Branch
pub mod Correct
pub mod Program
pub mod Overflow
pub mod Negation
mod Tests
use korkscript.Prelude.{
  Bool, false, if◌then◌else◌, max, not, true, ℕ, ◌+◌, ◌-◌, ◌==◌, ◌^◌, ◌||◌, ◌≡◌,
}
use korkscript.Codegen.{
  ExprNode, FloatOp, IntOp, Numbers, TypeReq, UnaryOp, conditional, float_binary, float_node,
  float_unary, get_preferred_type, int_binary, int_node, int_unary, is_uint, op_and_then, op_eq,
  op_ge, op_le, op_left, op_ne, op_or_else, op_right, pchar_ampersand, pchar_asterisk, pchar_caret,
  pchar_excl, pchar_greater, pchar_less, pchar_minus, pchar_percent, pchar_pipe, pchar_plus,
  pchar_slash, pchar_tilde, req_float, req_none, req_uint, sub_type,
}
use korkscript.Codegen.Nodes.{sign_extend, unary_integer}

module _ {F : Type 0} (num : Numbers F) where
  abbrev pub float_result : FloatOp → F → F → F
  float_result pchar_plus a b = num.add_float a b
  float_result pchar_minus a b = num.sub_float a b
  float_result pchar_slash a b = num.div_float a b
  float_result pchar_asterisk a b = num.mul_float a b
  float_result pchar_percent a b =
      if num.eq_float b num.zero_float then num.zero_float else num.fmod a b

  abbrev pub of_bool : Bool → ℕ
  of_bool b = if b then 1 else 0

  -- A value, as an integer and as a float.
  abbrev pub Value : Type 0
  Value = ℕ × F

  abbrev pub of_int : ℕ → ℕ × F
  of_int n = (n, num.from_int n)

  abbrev pub of_float : F → ℕ × F
  of_float x = (num.to_int x, x)

  abbrev pub int_result : IntOp → ℕ × F → ℕ × F → ℕ
  int_result pchar_caret a b = bit_xor a.0 b.0
  int_result pchar_ampersand a b = bit_and a.0 b.0
  int_result pchar_pipe a b = bit_or a.0 b.0
  int_result pchar_less a b = if num.lt_float a.1 b.1 then 1 else 0
  int_result pchar_greater a b = if num.lt_float b.1 a.1 then 1 else 0
  int_result op_ge a b = if num.le_float b.1 a.1 then 1 else 0
  int_result op_le a b = if num.le_float a.1 b.1 then 1 else 0
  int_result op_eq a b = if num.eq_float a.1 b.1 then 1 else 0
  int_result op_ne a b = if num.eq_float a.1 b.1 then 0 else 1
  int_result op_or_else a b = if a.0 == 0 then b.0 else a.0
  int_result op_and_then a b = if a.0 == 0 then 0 else b.0
  int_result op_right a b = num.shift_right a.0 b.0
  int_result op_left a b = num.shift_left a.0 b.0

  -- Whether a value of a node counts as true.
  abbrev pub is_true : Bool → ℕ × F → Bool
  is_true true v = not (v.0 == 0)
  is_true false v = not (num.eq_float v.1 num.zero_float)

  abbrev pub unary_result : UnaryOp → Bool → ℕ × F → ℕ
  unary_result pchar_excl integer v = if is_true integer v then 0 else 1
  unary_result pchar_tilde integer v = 2 ^ 64 - 1 - v.0

  -- The worth of an expression over numbers.
  unfoldable pub eval : ExprNode F → ℕ × F
  eval (int_node n) = (n, num.from_int (sign_extend n))
  eval (float_node x) = (num.to_unsigned x, x)
  eval (conditional test a b) =
      if is_true (is_uint (get_preferred_type test)) (eval test) then eval a else eval b
  eval (float_binary op l r) = of_float (float_result op (eval l).1 (eval r).1)
  eval (int_binary op l r) = of_int (int_result op (eval l) (eval r))
  eval (int_unary op e) =
      of_int (unary_result op (unary_integer op (get_preferred_type e)) (eval e))
  eval (float_unary e) = of_float (num.neg_float (eval e).1)
  eval _ = (0, num.zero_float)

-- The type of a stack of numbers.
abbrev pub operand_type : Bool → TypeReq
operand_type true = req_uint
operand_type false = req_float

-- What an expression over numbers is asked for.
abbrev pub IsPlain : TypeReq → Type 0
IsPlain req_none = Unit
IsPlain req_uint = Unit
IsPlain req_float = Unit
IsPlain _ = ⊥

module _ {F : Type 0} where
  -- The cells of a stack that an expression takes.
  unfoldable pub depth : ExprNode F → ℕ
  depth (conditional test a b) = max (depth test) (max (depth a) (depth b))
  depth (float_binary op l r) = max (depth r) (depth l + 1)
  depth (int_binary op l r) = max (depth r) (depth l + 1)
  depth (int_unary op e) = depth e
  depth (float_unary e) = depth e
  depth _ = 1

  -- A test is compiled as an integer if it prefers that.
  abbrev pub test_type : ExprNode F → TypeReq
  test_type e = operand_type (is_uint (get_preferred_type e))

  -- An expression over numbers, with literals that pass; a `!` that is taken of a float stands
  -- only where an integer is asked for.
  abbrev pub IsNumeric : Numbers F → (F → Type 0) → ExprNode F → TypeReq → Type 0
  IsNumeric num lit (int_node n) type = lit (num.from_int (sign_extend n))
  IsNumeric num lit (float_node x) type = lit x
  IsNumeric num lit (conditional test a b) type =
      IsNumeric num lit test (test_type test) × IsNumeric num lit a type × IsNumeric num lit b type
  IsNumeric num lit (float_binary op l r) type =
      IsNumeric num lit l req_float × IsNumeric num lit r req_float
  IsNumeric num lit (int_binary op l r) type =
      IsNumeric num lit l (sub_type op) × IsNumeric num lit r (sub_type op)
  IsNumeric num lit (int_unary op e) type =
      ((unary_integer op (get_preferred_type e) || is_uint type) ≡ true)
      × IsNumeric num lit e (operand_type (unary_integer op (get_preferred_type e)))
  IsNumeric num lit (float_unary e) type = IsNumeric num lit e req_float
  IsNumeric num lit _ type = ⊥
