-- ===== src/Execution/Correct.antt =====
-- engine/console/astNodes.cc and compiledEval.cc: the code of a whole expression over numbers.
use korkscript.Prelude.{Bool, arith, false, max, refl, true, ℕ, ◌+◌, ◌≡◌, ◌≤◌}
use korkscript.Codegen.{
  Compile, ExprNode, IntOp, Numbers, TypeReq, can_be_typed, conditional, float_binary, float_node,
  float_unary, get_preferred_type, int_binary, int_node, int_unary, is_typed, op_and_then,
  op_or_else, pchar_less, req_float, sub_type,
}
use korkscript.Codegen.Nodes.{compile, float_code, int_binary_code, int_code, unary_integer}
use korkscript.Execution.{
  IsNumeric, IsPlain, depth, eval, int_result, of_int, operand_type, test_type,
}
use korkscript.Execution.Branch.{conditional-Computes}
use korkscript.Execution.Jumps.{and-Computes, or-Computes}
use korkscript.Execution.Literal.{AreExact, number-Computes}
use korkscript.Execution.Straight.{
  Computes, arith-Computes, float_binary-Computes, float_unary-Computes, int_unary-Computes,
}

operand_type-IsPlain : (b : Bool) → IsPlain (operand_type b)
operand_type-IsPlain true = tt
operand_type-IsPlain false = tt

sub_type-IsPlain : (op : IntOp) → IsPlain (sub_type op)
unfolding sub_type
sub_type-IsPlain pchar_less = tt
sub_type-IsPlain _ = tt

module _ {F : Type 0} (num : Numbers F) (lit : F → Type 0) where
  IsNumeric-preferred :
      (e : ExprNode F) (type : TypeReq)
      → IsNumeric num lit e type
      → is_typed (get_preferred_type e) ≡ false
  unfolding get_preferred_type
  IsNumeric-preferred (int_node n) type h = refl
  IsNumeric-preferred (float_node x) type h = refl
  IsNumeric-preferred (conditional t a b) type h = IsNumeric-preferred a type h.1
  IsNumeric-preferred (float_binary op l r) type h = refl
  IsNumeric-preferred (int_binary op l r) type h = refl
  IsNumeric-preferred (int_unary op e) type h = refl
  IsNumeric-preferred (float_unary e) type h = refl
  IsNumeric-preferred _ type h = elim h [ ]

  -- No node of such an expression may be typed.
  pub IsNumeric-untyped :
      (e : ExprNode F) (type : TypeReq) → IsNumeric num lit e type → can_be_typed e ≡ false
  unfolding can_be_typed get_preferred_type
  IsNumeric-untyped (int_node n) type h = refl
  IsNumeric-untyped (float_node x) type h = refl
  IsNumeric-untyped (conditional t a b) type h = IsNumeric-preferred a type h.1
  IsNumeric-untyped (float_binary op l r) type h =
      rw (IsNumeric-untyped l req_float h.0) (IsNumeric-untyped r req_float h.1)
  IsNumeric-untyped (int_binary op l r) type h =
      rw (IsNumeric-untyped l (sub_type op) h.0) (IsNumeric-untyped r (sub_type op) h.1)
  IsNumeric-untyped (int_unary op e) type h = refl
  IsNumeric-untyped (float_unary e) type h = refl
  IsNumeric-untyped _ type h = elim h [ ]

  pub depth-positive : (e : ExprNode F) → 1 ≤ depth e
  unfolding depth
  depth-positive (conditional t a b) = omega (arith, depth-positive t)
  depth-positive (float_binary op l r) = omega (arith, depth-positive r)
  depth-positive (int_binary op l r) = omega (arith, depth-positive r)
  depth-positive (int_unary op e) = depth-positive e
  depth-positive (float_unary e) = depth-positive e
  depth-positive _ = omega arith

  Computes-more :
      (c : Compile F) (n m : ℕ) (v : ℕ × F) (type : TypeReq)
      → n ≤ m
      → Computes num lit c n v type
      → Computes num lit c m v type
  Computes-more c n m v type le h g ip s rdy room = h g ip s rdy (omega arith)

  int_binary-Computes :
      (op : IntOp) (l r : Compile F) (n m : ℕ) (a b : ℕ × F) (type : TypeReq)
      → IsPlain type
      → 1 ≤ n
      → Computes num lit l n a (sub_type op)
      → Computes num lit r m b (sub_type op)
      → Computes num lit
          (int_binary_code op false false l r)
          (max m (n + 1))
          (of_int num (int_result num op a b))
          type
  unfolding sub_type
  int_binary-Computes op_or_else l r n m a b type p enough cl cr =
      or-Computes num lit l r n m a b type p enough cl cr
  int_binary-Computes op_and_then l r n m a b type p enough cl cr =
      and-Computes num lit l r n m a b type p enough cl cr
  int_binary-Computes op l r n m a b type p enough cl cr =
      arith-Computes num lit op l r n m a b type p refl enough cl cr

  -- For every expression over numbers, compiled where nothing, an integer or a float is asked for:
  -- the code that `compile` adds to any stream takes the evaluator, wherever the code stands in a
  -- program that keeps its words and its numbers, from its first word to behind its last one, with
  -- the value of the expression on the stack that was asked for and all else on the stacks as it
  -- was, if the stacks have as many cells free as the expression is deep.
  pub compile-Computes :
      (e : ExprNode F) (type : TypeReq)
      → AreExact num lit
      → IsPlain type
      → IsNumeric num lit e type
      → Computes num lit (compile num e) (depth e) (eval num e) type
  unfolding compile depth eval int_code float_code
  compile-Computes (int_node n) type exact p h = number-Computes num lit n _ _ type p exact h
  compile-Computes (float_node x) type exact p h =
      number-Computes num lit (num.to_unsigned x) x _ type p exact h
  compile-Computes (conditional t a b) type exact p h =
      let test = compile-Computes t (test_type t) exact (operand_type-IsPlain _) h.0 in
      let n = max (depth t) (max (depth a) (depth b)) in
      conditional-Computes num lit (get_preferred_type t) (compile num t) (compile num a)
        (compile num b) n (eval num t) (eval num a) (eval num b) type
        (Computes-more (compile num t) (depth t) n (eval num t) (test_type t) (omega arith) test)
        (Computes-more (compile num a) (depth a) n (eval num a) type (omega arith)
          (compile-Computes a type exact p h.1))
        (Computes-more (compile num b) (depth b) n (eval num b) type (omega arith)
          (compile-Computes b type exact p h.2))
  compile-Computes (float_binary op l r) type exact p h =
      rw (IsNumeric-untyped l req_float h.0, IsNumeric-untyped r req_float h.1)
        (float_binary-Computes num lit op (compile num l) (compile num r) (depth l) (depth r)
          (eval num l) (eval num r) type p (depth-positive l)
          (compile-Computes l req_float exact tt h.0) (compile-Computes r req_float exact tt h.1))
  compile-Computes (int_binary op l r) type exact p h =
      rw (IsNumeric-untyped l (sub_type op) h.0, IsNumeric-untyped r (sub_type op) h.1)
        (int_binary-Computes op (compile num l) (compile num r) (depth l) (depth r) (eval num l)
          (eval num r) type p (depth-positive l)
          (compile-Computes l (sub_type op) exact (sub_type-IsPlain op) h.0)
          (compile-Computes r (sub_type op) exact (sub_type-IsPlain op) h.1))
  compile-Computes (int_unary op e) type exact p h =
      let integer = unary_integer op (get_preferred_type e) in
      rw (IsNumeric-untyped e (operand_type integer) h.1) (
        int_unary-Computes num lit op (get_preferred_type e) (compile num e) (depth e) (eval num e)
          type p (depth-positive e) h.0
          (compile-Computes e (operand_type integer) exact (operand_type-IsPlain integer) h.1))
  compile-Computes (float_unary e) type exact p h = rw (IsNumeric-untyped e req_float h) (
      float_unary-Computes num lit (compile num e) (depth e) (eval num e) type p (depth-positive e)
        (compile-Computes e req_float exact tt h))
  compile-Computes _ type exact p h = elim h [ ]
