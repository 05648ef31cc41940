-- ===== src/Execution/Negation.antt =====
-- engine/console/astNodes.cc: `IntUnaryExprNode`, where a `!` is taken of a float and something else
-- than an integer is asked for.
use korkscript.Prelude.{List, arith, false, refl, ℕ, ◌+◌, ◌∙◌, ◌≡◌, ◌≤◌}
use korkscript.Codegen.{
  Codegen, Compile, ExprNode, Numbers, conversion_op, get_preferred_type, int_unary, pchar_excl,
  req_float, req_uint,
}
use korkscript.Codegen.Nodes.{
  compile, emit_stack_conversion, int_unary_code, put, unary_integer, unary_operand,
}
use korkscript.Compiler.CodeStream.{emit, emit_words, tell}
use korkscript.Evaluator.{Machine, Runs, finished, run_opcode, step}
use korkscript.Execution.{IsNumeric, depth, eval, of_int, unary_result}
use korkscript.Execution.Code.{Agrees, Agrees-before, Agrees-put, Agrees-within}
use korkscript.Execution.Correct.{IsNumeric-untyped, compile-Computes, depth-positive}
use korkscript.Execution.Does.{Does-trans, Holds, Stacks, machine, put-Does, step_lem}
use korkscript.Execution.Growth.{Grows-le, Grows-put, IsReady}
use korkscript.Execution.Literal.{AreExact}
use korkscript.Execution.Opcode.{Room, push, unary_operand-Operates}
use korkscript.Execution.Straight.{Computes}
use korkscript.Opcodes.{op_invalid, op_notf}

module _ {F : Type 0} (num : Numbers F) (lit : F → Type 0) where
  -- The code runs into an opcode at which the evaluator leaves its loop.
  pub data Stops (code : List ℕ) (table : List F) (m : Machine F) : Type 0 where
    stops :
        {n : Machine F}
        → Runs num code table m n
        → step num code table n ≡ finished
        → Stops code table m

  invalid_lem :
      (code : List ℕ) (table : List F) (m : Machine F)
      → run_opcode num op_invalid code table m ≡ finished
  unfolding run_opcode
  invalid_lem code table m = refl

  not_code-Stops :
      (c : Compile F) (n : ℕ) (v : ℕ × F) (g : Codegen F) (ip : ℕ) (s : Stacks F)
      → 1 ≤ n
      → Computes num lit c n v req_float
      → IsReady lit g
      → Room n s
      → (code : List ℕ) (table : List F)
      → let u = (int_unary_code pchar_excl req_float false c g ip req_float).0 in
        Agrees code u.stream g.stream.code_pos u.stream.code_pos
        → Holds u table
        → Stops code table (machine g.stream.code_pos s)
  unfolding int_unary_code unary_integer emit_stack_conversion conversion_op tell unary_operand put
      emit emit_words
  not_code-Stops c n v g ip s enough inner r room code table agree holds =
      let w = (c g ip req_float).0 in
      let first = (inner g ip s r room).0 in
      let r1 = first.grows.ready r in
      let oper =
        put-Does num lit w op_notf (push req_float v s) _ r1
          (unary_operand-Operates num pchar_excl req_float v s (omega arith)) in
      let whole = Does-trans num lit r first oper in
      let u = put w op_notf in
      let p = g.stream.code_pos in
      let q = u.stream.code_pos in
      let r2 = whole.grows.ready r in
      let le = Grows-le lit whole.grows in
      let before = Agrees-before code p q r2 (Grows-put lit u op_invalid) (omega arith) (
        Agrees-within code (put u op_invalid).stream p (q + 1) p q (omega arith) (omega arith)
          agree) in
      let word = Agrees-put u code op_invalid p r2 le agree in
      let t = push req_uint (of_int num (unary_result num pchar_excl false v)) s in
      stops (whole.runs code table before holds)
        (step_lem num code table q op_invalid t word ∙ invalid_lem code table (machine (q + 1) t))

  -- `!e`, for an expression over numbers that prefers a float, compiled where a float is asked for:
  -- the conversion that ends the code is not an opcode, so that the evaluator stops there as if the
  -- function returned, wherever the code stands.
  pub not_float-Stops :
      (e : ExprNode F) (g : Codegen F) (ip : ℕ) (s : Stacks F)
      → AreExact num lit
      → IsNumeric num lit e req_float
      → get_preferred_type e ≡ req_float
      → IsReady lit g
      → Room (depth e) s
      → (code : List ℕ) (table : List F)
      → let u = (compile num (int_unary pchar_excl e) g ip req_float).0 in
        Agrees code u.stream g.stream.code_pos u.stream.code_pos
        → Holds u table
        → Stops code table (machine g.stream.code_pos s)
  unfolding compile
  not_float-Stops e g ip s exact h pref r room code table =
      rw (IsNumeric-untyped num lit e req_float h, pref)
        (not_code-Stops (compile num e) (depth e) (eval num e) g ip s (depth-positive num lit e)
          (compile-Computes num lit e req_float exact tt h) r room code table)
