-- ===== src/Execution/Program.antt =====
-- engine/console/astNodes.cc, compiler.cc and compiledEval.cc: an expression compiled, handed out by
-- `emitCodeStream` and `build`, and run.
use korkscript.Prelude.{[], arith, ℕ, ◌<◌}
use korkscript.Codegen.{Codegen, ExprNode, Numbers, TypeReq}
use korkscript.Codegen.Nodes.{compile}
use korkscript.Compiler.CodeStream.{CodeStream, emit_code_stream}
use korkscript.Compiler.CodeStream.Patches.{emit_code_stream-patched}
use korkscript.Compiler.CodeStream.Reach.{Reach}
use korkscript.Compiler.FloatTable.{build}
use korkscript.Evaluator.{Runs, max_stack_size}
use korkscript.Execution.{IsNumeric, IsPlain, depth, eval}
use korkscript.Execution.Code.{Agrees}
use korkscript.Execution.Correct.{compile-Computes}
use korkscript.Execution.Does.{machine}
use korkscript.Execution.Growth.{IsReady}
use korkscript.Execution.Literal.{AreExact}
use korkscript.Execution.Opcode.{push}

-- The stream that is handed out agrees with the code, as long as the patches are applied.
pub emitted-Agrees :
    (s : CodeStream) (a : ℕ)
    → Reach s
    → s.num_func_calls < 1000
    → Agrees (emit_code_stream s).1.stream s a s.code_pos
emitted-Agrees s a r few i h k = let out = emit_code_stream-patched s i r few k in out.2

module _ {F : Type 0} (num : Numbers F) (lit : F → Type 0) where
  -- With the empty stacks on which a frame starts: `emitCodeStream` and `build` after `compile` give
  -- code and a table of numbers with which the evaluator gets from where the expression begins to
  -- where it ends, with the value of the expression alone on the stack that was asked for, if the
  -- expression is less than `MaxStackSize` deep and fewer than 1000 calls were counted.
  pub run-compile :
      (e : ExprNode F) (type : TypeReq) (g : Codegen F) (ip : ℕ)
      → AreExact num lit
      → IsPlain type
      → IsNumeric num lit e type
      → depth e < max_stack_size
      → IsReady lit g
      → g.stream.num_func_calls < 1000
      → let u = (compile num e g ip type).0 in
        Runs num
          (emit_code_stream u.stream).1.stream
          (build u.floats)
          (machine g.stream.code_pos ([], []))
          (machine u.stream.code_pos (push type (eval num e) ([], [])))
  unfolding build
  run-compile e type g ip exact p h fits r few =
      let u = (compile num e g ip type).0 in
      let does = (compile-Computes num lit e type exact p h g ip ([], []) r (omega arith)).0 in
      does.runs (emit_code_stream u.stream).1.stream u.floats.list
        (emitted-Agrees u.stream g.stream.code_pos (does.grows.ready r).reach
          (omega (arith, does.grows.calls)))
        (λ i x k. k)
