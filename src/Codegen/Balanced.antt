-- ===== src/Codegen/Balanced.antt =====
-- engine/console/astNodes.cc: `compileStmt` and the scopes of the stream.
use korkscript.Prelude.{ℕ}
use korkscript.Codegen.{Codegen, Numbers, req_none}
use korkscript.Codegen.Branches.{
  Balanced, Balanced-trans, BlockKeeps, StmtKeeps, and_then-Balanced, if_code-Balanced,
  if_else_code-Balanced, jump_out-SameScopes, loop_code-Balanced, mark-SameScopes,
  return_code-SameScopes,
}
use korkscript.Codegen.SameScopes.{SameScopes-refl, SameScopes-trans, then_put}
use korkscript.Codegen.Scopes.{compile-KeepsScopes}
use korkscript.Codegen.Stmts.{
  Block, Stmt, break_stmt, compile_block, compile_stmt, continue_stmt, expr_stmt, followed, if_else,
  if_stmt, loop_stmt, no_more, return_stmt, return_void,
}
use korkscript.Compiler.CodeStream.{FixType}
use korkscript.Opcodes.{op_return_void}

mutual
  unfolding compile_stmt compile_block

  compile_stmt-balances :
      {F : Type 0} (num : Numbers F) (s : Stmt F)
      → StmtKeeps s
      → (g : Codegen F) (ip : ℕ) → Balanced g (compile_stmt num s g ip)
  compile_stmt-balances num (expr_stmt line e) h g ip =
      SameScopes-trans (mark-SameScopes line g) (compile-KeepsScopes num e h _ ip req_none)
  compile_stmt-balances num (return_void line) h g ip =
      then_put op_return_void (mark-SameScopes line g)
  compile_stmt-balances num (return_stmt line e) h g ip = return_code-SameScopes num line e g ip h
  compile_stmt-balances num (if_stmt line switch e a) h g ip =
      if_code-Balanced num line switch e (compile_block num a) h.0
        (compile_block-balances num a h.1) g ip
  compile_stmt-balances num (if_else line switch e a b) h g ip =
      if_else_code-Balanced num line switch e (compile_block num a) (compile_block num b) h.0
        (compile_block-balances num a h.1) (compile_block-balances num b h.2) g ip
  compile_stmt-balances num (loop_stmt line is_do init e end_loop a) h g ip =
      loop_code-Balanced num line is_do init e end_loop (compile_block num a) h.0 h.1 h.2
        (compile_block-balances num a h.3) g ip
  compile_stmt-balances num (break_stmt line) h g ip = jump_out-SameScopes num FixType.break line g
  compile_stmt-balances num (continue_stmt line) h g ip =
      jump_out-SameScopes num FixType.continue line g

  compile_block-balances :
      {F : Type 0} (num : Numbers F) (b : Block F)
      → BlockKeeps b
      → (g : Codegen F) (ip : ℕ) → Balanced g (compile_block num b g ip)
  compile_block-balances num no_more h g ip = SameScopes-refl g
  compile_block-balances num (followed s b) h g ip =
      and_then-Balanced g g _ _ (compile_stmt-balances num s h.0 g ip)
        (λ u ip' t. Balanced-trans g u _ t (compile_block-balances num b h.1 u ip'))

-- Of a statement whose expressions leave the scopes where a node is not modelled: `compileStmt`
-- comes back with no assertion on the stacks of scopes failing, loops, switches, `break` and
-- `continue` included, and leaves the stacks of fix scopes, of loops, of switches and of return types
-- as they were and the fixes of the loops around it in place, in front of its own.
pub compile_stmt-Balanced :
    {F : Type 0} (num : Numbers F) (s : Stmt F) (g : Codegen F) (ip : ℕ)
    → StmtKeeps s
    → Balanced g (compile_stmt num s g ip)
compile_stmt-Balanced num s g ip h = compile_stmt-balances num s h g ip
