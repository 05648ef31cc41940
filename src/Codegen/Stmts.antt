-- ===== src/Codegen/Stmts.antt =====
-- engine/console/astNodes.cc: `compileStmt` of the statements and `compileBlock`. A line number is the
-- node's `dbgLineNumber`.
use korkscript.Prelude.{Bool, Option, false, if◌then◌else◌, none, some, true, ℕ, ◌+◌}
use korkscript.Codegen.{
  Codegen, ExprNode, Numbers, TypeReq, get_preferred_type, is_uint, req_float, req_none, req_string,
  req_typed_string, req_uint,
}
use korkscript.Codegen.Nodes.{compile, patch_to, put, put_at, told}
use korkscript.Compiler.CodeStream.{
  CodeStream, FixType, add_break_line, emit_fix, get_return_type, in_loop, pop_switch_scope,
  push_fix_scope, push_switch_scope, tell,
}
use korkscript.Compiler.CodeStream.Fixes.{close_loop}
use korkscript.Opcodes.{
  op_jmp, op_jmpif, op_jmpiff, op_jmpiffnot, op_jmpifnot, op_return, op_return_flt, op_return_uint,
  op_return_void,
}

-- A list of statements hangs on the first one by `next`. An `if` has an `else` block or none.
mutual
  pub data Stmt (F : Type 0) : Type 0 where
    expr_stmt : ℕ → ExprNode F → Stmt F
    return_void : ℕ → Stmt F
    return_stmt : ℕ → ExprNode F → Stmt F
    if_stmt : ℕ → Bool → ExprNode F → Block F → Stmt F
    if_else : ℕ → Bool → ExprNode F → Block F → Block F → Stmt F
    loop_stmt : ℕ → Bool → Option (ExprNode F) → ExprNode F → Option (ExprNode F) → Block F → Stmt F
    break_stmt : ℕ → Stmt F
    continue_stmt : ℕ → Stmt F

  pub data Block (F : Type 0) : Type 0 where
    no_more : Block F
    followed : Stmt F → Block F → Block F

-- `none` is a failed assertion.
abbrev pub CompileStmt : Type 0 → Type 0
CompileStmt F = Codegen F → ℕ → Option (Codegen F × ℕ)

-- The type of what a `return` gives back, and its opcode.
unfoldable pub return_type : TypeReq → Option ℕ → TypeReq
return_type pref none = elim pref [ req_none ↦ req_string | t ↦ t ]
return_type pref (some t) = req_typed_string

unfoldable pub return_operand : TypeReq → ℕ
return_operand req_uint = op_return_uint
return_operand req_float = op_return_flt
return_operand _ = op_return

module _ {F : Type 0} where
  -- An operation on the stream.
  abbrev pub on_stream : Codegen F → CodeStream → Codegen F
  on_stream g s = record g { stream = s }

  abbrev pub on_stream? : Codegen F → Option CodeStream → Option (Codegen F)
  on_stream? g none = none
  on_stream? g (some s) = some (on_stream g s)

  abbrev pub then_told : Option (Codegen F) → Option (Codegen F × ℕ)
  then_told none = none
  then_told (some g) = some (told g)

  abbrev pub and_then :
      {A : Type 0} → Option (Codegen F × ℕ) → (Codegen F → ℕ → Option A) → Option A
  and_then none f = none
  and_then (some (g, ip)) f = f g ip

  -- `addBreakLine`
  unfoldable pub mark_line : ℕ → Codegen F → Codegen F
  mark_line line g = on_stream g (add_break_line g.stream line (tell g.stream))

  -- The test of an `if` or a loop with its jump.
  unfoldable pub test_code : Numbers F → ℕ → ℕ → ExprNode F → Codegen F → ℕ → Codegen F × ℕ
  test_code num op_int op_float test g ip =
      let integer = is_uint (get_preferred_type test) in
      let (g1, ip1) = compile num test g ip (if integer then req_uint else req_float) in
      (put g1 (if integer then op_int else op_float), ip1)

  abbrev pub enter_switch : Bool → Codegen F → Codegen F
  enter_switch true g = on_stream g (push_switch_scope g.stream)
  enter_switch false g = g

  abbrev pub leave_switch : Bool → Codegen F → Option (Codegen F)
  leave_switch true g = on_stream? g (pop_switch_scope g.stream)
  leave_switch false g = some g

  abbrev pub patched_to : ℕ → ℕ → Option (Codegen F) → Option (Codegen F × ℕ)
  patched_to addr ip none = none
  patched_to addr ip (some g) = then_told (some (patch_to g addr ip))

  unfoldable pub if_code : Numbers F → ℕ → Bool → ExprNode F → CompileStmt F → CompileStmt F
  if_code num line switch test on_true g ip =
      let (g1, ip1) = test_code num op_jmpifnot op_jmpiffnot test (mark_line line g) ip in
      let (g2, endif_ip) = put_at g1 0 in
      and_then (on_true (enter_switch switch g2) ip1)
        (λ g3 offset. patched_to endif_ip offset (leave_switch switch g3))

  -- The two jumps are patched when both blocks are there.
  abbrev pub patched_both : ℕ → ℕ → ℕ → ℕ → Option (Codegen F) → Option (Codegen F × ℕ)
  patched_both a v b w none = none
  patched_both a v b w (some g) = some (told (patch_to (patch_to g a v) b w))

  unfoldable pub if_else_code :
      Numbers F → ℕ → Bool → ExprNode F → CompileStmt F → CompileStmt F → CompileStmt F
  if_else_code num line switch test on_true on_false g ip =
      let (g1, ip1) = test_code num op_jmpifnot op_jmpiffnot test (mark_line line g) ip in
      let (g2, else_ip) = put_at g1 0 in
      and_then (on_true (enter_switch switch g2) ip1) (λ g3 offset.
        let (g4, endif_ip) = put_at (put g3 op_jmp) 0 in
        and_then (on_false g4 ip1) (λ g5 endif_offset.
          patched_both endif_ip endif_offset else_ip (offset + 2) (leave_switch switch g5)))

  -- `emitFix`
  unfoldable pub put_fix : FixType → Codegen F → Codegen F
  put_fix type g = on_stream g (emit_fix g.stream type).0

  abbrev pub if_present : Numbers F → Option (ExprNode F) → Codegen F → ℕ → Codegen F × ℕ
  if_present num none g ip = (g, ip)
  if_present num (some e) g ip = compile num e g ip req_none

  abbrev pub loop_head : Numbers F → Bool → ExprNode F → Codegen F × ℕ → Codegen F × ℕ
  loop_head num true test (g, ip) = (g, ip)
  loop_head num false test (g, ip) =
      let (g1, ip1) = test_code num op_jmpifnot op_jmpiffnot test g ip in
      (put_fix FixType.break g1, ip1)

  unfoldable pub loop_code :
      Numbers F
      → ℕ
      → Bool
      → Option (ExprNode F)
      → ExprNode F
      → Option (ExprNode F)
      → CompileStmt F
      → CompileStmt F
  loop_code num line is_do init test end_loop body g ip =
      let g1 = mark_line line g in
      let g2 = on_stream g1 (push_fix_scope g1.stream true) in
      let (g3, ip3) = loop_head num is_do test (if_present num init g2 ip) in
      let start = tell g3.stream in
      and_then (body g3 ip3) (λ g4 continue_offset.
        let (g5, ip5) = if_present num end_loop g4 ip3 in
        let (g6, ip6) = test_code num op_jmpif op_jmpiff test g5 ip5 in
        let g7 = put_fix FixType.loop_block_start g6 in
        let break_offset = tell g7.stream in
        then_told (on_stream? g7 (close_loop g7.stream start break_offset continue_offset)))

  -- In a `switch` a `break` does nothing but print a warning.
  unfoldable pub jump_out_code : FixType → ℕ → Codegen F → Codegen F × ℕ
  jump_out_code type line g =
      if in_loop g.stream then told (put_fix type (put (mark_line line g) op_jmp)) else told g

  unfoldable pub return_code : Numbers F → ℕ → ExprNode F → Codegen F → ℕ → Codegen F × ℕ
  return_code num line e g ip =
      let g1 = mark_line line g in
      let type = return_type (get_preferred_type e) (get_return_type g1.stream) in
      told (put (compile num e g1 ip type).0 (return_operand type))

unfoldable mutual
  pub compile_stmt : {F : Type 0} → Numbers F → Stmt F → Codegen F → ℕ → Option (Codegen F × ℕ)
  compile_stmt num (expr_stmt line e) g ip = some (compile num e (mark_line line g) ip req_none)
  compile_stmt num (return_void line) g ip = some (told (put (mark_line line g) op_return_void))
  compile_stmt num (return_stmt line e) g ip = some (return_code num line e g ip)
  compile_stmt num (if_stmt line switch test a) g ip =
      if_code num line switch test (compile_block num a) g ip
  compile_stmt num (if_else line switch test a b) g ip =
      if_else_code num line switch test (compile_block num a) (compile_block num b) g ip
  compile_stmt num (loop_stmt line is_do init test end_loop body) g ip =
      loop_code num line is_do init test end_loop (compile_block num body) g ip
  compile_stmt num (break_stmt line) g ip = some (jump_out_code FixType.break line g)
  compile_stmt num (continue_stmt line) g ip = some (jump_out_code FixType.continue line g)

  pub compile_block : {F : Type 0} → Numbers F → Block F → Codegen F → ℕ → Option (Codegen F × ℕ)
  compile_block num no_more g ip = some (told g)
  compile_block num (followed s b) g ip = and_then (compile_stmt num s g ip) (compile_block num b)
