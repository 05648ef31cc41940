-- ===== src/Codegen/Branches.antt =====
-- engine/console/astNodes.cc: the statements one by one, and the scopes of the stream.
use korkscript.Prelude.{
  Bool, Bool-cases, Option, [], ap, arith, false, inl, inr, ltb, none, refl, some, tail, true, ℕ,
  ◌-◌, ◌∷◌, ◌≡◌,
}
use korkscript.Codegen.{Codegen, ExprNode, Numbers, req_none}
use korkscript.Codegen.Nodes.{put, put_at}
use korkscript.Codegen.SameScopes.{
  SameScopes, SameScopes-refl, SameScopes-trans, same_scopes, then_patch, then_put,
}
use korkscript.Codegen.Scopes.{OthersKeep, compile-KeepsScopes}
use korkscript.Codegen.Stmts.{
  Block, CompileStmt, Stmt, and_then, break_stmt, continue_stmt, enter_switch, expr_stmt, followed,
  if_code, if_else, if_else_code, if_present, if_stmt, jump_out_code, leave_switch, loop_code,
  loop_head, loop_stmt, mark_line, no_more, on_stream, on_stream?, put_fix, return_code,
  return_stmt, return_void, test_code, then_told,
}
use korkscript.Compiler.CodeStream.{
  FixType, add_break_line, emit_fix, emit_words, in_loop, pop_switch_scope, push_fix_scope,
  push_switch_scope,
}
use korkscript.Compiler.CodeStream.Fixes.{close_loop, close_loop-targets}
use korkscript.Opcodes.{op_jmp, op_jmpif, op_jmpiff, op_jmpiffnot, op_jmpifnot}

abbrev pub PresentKeep : {F : Type 0} → Option (ExprNode F) → Type 0
PresentKeep none = Unit
PresentKeep (some e) = OthersKeep e

-- The expressions of a statement leave the scopes.
abbrev mutual
  pub StmtKeeps : {F : Type 0} → Stmt F → Type 0
  StmtKeeps (expr_stmt line e) = OthersKeep e
  StmtKeeps (return_void line) = Unit
  StmtKeeps (return_stmt line e) = OthersKeep e
  StmtKeeps (if_stmt line switch e a) = OthersKeep e × BlockKeeps a
  StmtKeeps (if_else line switch e a b) = OthersKeep e × BlockKeeps a × BlockKeeps b
  StmtKeeps (loop_stmt line is_do init e end_loop a) =
      PresentKeep init × OthersKeep e × PresentKeep end_loop × BlockKeeps a
  StmtKeeps (break_stmt line) = Unit
  StmtKeeps (continue_stmt line) = Unit

  pub BlockKeeps : {F : Type 0} → Block F → Type 0
  BlockKeeps no_more = Unit
  BlockKeeps (followed s b) = StmtKeeps s × BlockKeeps b

module _ {F : Type 0} where
  -- The statement was compiled with no assertion failing, and the scopes are as before.
  abbrev pub Balanced : Codegen F → Option (Codegen F × ℕ) → Type 0
  Balanced g none = ⊥
  Balanced g (some (u, ip)) = SameScopes g u

  abbrev pub KeepsBlock : CompileStmt F → Type 0
  KeepsBlock c = (g : Codegen F) (ip : ℕ) → Balanced g (c g ip)

  pub and_then-Balanced :
      (g h : Codegen F) (r : Option (Codegen F × ℕ)) (f : Codegen F → ℕ → Option (Codegen F × ℕ))
      → Balanced h r
      → ((u : Codegen F) (ip : ℕ) → SameScopes h u → Balanced g (f u ip))
      → Balanced g (and_then r f)
  and_then-Balanced g h none f b k = elim b [ ]
  and_then-Balanced g h (some (u, ip)) f b k = k u ip b

  pub Balanced-trans :
      (g u : Codegen F) (r : Option (Codegen F × ℕ)) → SameScopes g u → Balanced u r → Balanced g r
  Balanced-trans g u none s b = b
  Balanced-trans g u (some (w, ip)) s b = SameScopes-trans s b

  pub mark-SameScopes : (line : ℕ) (g : Codegen F) → SameScopes g (mark_line line g)
  unfolding mark_line add_break_line
  mark-SameScopes line g = same_scopes refl refl refl refl refl

  put_fix-SameScopes : (type : FixType) (g : Codegen F) → SameScopes g (put_fix type g)
  unfolding put_fix emit_fix emit_words
  put_fix-SameScopes type g = record {
    more = (g.stream.code_pos, type) ∷ [];
    fix_list = refl;
    fix_stack = refl;
    loops = refl;
    switches = refl;
    returns = refl;
  }

  -- The scope of a `switch` that an `if` opens is there to be closed.
  leave_lem :
      (b : Bool) (g u : Codegen F)
      → SameScopes (enter_switch b g) u
      → (w : Codegen F) × (leave_switch b u ≡ some w) × SameScopes g w
  unfolding push_switch_scope pop_switch_scope
  leave_lem false g u s = (u, refl, s)
  leave_lem true g u s =
      let deep : ltb 0 u.stream.switch_scope_depth ≡ true = ground (arith, s.switches) in
      let depth = u.stream.switch_scope_depth - 1 in
      let w = record u { stream = record u.stream { switch_scope_depth = depth } } in
      (
        w,
        rw deep refl,
        record {
          more = s.more;
          fix_list = s.fix_list;
          fix_stack = s.fix_stack;
          loops = s.loops;
          switches = omega (arith, s.switches);
          returns = s.returns;
        },
      )

module _ {F : Type 0} (num : Numbers F) where
  test_code-SameScopes :
      (a b : ℕ) (e : ExprNode F) (g : Codegen F) (ip : ℕ)
      → OthersKeep e
      → SameScopes g (test_code num a b e g ip).0
  unfolding test_code
  test_code-SameScopes a b e g ip h = then_put _ (compile-KeepsScopes num e h g ip _)

  pub if_code-Balanced :
      (line : ℕ) (switch : Bool) (e : ExprNode F) (c : CompileStmt F)
      → OthersKeep e
      → KeepsBlock c
      → KeepsBlock (if_code num line switch e c)
  unfolding if_code put_at put
  if_code-Balanced line switch e c h k g ip =
      let test =
        SameScopes-trans (mark-SameScopes line g)
          (test_code-SameScopes op_jmpifnot op_jmpiffnot e (mark_line line g) ip h) in
      let g1 = test_code num op_jmpifnot op_jmpiffnot e (mark_line line g) ip in
      let g2 = put g1.0 0 in
      and_then-Balanced g (enter_switch switch g2) _ _ (k (enter_switch switch g2) g1.1)
        (λ u offset s.
          let (w, e', kept) = leave_lem switch g2 u s in
          rw e' (then_patch _ _ (SameScopes-trans (then_put 0 test) kept)))

  pub if_else_code-Balanced :
      (line : ℕ) (switch : Bool) (e : ExprNode F) (c d : CompileStmt F)
      → OthersKeep e
      → KeepsBlock c
      → KeepsBlock d
      → KeepsBlock (if_else_code num line switch e c d)
  unfolding if_else_code put_at put
  if_else_code-Balanced line switch e c d h k l g ip =
      let test =
        SameScopes-trans (mark-SameScopes line g)
          (test_code-SameScopes op_jmpifnot op_jmpiffnot e (mark_line line g) ip h) in
      let g1 = test_code num op_jmpifnot op_jmpiffnot e (mark_line line g) ip in
      let g2 = put g1.0 0 in
      and_then-Balanced g (enter_switch switch g2) _ _ (k (enter_switch switch g2) g1.1)
        (λ u offset s.
          and_then-Balanced g (put (put u op_jmp) 0) _ _ (l (put (put u op_jmp) 0) g1.1) (λ v end t.
            let all = SameScopes-trans (then_put 0 (then_put op_jmp s)) t in
            let (w, e', kept) = leave_lem switch g2 v all in
            rw e' (then_patch _ _ (then_patch _ _ (SameScopes-trans (then_put 0 test) kept)))))

  if_present-SameScopes :
      (e : Option (ExprNode F)) (g : Codegen F) (ip : ℕ)
      → PresentKeep e
      → SameScopes g (if_present num e g ip).0
  if_present-SameScopes none g ip h = SameScopes-refl g
  if_present-SameScopes (some e) g ip h = compile-KeepsScopes num e h g ip req_none

  loop_head-SameScopes :
      (is_do : Bool) (e : ExprNode F) (g : Codegen F) (ip : ℕ)
      → OthersKeep e
      → SameScopes g (loop_head num is_do e (g, ip)).0
  loop_head-SameScopes true e g ip h = SameScopes-refl g
  loop_head-SameScopes false e g ip h =
      SameScopes-trans (test_code-SameScopes op_jmpifnot op_jmpiffnot e g ip h)
        (put_fix-SameScopes FixType.break _)

  -- The scope of a loop is closed.
  close-Balanced :
      (g u : Codegen F) (start brk cont : ℕ)
      → SameScopes (on_stream g (push_fix_scope g.stream true)) u
      → Balanced g (then_told (on_stream? u (close_loop u.stream start brk cont)))
  unfolding push_fix_scope
  close-Balanced g u start brk cont s =
      rw
        (close_loop-targets u.stream g.stream.fix_list s.more g.stream.fix_stack start brk cont
          s.fix_list s.fix_stack)
        (same_scopes refl refl (ap tail s.loops) s.switches s.returns)

  pub loop_code-Balanced :
      (line : ℕ) (is_do : Bool) (init : Option (ExprNode F)) (e : ExprNode F)
      (end_loop : Option (ExprNode F)) (c : CompileStmt F)
      → PresentKeep init
      → OthersKeep e
      → PresentKeep end_loop
      → KeepsBlock c
      → KeepsBlock (loop_code num line is_do init e end_loop c)
  unfolding loop_code
  loop_code-Balanced line is_do init e end_loop c hi he hl k g ip =
      let g1 = mark_line line g in
      let g2 = on_stream g1 (push_fix_scope g1.stream true) in
      let i = if_present num init g2 ip in
      let h = loop_head num is_do e i in
      let front =
        SameScopes-trans (if_present-SameScopes init g2 ip hi)
          (loop_head-SameScopes is_do e i.0 i.1 he) in
      let marked = mark-SameScopes line g in
      and_then-Balanced g h.0 _ _ (k h.0 h.1) (λ u offset s.
        let p = if_present num end_loop u h.1 in
        let back = SameScopes-trans (if_present-SameScopes end_loop u h.1 hl) (
          SameScopes-trans (test_code-SameScopes op_jmpif op_jmpiff e p.0 p.1 he)
            (put_fix-SameScopes FixType.loop_block_start _)) in
        Balanced-trans g g1 _ marked
          (close-Balanced g1 _ _ _ _ (SameScopes-trans front (SameScopes-trans s back))))

  pub jump_out-SameScopes :
      (type : FixType) (line : ℕ) (g : Codegen F) → SameScopes g (jump_out_code type line g).0
  unfolding jump_out_code
  jump_out-SameScopes type line g = elim (Bool-cases (in_loop g.stream)) [
    | inl e ↦
        rw e
          (SameScopes-trans (then_put op_jmp (mark-SameScopes line g)) (put_fix-SameScopes type _))
    | inr e ↦ rw e (SameScopes-refl g)
  ]

  pub return_code-SameScopes :
      (line : ℕ) (e : ExprNode F) (g : Codegen F) (ip : ℕ)
      → OthersKeep e
      → SameScopes g (return_code num line e g ip).0
  unfolding return_code
  return_code-SameScopes line e g ip h =
      then_put _ (SameScopes-trans (mark-SameScopes line g) (compile-KeepsScopes num e h _ ip _))
