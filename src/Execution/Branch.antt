-- ===== src/Execution/Branch.antt =====
-- engine/console/astNodes.cc: `ConditionalExprNode`.
use korkscript.Prelude.{
  Bool, Bool-cases, List, arith, false, get_elem?, if◌then◌else◌, inl, inr, refl, some, true, ℕ,
  ◌+◌, ◌==◌, ◌≡◌,
}
use korkscript.Codegen.{Codegen, Compile, Numbers, TypeReq, is_uint, req_float, req_uint}
use korkscript.Codegen.Nodes.{conditional_code, patch_to, put, put_at}
use korkscript.Compiler.CodeStream.{emit, emit_words, patch, tell}
use korkscript.Evaluator.{goes_on, run_opcode}
use korkscript.Execution.{is_true, operand_type}
use korkscript.Execution.Code.{
  Agrees-before, Agrees-patched, Agrees-put, Agrees-unpatched, Agrees-within,
}
use korkscript.Execution.Does.{Does, Does-trans, Runs-trans, Stacks, machine, one_step}
use korkscript.Execution.Growth.{Grows, Grows-le, Grows-patch, Grows-put, Grows-trans, IsReady}
use korkscript.Execution.Jumps.{layout}
use korkscript.Execution.Opcode.{push}
use korkscript.Execution.Straight.{Computes}
use korkscript.Opcodes.{op_jmp, op_jmpiffnot, op_jmpifnot}

module _ {F : Type 0} (num : Numbers F) (lit : F → Type 0) where
  -- A jump over the true branch: it takes the test off the stack, and is taken where that is false.
  abbrev Decides : ℕ → Stacks F → Stacks F → Bool → Type 0
  Decides jump before s truth =
      (code : List ℕ) (table : List F) (q to : ℕ)
      → get_elem? code q ≡ some to
      → run_opcode num jump code table (machine q before)
        ≡ goes_on (if truth then machine (q + 1) s else machine to s)

  jmpifnot-Decides :
      (v : ℕ × F) (s : Stacks F) → Decides op_jmpifnot (push req_uint v s) s (is_true num true v)
  unfolding run_opcode
  jmpifnot-Decides v s code table q to h = elim (Bool-cases (v.0 == 0)) [
    | inl e ↦ rw (e, h) refl
    | inr e ↦ rw e refl
  ]

  jmpiffnot-Decides :
      (v : ℕ × F) (s : Stacks F) → Decides op_jmpiffnot (push req_float v s) s (is_true num false v)
  unfolding run_opcode
  jmpiffnot-Decides v s code table q to h = elim (Bool-cases (num.eq_float v.1 num.zero_float)) [
    | inl e ↦ rw (e, h) refl
    | inr e ↦ rw e refl
  ]

  jmp_lem :
      (code : List ℕ) (table : List F) (q to : ℕ) (s : Stacks F)
      → get_elem? code q ≡ some to
      → run_opcode num op_jmp code table (machine q s) ≡ goes_on (machine to s)
  unfolding run_opcode
  jmp_lem code table q to s h = rw h refl

  -- The code behind the true branch: the jump over the false one, and the first jump's target.
  abbrev joint : Codegen F → Codegen F → Codegen F
  joint g w =
      let end = put (put w op_jmp) 0 in patch_to end (g.stream.code_pos + 1) end.stream.code_pos

  joint-Grows :
      (g w : Codegen F) (jump : ℕ) → Grows lit (put (put g jump) 0) w → Grows lit g (joint g w)
  unfolding put emit emit_words
  joint-Grows g w jump grow =
      let up = Grows-trans lit (Grows-put lit g jump) (Grows-put lit (put g jump) 0) in
      let on = Grows-trans lit (Grows-put lit w op_jmp) (Grows-put lit (put w op_jmp) 0) in
      let end = Grows-le lit grow in
      Grows-patch lit (g.stream.code_pos + 1) _ (Grows-trans lit (Grows-trans lit up grow) on)
        (omega arith) (omega arith)

  branch-Does :
      (jump : ℕ) (truth : Bool) (g w z : Codegen F) (before s t1 t2 : Stacks F)
      → Decides jump before s truth
      → IsReady lit g
      → Does num lit (put (put g jump) 0) w s t1
      → Does num lit (joint g w) z s t2
      → Does num lit g
          (patch_to z (w.stream.code_pos + 1) z.stream.code_pos)
          before
          (if truth then t1 else t2)
  unfolding put emit emit_words patch_to patch
  branch-Does jump truth g w z before s t1 t2 decides rdy yes_ no_ = record {
    grows =
        let up = joint-Grows g w jump yes_.grows in
        let mid = Grows-le lit yes_.grows in
        let end = Grows-le lit no_.grows in
        Grows-patch lit (w.stream.code_pos + 1) z.stream.code_pos (Grows-trans lit up no_.grows)
          (omega arith) (omega arith);
    runs = λ code table agree holds.
        let p = g.stream.code_pos in
        let q = w.stream.code_pos in
        let to = z.stream.code_pos in
        let mid = Grows-le lit yes_.grows in
        let end = Grows-le lit no_.grows in
        let up = Grows-trans lit (Grows-put lit g jump) (Grows-put lit (put g jump) 0) in
        let rdyw = (Grows-trans lit up yes_.grows).ready rdy in
        let rdyj = (joint-Grows g w jump yes_.grows).ready rdy in
        let on2 = Grows-put lit (put w op_jmp) 0 in
        let on = Grows-trans lit (Grows-put lit w op_jmp) on2 in
        let whole = (patch_to z (q + 1) to).stream in
        let part =
          Agrees-unpatched z code (q + 1) to p (q + 1) (inl (omega arith))
            (Agrees-within code whole p to p (q + 1) (omega arith) (omega arith) agree) in
        let first = Agrees-before code p (q + 1) rdyj no_.grows (omega arith) part in
        let lay =
          layout lit code g (put (put w op_jmp) 0) jump (q + 1 + 1) p (q + 1) rdy
            (Grows-trans lit yes_.grows on) (omega arith) (omega arith) first in
        let second =
          Agrees-unpatched z code (q + 1) to (q + 1 + 1) to (inr (omega arith))
            (Agrees-within code whole p to (q + 1 + 1) to (omega arith) (omega arith) agree) in
        let target = Agrees-patched z code (q + 1) to p to (omega arith) (omega arith) agree in
        let turn = decides code table (p + 1) (q + 1 + 1) lay.target in
        let inner = Agrees-before code (p + 1 + 1) q rdyw on (omega arith) (
          Agrees-within code (put (put w op_jmp) 0).stream (p + 1 + 1) (q + 1) (p + 1 + 1) q
            (omega arith) (omega arith) lay.behind) in
        let over = Agrees-put w code op_jmp (p + 1 + 1) rdyw (omega arith) (
          Agrees-before code (p + 1 + 1) (q + 1) ((Grows-put lit w op_jmp).ready rdyw) on2
            (omega arith) lay.behind) in
        elim (Bool-cases truth) [
          | inl e ↦ rw e (
              Runs-trans num
                (one_step num code table p jump before (machine (p + 1 + 1) s) lay.opcode
                  (rw e at turn))
                (Runs-trans num
                  (yes_.runs code table inner (λ i x h. holds i x (no_.grows.kept i x h)))
                  (one_step num code table q op_jmp t1 (machine to t1) over
                    (jmp_lem code table (q + 1) to t1 target))))
          | inr e ↦ rw e (
              Runs-trans num
                (one_step num code table p jump before (machine (q + 1 + 1) s) lay.opcode
                  (rw e at turn))
                (no_.runs code table second holds))
        ];
  }

  push_if :
      (type : TypeReq) (truth : Bool) (a b : ℕ × F) (s : Stacks F)
      → (if truth then push type a s else push type b s) ≡ push type (if truth then a else b) s
  push_if type true a b s = refl
  push_if type false a b s = refl

  -- The test, of the type that it prefers.
  conditional_at :
      (pref : TypeReq) (c x y : Compile F) (n : ℕ) (v a b : ℕ × F) (type : TypeReq) (integer : Bool)
      → is_uint pref ≡ integer
      → Computes num lit c n v (operand_type integer)
      → Computes num lit x n a type
      → Computes num lit y n b type
      → Computes num lit
          (conditional_code pref c x y)
          n
          (if is_true num integer v then a else b)
          type
  unfolding conditional_code put_at tell put emit emit_words
  conditional_at pref c x y n v a b type true e ct cx cy g ip s rdy room =
      let u = c g ip req_uint in
      let test = (ct g ip s rdy room).0 in
      let rdy1 = test.grows.ready rdy in
      let g3 = put (put u.0 op_jmpifnot) 0 in
      let rdy3 =
        (Grows-put lit (put u.0 op_jmpifnot) 0).ready
          ((Grows-put lit u.0 op_jmpifnot).ready rdy1) in
      let first = (cx g3 u.1 s rdy3 room).0 in
      let w = x g3 u.1 type in
      let j = joint u.0 w.0 in
      let rdyj = (joint-Grows u.0 w.0 op_jmpifnot first.grows).ready rdy1 in
      let second = (cy j w.1 s rdyj room).0 in
      let z = (y j w.1 type).0 in
      let whole =
        branch-Does op_jmpifnot (is_true num true v) u.0 w.0 z (push req_uint v s) s _ _
          (jmpifnot-Decides v s) rdy1 first second in
      rw (e, ← push_if type (is_true num true v) a b s) (Does-trans num lit rdy test whole, refl)
  conditional_at pref c x y n v a b type false e ct cx cy g ip s rdy room =
      let u = c g ip req_float in
      let test = (ct g ip s rdy room).0 in
      let rdy1 = test.grows.ready rdy in
      let g3 = put (put u.0 op_jmpiffnot) 0 in
      let rdy3 =
        (Grows-put lit (put u.0 op_jmpiffnot) 0).ready
          ((Grows-put lit u.0 op_jmpiffnot).ready rdy1) in
      let first = (cx g3 u.1 s rdy3 room).0 in
      let w = x g3 u.1 type in
      let j = joint u.0 w.0 in
      let rdyj = (joint-Grows u.0 w.0 op_jmpiffnot first.grows).ready rdy1 in
      let second = (cy j w.1 s rdyj room).0 in
      let z = (y j w.1 type).0 in
      let whole =
        branch-Does op_jmpiffnot (is_true num false v) u.0 w.0 z (push req_float v s) s _ _
          (jmpiffnot-Decides v s) rdy1 first second in
      rw (e, ← push_if type (is_true num false v) a b s) (Does-trans num lit rdy test whole, refl)

  pub conditional-Computes :
      (pref : TypeReq) (c x y : Compile F) (n : ℕ) (v a b : ℕ × F) (type : TypeReq)
      → Computes num lit c n v (operand_type (is_uint pref))
      → Computes num lit x n a type
      → Computes num lit y n b type
      → Computes num lit
          (conditional_code pref c x y)
          n
          (if is_true num (is_uint pref) v then a else b)
          type
  conditional-Computes pref c x y n v a b type =
      conditional_at pref c x y n v a b type (is_uint pref) refl
