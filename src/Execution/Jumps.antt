-- ===== src/Execution/Jumps.antt =====
-- engine/console/astNodes.cc: `&&`, `||` and the conditional, whose jumps are patched when the code
-- that they skip is there.
use korkscript.Prelude.{
  Bool, Bool-cases, List, arith, get_elem?, if◌then◌else◌, inl, inr, max, not, refl, some, ℕ, ◌+◌,
  ◌<◌, ◌==◌, ◌∷◌, ◌≡◌, ◌≤◌,
}
use korkscript.Codegen.{Codegen, Compile, Numbers, TypeReq, op_and_then, op_or_else, req_uint}
use korkscript.Codegen.Nodes.{logic_code, patch_to, put, put_at}
use korkscript.Compiler.CodeStream.{emit, emit_words, patch, tell}
use korkscript.Evaluator.{goes_on, run_opcode}
use korkscript.Execution.{IsPlain, int_result, of_int}
use korkscript.Execution.Code.{
  Agrees, Agrees-before, Agrees-patched, Agrees-put, Agrees-unpatched, Agrees-within,
}
use korkscript.Execution.Does.{Does, Does-trans, Runs-trans, Stacks, machine, one_step}
use korkscript.Execution.Growth.{Grows, Grows-le, Grows-patch, Grows-put, Grows-trans, IsReady}
use korkscript.Execution.Opcode.{convert_uint-Does, push}
use korkscript.Execution.Straight.{Computes}
use korkscript.Opcodes.{op_jmpif_np, op_jmpifnot_np}

-- What code shows of a jump over `u`'s words: the code in front, the opcode, its target, and the
-- words that are skipped.
pub record Layout {F : Type 0} (code : List ℕ) (g u : Codegen F) (op to a b : ℕ) : Type 0 where
  pub front : Agrees code g.stream a g.stream.code_pos
  pub opcode : get_elem? code g.stream.code_pos ≡ some op
  pub target : get_elem? code (g.stream.code_pos + 1) ≡ some to
  pub behind : Agrees code u.stream (g.stream.code_pos + 1 + 1) b

module _ {F : Type 0} (lit : F → Type 0) where
  pub layout :
      (code : List ℕ) (g u : Codegen F) (op to a b : ℕ)
      → IsReady lit g
      → Grows lit (put (put g op) 0) u
      → a ≤ g.stream.code_pos
      → g.stream.code_pos + 1 < b
      → Agrees code (patch_to u (g.stream.code_pos + 1) to).stream a b
      → Layout code g u op to a b
  unfolding put emit emit_words
  layout code g u op to a b r grow h k agree =
      let p = g.stream.code_pos in
      let r1 = (Grows-put lit g op).ready r in
      let grow1 = Grows-trans lit (Grows-put lit (put g op) 0) grow in
      let patched_stream = (patch_to u (p + 1) to).stream in
      let all = Grows-trans lit (Grows-put lit g op) grow1 in
      let before =
        Agrees-unpatched u code (p + 1) to a (p + 1) (inl (omega arith))
          (Agrees-within code patched_stream a b a (p + 1) (omega arith) (omega arith) agree) in
      record {
        front =
            Agrees-before code a p r all (omega arith)
              (Agrees-within code u.stream a (p + 1) a p (omega arith) (omega arith) before);
        opcode =
            Agrees-put g code op a r h (Agrees-before code a (p + 1) r1 grow1 (omega arith) before);
        target = Agrees-patched u code (p + 1) to a b (omega arith) k agree;
        behind =
            Agrees-unpatched u code (p + 1) to (p + 1 + 1) b (inr (omega arith)) (
              Agrees-within code patched_stream a b (p + 1 + 1) b (omega arith) (omega arith)
                agree);
      }

module _ {F : Type 0} (num : Numbers F) (lit : F → Type 0) where
  -- A jump that keeps the value which it is taken for, and drops any other.
  abbrev pub Keeps : ℕ → (ℕ → Bool) → Type 0
  Keeps jump taken =
      (code : List ℕ) (table : List F) (q to v : ℕ) (s : Stacks F)
      → get_elem? code q ≡ some to
      → run_opcode num jump code table (machine q (v ∷ s.0, s.1))
        ≡ goes_on (if taken v then machine to (v ∷ s.0, s.1) else machine (q + 1) s)

  jmpif_np-Keeps : Keeps op_jmpif_np (λ v. not (v == 0))
  unfolding run_opcode
  jmpif_np-Keeps code table q to v s h = elim (Bool-cases (v == 0)) [
    | inl e ↦ rw e refl
    | inr e ↦ rw (e, h) refl
  ]

  jmpifnot_np-Keeps : Keeps op_jmpifnot_np (λ v. v == 0)
  unfolding run_opcode
  jmpifnot_np-Keeps code table q to v s h = elim (Bool-cases (v == 0)) [
    | inl e ↦ rw (e, h) refl
    | inr e ↦ rw e refl
  ]

  -- The left value where the jump is taken for it, else the right one.
  abbrev pub chosen : (ℕ → Bool) → ℕ × F → ℕ × F → ℕ
  chosen taken a b = if taken a.0 then a.0 else b.0

  skip-Does :
      (jump : ℕ) (taken : ℕ → Bool) (g w : Codegen F) (a b : ℕ × F) (s : Stacks F)
      → Keeps jump taken
      → IsReady lit g
      → Does num lit (put (put g jump) 0) w s (push req_uint b s)
      → Does num lit g
          (patch_to w (g.stream.code_pos + 1) w.stream.code_pos)
          (push req_uint a s)
          (push req_uint (of_int num (chosen taken a b)) s)
  unfolding put emit emit_words patch_to patch
  skip-Does jump taken g w a b s keeps rdy right = record {
    grows =
        let up = Grows-trans lit (Grows-put lit g jump) (Grows-put lit (put g jump) 0) in
        let end = Grows-le lit right.grows in
        Grows-patch lit (g.stream.code_pos + 1) w.stream.code_pos (Grows-trans lit up right.grows)
          (omega arith) (omega arith);
    runs = λ code table agree holds.
        let p = g.stream.code_pos in
        let to = w.stream.code_pos in
        let end = Grows-le lit right.grows in
        let lay =
          layout lit code g w jump to p to rdy right.grows (omega arith) (omega arith) agree in
        let turn = keeps code table (p + 1) to a.0 s lay.target in
        elim (Bool-cases (taken a.0)) [
          | inl e ↦ rw e (
              one_step num code table p jump (push req_uint a s) (machine to (a.0 ∷ s.0, s.1))
                lay.opcode (rw e at turn))
          | inr e ↦ rw e (
              Runs-trans num
                (one_step num code table p jump (push req_uint a s) (machine (p + 1 + 1) s)
                  lay.opcode (rw e at turn))
                (right.runs code table lay.behind holds))
        ];
  }

  logic-Computes :
      (jump : ℕ) (taken : ℕ → Bool) (l r : Compile F) (n m : ℕ) (a b : ℕ × F) (type : TypeReq)
      → Keeps jump taken
      → IsPlain type
      → 1 ≤ n
      → Computes num lit l n a req_uint
      → Computes num lit r m b req_uint
      → Computes num lit (logic_code jump l r) (max m (n + 1)) (of_int num (chosen taken a b)) type
  unfolding logic_code put_at tell put emit emit_words
  logic-Computes jump taken l r n m a b type keeps p enough cl cr g ip s rdy room =
      let u = l g ip req_uint in
      let left = (cl g ip s rdy (omega arith)).0 in
      let g3 = put (put u.0 jump) 0 in
      let rdy1 = left.grows.ready rdy in
      let rdy3 = (Grows-put lit (put u.0 jump) 0).ready ((Grows-put lit u.0 jump).ready rdy1) in
      let right = cr g3 u.1 s rdy3 (omega arith) in
      let w = (r g3 u.1 req_uint).0 in
      let skip = skip-Does jump taken u.0 w a b s keeps rdy1 right.0 in
      let done = patch_to w (u.0.stream.code_pos + 1) w.stream.code_pos in
      let conv =
        convert_uint-Does num lit done (chosen taken a b) type s p (omega arith)
          (skip.grows.ready rdy1) in
      rw right.1 (Does-trans num lit rdy left (Does-trans num lit rdy1 skip conv), refl)

  or_value : (a b : ℕ × F) → chosen (λ v. not (v == 0)) a b ≡ int_result num op_or_else a b
  or_value a b = elim (Bool-cases (a.0 == 0)) [ inl e ↦ rw e refl | inr e ↦ rw e refl ]

  and_value : (a b : ℕ × F) → chosen (λ v. v == 0) a b ≡ int_result num op_and_then a b
  and_value a b = elim (Bool-cases (a.0 == 0)) [
    | inl e ↦ let z : a.0 ≡ 0 = ground arith in rw e z
    | inr e ↦ rw e refl
  ]

  pub or-Computes :
      (l r : Compile F) (n m : ℕ) (a b : ℕ × F) (type : TypeReq)
      → IsPlain type
      → 1 ≤ n
      → Computes num lit l n a req_uint
      → Computes num lit r m b req_uint
      → Computes num lit
          (logic_code op_jmpif_np l r)
          (max m (n + 1))
          (of_int num (int_result num op_or_else a b))
          type
  or-Computes l r n m a b type p enough cl cr =
      rw (← or_value a b)
        (logic-Computes op_jmpif_np _ l r n m a b type jmpif_np-Keeps p enough cl cr)

  pub and-Computes :
      (l r : Compile F) (n m : ℕ) (a b : ℕ × F) (type : TypeReq)
      → IsPlain type
      → 1 ≤ n
      → Computes num lit l n a req_uint
      → Computes num lit r m b req_uint
      → Computes num lit
          (logic_code op_jmpifnot_np l r)
          (max m (n + 1))
          (of_int num (int_result num op_and_then a b))
          type
  and-Computes l r n m a b type p enough cl cr =
      rw (← and_value a b)
        (logic-Computes op_jmpifnot_np _ l r n m a b type jmpifnot_np-Keeps p enough cl cr)
