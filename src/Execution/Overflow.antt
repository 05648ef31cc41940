-- ===== src/Execution/Overflow.antt =====
-- engine/console/compiledEval.cc and consoleInternal.h: `floatStack` has `MaxStackSize` cells, which
-- nothing checks, neither the compiler nor the evaluator.
use korkscript.Prelude.{
  Bool-cases, List, arith, false, inl, inr, length, ltb, refl, suc, zero, ℕ, ◌+◌, ◌<◌, ◌∙◌, ◌∷◌,
  ◌≡◌, ◌≤◌,
}
use korkscript.Codegen.{
  Codegen, ExprNode, Numbers, can_be_typed, float_binary, float_node, float_operand,
  get_preferred_type, pchar_plus, req_float,
}
use korkscript.Codegen.Nodes.{
  add_number, both_sides, compile, convert, float_binary_code, float_code, load, put,
}
use korkscript.Compiler.CodeStream.{emit, emit_words, tell}
use korkscript.Evaluator.{Machine, Runs, float_overflowed, here, max_stack_size, run_opcode, step}
use korkscript.Execution.{IsNumeric}
use korkscript.Execution.Code.{Agrees, Agrees-before, Agrees-put, Agrees-within}
use korkscript.Execution.Correct.{IsNumeric-untyped}
use korkscript.Execution.Does.{Holds, Runs-trans, Stacks, machine, step_lem}
use korkscript.Execution.Growth.{Grows, Grows-le, Grows-put, Grows-refl, Grows-trans, IsReady}
use korkscript.Execution.Literal.{AreExact, add_number-Grows, add_number-lem, load_number-Does}
use korkscript.Opcodes.{op_add, op_loadimmed_flt}

-- `x + x + ... + x`, which the parser groups to the left, with one `+` for each unit of the number.
unfoldable pub chain : {F : Type 0} → F → ℕ → ExprNode F
chain x zero = float_node x
chain x (suc k) = float_binary pchar_plus (chain x k) (float_node x)

module _ {F : Type 0} (num : Numbers F) (lit : F → Type 0) where
  -- The code runs into an opcode that writes beyond the last cell of `floatStack`.
  pub data Faults (code : List ℕ) (table : List F) (m : Machine F) : Type 0 where
    faults :
        {n : Machine F}
        → Runs num code table m n
        → step num code table n ≡ float_overflowed
        → Faults code table m

  chain-IsNumeric : (x : F) (k : ℕ) → lit x → IsNumeric num lit (chain x k) req_float
  unfolding chain
  chain-IsNumeric x zero h = h
  chain-IsNumeric x (suc k) h = (chain-IsNumeric x k h, h)

  abbrev literal : F → Codegen F → Codegen F
  literal x g = load op_loadimmed_flt (add_number num x g)

  literal-Grows : (x : F) (g : Codegen F) → lit x → Grows lit g (literal x g)
  unfolding load
  literal-Grows x g h =
      let u = add_number num x g in
      Grows-trans lit (add_number-Grows num lit g x h) (
        Grows-trans lit (Grows-put lit u.0 op_loadimmed_flt)
          (Grows-put lit (put u.0 op_loadimmed_flt) u.1))

  -- The code of a sum: the last number, then the code of the rest, then the addition.
  chain_code :
      (x : F) (k : ℕ) (g : Codegen F) (ip : ℕ)
      → lit x
      → (compile num (chain x (suc k)) g ip req_float).0
        ≡ put (compile num (chain x k) (literal x g) (tell (literal x g).stream) req_float).0 op_add
  unfolding compile chain float_binary_code both_sides float_operand convert float_code can_be_typed
      get_preferred_type
  chain_code x k g ip h =
      rw (IsNumeric-untyped num lit (chain x k) req_float (chain-IsNumeric x k h)) refl

  pub chain-Grows :
      (x : F) (k : ℕ) (g : Codegen F) (ip : ℕ)
      → lit x
      → Grows lit g (compile num (chain x k) g ip req_float).0
  unfolding compile chain float_code
  chain-Grows x zero g ip h = literal-Grows x g h
  chain-Grows x (suc k) g ip h = rw (chain_code x k g ip h) (
      Grows-trans lit (literal-Grows x g h)
        (Grows-trans lit (chain-Grows x k (literal x g) _ h) (Grows-put lit _ op_add)))

  -- A number is loaded with no cell left.
  literal-Faults :
      (x : F) (g u : Codegen F) (s : Stacks F)
      → AreExact num lit
      → lit x
      → IsReady lit g
      → Grows lit (literal x g) u
      → ltb (length s.1 + 1) max_stack_size ≡ false
      → (code : List ℕ) (table : List F) → Agrees code u.stream g.stream.code_pos u.stream.code_pos
      → Holds u table
      → Faults code table (machine g.stream.code_pos s)
  unfolding load add_number run_opcode put emit emit_words
  literal-Faults x g u s exact h r grow full code table agree holds =
      let n = add_number num x g in
      let p = g.stream.code_pos in
      let w1 = put n.0 op_loadimmed_flt in
      let r0 = (add_number-Grows num lit g x h).ready r in
      let r1 = (Grows-put lit n.0 op_loadimmed_flt).ready r0 in
      let up = Grows-trans lit (Grows-put lit w1 n.1) grow in
      let end = Grows-le lit up in
      let end2 = Grows-le lit grow in
      let rest =
        Agrees-within code u.stream p u.stream.code_pos p (p + 1 + 1) (omega arith) (omega arith)
          agree in
      let op = Agrees-put n.0 code op_loadimmed_flt p r0 (omega arith) (
        Agrees-before code p (p + 1) r1 up (omega arith)
          (Agrees-within code u.stream p (p + 1 + 1) p (p + 1) (omega arith) (omega arith) rest)) in
      let index = Agrees-put w1 code n.1 p r1 (omega arith) (
        Agrees-before code p (p + 1 + 1) ((Grows-put lit w1 n.1).ready r1) grow (omega arith)
          rest) in
      let found = holds n.1 x (grow.kept n.1 x (add_number-lem num lit g x exact h r)) in
      faults here (step_lem num code table p op_loadimmed_flt s op ∙ rw (index, found, full) refl)

  later-Faults :
      (code : List ℕ) (table : List F) (m n : Machine F)
      → Runs num code table m n
      → Faults code table n
      → Faults code table m
  later-Faults code table m n a (faults b e) = faults (Runs-trans num a b) e

  -- A sum faults at its last number, or else where the rest does with that number on the stack.
  sum-Faults :
      (x : F) (g w : Codegen F) (s : Stacks F)
      → AreExact num lit
      → lit x
      → IsReady lit g
      → Grows lit (literal x g) w
      → length s.1 < max_stack_size
      → (length s.1 + 1 < max_stack_size
          → (code : List ℕ) (table : List F)
          → Agrees code w.stream (literal x g).stream.code_pos w.stream.code_pos
          → Holds w table
          → Faults code table (machine (literal x g).stream.code_pos (s.0, x ∷ s.1)))
      → (code : List ℕ) (table : List F)
      → Agrees code (put w op_add).stream g.stream.code_pos (put w op_add).stream.code_pos
      → Holds (put w op_add) table
      → Faults code table (machine g.stream.code_pos s)
  unfolding tell put emit emit_words
  sum-Faults x g w s exact h r grow fits rest code table agree holds =
      let on = Grows-put lit w op_add in
      let first = literal-Grows x g h in
      let whole = Grows-trans lit first grow in
      let p = g.stream.code_pos in
      let q = (literal x g).stream.code_pos in
      let end = w.stream.code_pos in
      let le1 = Grows-le lit first in
      let le2 = Grows-le lit grow in
      let r2 = whole.ready r in
      let before = Agrees-before code p end r2 on (omega arith) (
        Agrees-within code (put w op_add).stream p (end + 1) p end (omega arith) (omega arith)
          agree) in
      elim (Bool-cases (ltb (length s.1 + 1) max_stack_size)) [
        | inl e ↦
            let more : length s.1 + 1 < max_stack_size = ground arith in
            let does = load_number-Does num lit x g s exact h r more in
            later-Faults code table _ _
              (does.runs code table
                (Agrees-before code p q (first.ready r) grow (omega arith)
                  (Agrees-within code w.stream p end p q (omega arith) le2 before))
                (λ i y k. holds i y (grow.kept i y k)))
              (rest more code table
                (Agrees-within code w.stream p end q end le1 (omega arith) before) holds)
        | inr e ↦
            literal-Faults x g (put w op_add) s exact h r (Grows-trans lit grow on) e code table
              agree holds
      ]

  -- From stacks that are in bounds, the code of a sum of `k + 1` equal numbers without a sign writes
  -- beyond `floatStack` if the stack and the sum have 12 numbers or more together: on the empty
  -- stacks of a new frame, a sum of 12 numbers does.
  pub chain-Faults :
      (x : F) (k : ℕ) (g : Codegen F) (ip : ℕ) (s : Stacks F)
      → AreExact num lit
      → lit x
      → IsReady lit g
      → length s.1 < max_stack_size
      → max_stack_size ≤ length s.1 + k + 1
      → (code : List ℕ) (table : List F)
      → let u = (compile num (chain x k) g ip req_float).0 in
        Agrees code u.stream g.stream.code_pos u.stream.code_pos
        → Holds u table
        → Faults code table (machine g.stream.code_pos s)
  unfolding compile chain float_code
  chain-Faults x zero g ip s exact h r fits many code table =
      let full : ltb (length s.1 + 1) max_stack_size ≡ false = ground arith in
      literal-Faults x g (literal x g) s exact h r (Grows-refl lit (literal x g)) full code table
  chain-Faults x (suc k) g ip s exact h r fits many code table =
      let w = (compile num (chain x k) (literal x g) (tell (literal x g).stream) req_float).0 in
      rw (chain_code x k g ip h) (
        sum-Faults x g w s exact h r (chain-Grows x k (literal x g) _ h) fits
          (λ more.
            chain-Faults x k (literal x g) _ (s.0, x ∷ s.1) exact h ((literal-Grows x g h).ready r)
              (omega arith) (omega arith))
          code table)
