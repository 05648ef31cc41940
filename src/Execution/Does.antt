-- ===== src/Execution/Does.antt =====
-- engine/console/astNodes.cc and compiledEval.cc: pieces of code and what they do to the stacks when
-- the evaluator runs them.
use korkscript.Prelude.{List, arith, get_elem?, refl, some, ℕ, ◌+◌, ◌∙◌, ◌≡◌}
use korkscript.Codegen.{Codegen, Numbers}
use korkscript.Codegen.Nodes.{load, put}
use korkscript.Compiler.CodeStream.{emit, emit_words}
use korkscript.Evaluator.{Machine, Runs, goes_on, here, next, run_opcode, step}
use korkscript.Execution.Code.{Agrees, Agrees-before, Agrees-put, Agrees-within}
use korkscript.Execution.Growth.{Grows, Grows-le, Grows-put, Grows-refl, Grows-trans, IsReady}

-- The stacks of integers and of floats.
abbrev pub Stacks : Type 0 → Type 0
Stacks F = List ℕ × List F

abbrev pub machine : {F : Type 0} → ℕ → Stacks F → Machine F
machine p s = record { ip = p; ints = s.0; floats = s.1 }

module _ {F : Type 0} (num : Numbers F) where
  pub Runs-trans :
      {code : List ℕ} {table : List F} {m n o : Machine F}
      → Runs num code table m n
      → Runs num code table n o
      → Runs num code table m o
  Runs-trans a here = a
  Runs-trans a (next b e) = next (Runs-trans a b) e

  pub step_lem :
      (code : List ℕ) (table : List F) (p op : ℕ) (s : Stacks F)
      → get_elem? code p ≡ some op
      → step num code table (machine p s) ≡ run_opcode num op code table (machine (p + 1) s)
  unfolding step
  step_lem code table p op s h = rw h refl

  pub one_step :
      (code : List ℕ) (table : List F) (p op : ℕ) (s : Stacks F) (o : Machine F)
      → get_elem? code p ≡ some op
      → run_opcode num op code table (machine (p + 1) s) ≡ goes_on o
      → Runs num code table (machine p s) o
  one_step code table p op s o h k = next here (step_lem code table p op s h ∙ k)

-- The numbers of a table are in another one, where they are.
abbrev pub Holds : {F : Type 0} → Codegen F → List F → Type 0
Holds {F} g table =
    (i : ℕ) (x : F) → get_elem? g.floats.list i ≡ some x → get_elem? table i ≡ some x

module _ {F : Type 0} (num : Numbers F) (lit : F → Type 0) where
  -- The code from `g` to `u` takes the stacks from `s` to `t`, wherever it stands in a larger program
  -- that agrees with it.
  pub record Does (g u : Codegen F) (s t : Stacks F) : Type 0 where
    pub grows : Grows lit g u
    pub runs :
        (code : List ℕ) (table : List F)
        → Agrees code u.stream g.stream.code_pos u.stream.code_pos
        → Holds u table
        → Runs num code table (machine g.stream.code_pos s) (machine u.stream.code_pos t)

  pub Does-trans :
      {g u w : Codegen F} {s t z : Stacks F}
      → IsReady lit g
      → Does g u s t
      → Does u w t z
      → Does g w s z
  Does-trans {g} {u} {w} r a b = record {
    grows = Grows-trans lit a.grows b.grows;
    runs = λ code table agree holds.
        let first = Grows-le lit a.grows in
        let second = Grows-le lit b.grows in
        let from = g.stream.code_pos in
        let mid = u.stream.code_pos in
        let to = w.stream.code_pos in
        Runs-trans num
          (a.runs code table
            (Agrees-before code from mid (a.grows.ready r) b.grows (omega arith)
              (Agrees-within code w.stream from to from mid (omega arith) second agree))
            (λ i x h. holds i x (b.grows.kept i x h)))
          (b.runs code table (Agrees-within code w.stream from to mid to first (omega arith) agree)
            holds);
  }

  -- Nothing was written.
  pub Does-refl : (g : Codegen F) (s : Stacks F) → Does g g s s
  Does-refl g s = record { grows = Grows-refl lit g; runs = λ code table agree holds. here }

  -- An opcode with no operand.
  pub put-Does :
      (g : Codegen F) (op : ℕ) (s t : Stacks F)
      → IsReady lit g
      → ((code : List ℕ) (table : List F) (q : ℕ)
          → run_opcode num op code table (machine q s) ≡ goes_on (machine q t))
      → Does g (put g op) s t
  unfolding put emit emit_words
  put-Does g op s t r f = record {
    grows = Grows-put lit g op;
    runs = λ code table agree holds.
        one_step num code table g.stream.code_pos op s (machine (g.stream.code_pos + 1) t)
          (Agrees-put g code op g.stream.code_pos r (omega arith) agree)
          (f code table (g.stream.code_pos + 1));
  }

  -- An opcode with an operand.
  pub load-Does :
      (g : Codegen F) (op k : ℕ) (s t : Stacks F)
      → IsReady lit g
      → ((code : List ℕ) (table : List F) (q : ℕ)
          → get_elem? code q ≡ some k
          → Holds g table
          → run_opcode num op code table (machine q s) ≡ goes_on (machine (q + 1) t))
      → Does g (load op (g, k)) s t
  unfolding load put emit emit_words
  load-Does g op k s t r f = record {
    grows = Grows-trans lit (Grows-put lit g op) (Grows-put lit (put g op) k);
    runs = λ code table agree holds.
        let p = g.stream.code_pos in
        let r1 = (Grows-put lit g op).ready r in
        let word = Agrees-put (put g op) code k p r1 (omega arith) agree in
        let first = Agrees-before code p (p + 1) r1 (Grows-put lit (put g op) k) (omega arith) (
          Agrees-within code (put (put g op) k).stream p (p + 1 + 1) p (p + 1) (omega arith)
            (omega arith) agree) in
        one_step num code table p op s (machine (p + 1 + 1) t)
          (Agrees-put g code op p r (omega arith) first) (f code table (p + 1) word holds);
  }
