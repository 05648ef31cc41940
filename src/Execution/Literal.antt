-- ===== src/Execution/Literal.antt =====
-- engine/console/astNodes.cc: `IntNode` and `FloatNode`, and the table of numbers.
use korkscript.Prelude.{
  Bytes, Option, [], ap, append-nil, arith, get_elem?, get_elem?-append, inl, inr, length, lt→ltb,
  none, passing, refl, some, sym, true, ℕ, ◌+◌, ◌<◌, ◌∙◌, ◌∷◌, ◌≡◌,
}
use korkscript.Codegen.{Codegen, Numbers, TypeReq, req_float, req_none, req_uint}
use korkscript.Codegen.Nodes.{add_number, load, number_code, told}
use korkscript.Compiler.CodeStream.{tell}
use korkscript.Compiler.FloatTable.{
  CompilerFloatTable, add_at, add_float, add_float-AddsFloat, find_float,
}
use korkscript.Evaluator.{here, max_stack_size, run_opcode}
use korkscript.Execution.{IsPlain}
use korkscript.Execution.Does.{Does, Does-refl, Does-trans, Stacks, load-Does}
use korkscript.Execution.Growth.{All, All-append, All-get, Grows, IsReady}
use korkscript.Execution.Straight.{Computes}
use korkscript.Opcodes.{op_loadimmed_flt, op_loadimmed_uint}

-- Literals that compare equal are the same number. Of the numbers that a source can write none is
-- negative or a NaN, and 0.0 equals only itself among them.
abbrev pub AreExact : {F : Type 0} → Numbers F → (F → Type 0) → Type 0
AreExact {F} num lit = (a b : F) → lit a → lit b → num.eq_float a b ≡ true → a ≡ b

module _ {F : Type 0} (num : Numbers F) (lit : F → Type 0) where
  add_float-All :
      (t : CompilerFloatTable F) (value : F)
      → All lit t.list
      → lit value
      → All lit (add_float num.eq_float t value).0.list
  unfolding add_float
  add_float-All t value h k = at (find_float num.eq_float value t.list)
    where
      at : (r : Option ℕ) → All lit (add_at t value r).0.list
      at none = All-append lit t.list value h k
      at (some i) = h

  add_float-kept :
      (t : CompilerFloatTable F) (value : F) (i : ℕ) (x : F)
      → get_elem? t.list i ≡ some x
      → get_elem? (add_float num.eq_float t value).0.list i ≡ some x
  unfolding add_float
  add_float-kept t value i x h = at (find_float num.eq_float value t.list)
    where
      at : (r : Option ℕ) → get_elem? (add_at t value r).0.list i ≡ some x
      at none = get_elem?-append t.list (value ∷ []) i x h
      at (some k) = h

  pub add_number-Grows :
      (g : Codegen F) (value : F) → lit value → Grows lit g (add_number num value g).0
  unfolding add_number
  add_number-Grows g value k = record {
    words = [];
    more = [];
    code = sym (append-nil _);
    pos = omega arith;
    list = sym (append-nil _);
    later = tt;
    calls = refl;
    kept = add_float-kept g.floats value;
    ready = λ r. record {
      reach = r.reach;
      counted = (add_float-AddsFloat num.eq_float g.floats value r.counted).counted;
      literals = add_float-All g.floats value r.literals k;
    };
  }

  -- The index that comes back leads to the number.
  pub add_number-lem :
      (g : Codegen F) (value : F)
      → AreExact num lit
      → lit value
      → IsReady lit g
      → let (u, k) = add_number num value g in get_elem? u.floats.list k ≡ some value
  unfolding add_number
  add_number-lem g value exact k r =
      let added = add_float-AddsFloat num.eq_float g.floats value r.counted in
      elim added.found [
        | inl (passing x e p) ↦
            let all = add_float-All g.floats value r.literals k in
            let same = exact value x k (All-get lit _ _ x all e) p in e ∙ ap some (sym same)
        | inr e ↦ e
      ]

  add_number-Does :
      (g : Codegen F) (value : F) (s : Stacks F)
      → lit value
      → Does num lit g (add_number num value g).0 s s
  unfolding add_number
  add_number-Does g value s k = record {
    grows = add_number-Grows g value k;
    runs = λ code table agree holds. here;
  }

  pub load_number-Does :
      (value : F) (g : Codegen F) (s : Stacks F)
      → AreExact num lit
      → lit value
      → IsReady lit g
      → length s.1 + 1 < max_stack_size
      → Does num lit g (load op_loadimmed_flt (add_number num value g)) s (s.0, value ∷ s.1)
  unfolding run_opcode
  load_number-Does value g s exact k r more =
      let u = add_number num value g in
      let grows = add_number-Grows g value k in
      let found = add_number-lem g value exact k r in
      Does-trans num lit r (add_number-Does g value s k) (
        load-Does num lit u.0 op_loadimmed_flt u.1 s (s.0, value ∷ s.1) (grows.ready r)
          (λ code table q e holds. rw (e, holds u.1 value found, lt→ltb _ _ more) refl))

  -- A number of a source: the word and the entry of the table are its value.
  pub number-Computes :
      (word : ℕ) (value : F) (text : Bytes) (type : TypeReq)
      → IsPlain type
      → AreExact num lit
      → lit value
      → Computes num lit (λ g ip t. told (number_code num word value text g t)) 1 (word, value) type
  unfolding tell run_opcode
  number-Computes word value text req_none p exact k g ip s r room = (Does-refl num lit g s, refl)
  number-Computes word value text req_uint p exact k g ip s r room = (
    load-Does num lit g op_loadimmed_uint word s (word ∷ s.0, s.1) r
        (λ code table q e holds. rw (e, lt→ltb _ _ room.0) refl),
    refl,
  )
  number-Computes word value text req_float p exact k g ip s r room =
      (load_number-Does value g s exact k r (omega arith), refl)
  number-Computes word value text _ p exact k g ip s r room = elim p [ ]
