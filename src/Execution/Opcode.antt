-- ===== src/Execution/Opcode.antt =====
-- engine/console/compiledEval.cc: single opcodes on stacks with room.
use korkscript.Prelude.{
  Bool, List, arith, false, if◌then◌else◌, length, lt→ltb, not, refl, true, ℕ, ◌+◌, ◌<◌, ◌==◌, ◌∷◌,
  ◌≡◌,
}
use korkscript.Codegen.{
  Codegen, FloatOp, IntOp, Numbers, TypeReq, UnaryOp, conversion_op, float_operand, int_operand,
  op_and_then, op_eq, op_ge, op_le, op_left, op_ne, op_or_else, op_right, pchar_ampersand,
  pchar_asterisk, pchar_caret, pchar_excl, pchar_greater, pchar_less, pchar_minus, pchar_percent,
  pchar_pipe, pchar_plus, pchar_slash, pchar_tilde, req_float, req_none, req_uint, sub_type,
}
use korkscript.Codegen.Nodes.{convert, emit_stack_conversion, unary_integer, unary_operand}
use korkscript.Evaluator.{goes_on, max_stack_size, run_opcode}
use korkscript.Execution.{
  IsPlain, float_result, int_result, of_float, of_int, operand_type, unary_result,
}
use korkscript.Execution.Does.{Does, Does-refl, Stacks, machine, put-Does}
use korkscript.Execution.Growth.{IsReady}
use korkscript.Opcodes.{op_flt_to_none, op_flt_to_uint, op_neg, op_uint_to_flt, op_uint_to_none}

abbrev pub push : {F : Type 0} → TypeReq → ℕ × F → Stacks F → Stacks F
push req_uint v s = (v.0 ∷ s.0, s.1)
push req_float v s = (s.0, v.1 ∷ s.1)
push _ v s = s

-- That many cells are free on both stacks; the first cell of each is never used.
abbrev pub Room : {F : Type 0} → ℕ → Stacks F → Type 0
Room n s = (length s.0 + n < max_stack_size) × (length s.1 + n < max_stack_size)

-- The comparisons and the operations on integers.
abbrev pub is_arith : IntOp → Bool
is_arith op_or_else = false
is_arith op_and_then = false
is_arith _ = true

pub Room-push :
    {F : Type 0} (type : TypeReq) (v : ℕ × F) (s : Stacks F) (n : ℕ)
    → Room (n + 1) s
    → Room n (push type v s)
Room-push req_uint v s n h = omega arith
Room-push req_float v s n h = omega arith
Room-push _ v s n h = omega arith

module _ {F : Type 0} (num : Numbers F) where
  -- The opcode takes the stacks from `s` to `t` and reads no operand.
  abbrev pub Operates : ℕ → Stacks F → Stacks F → Type 0
  Operates op s t =
      (code : List ℕ) (table : List F) (q : ℕ)
      → run_opcode num op code table (machine q s) ≡ goes_on (machine q t)

  pub float_operand-Operates :
      (op : FloatOp) (a b : ℕ × F) (s : Stacks F)
      → Operates
          (float_operand op)
          (push req_float a (push req_float b s))
          (push req_float (of_float num (float_result num op a.1 b.1)) s)
  unfolding run_opcode float_operand
  float_operand-Operates pchar_plus a b s code table q = refl
  float_operand-Operates pchar_minus a b s code table q = refl
  float_operand-Operates pchar_slash a b s code table q = refl
  float_operand-Operates pchar_asterisk a b s code table q = refl
  float_operand-Operates pchar_percent a b s code table q = refl

  flip : (b : Bool) → (if not b then 1 else 0) ≡ (let r : ℕ = if b then 0 else 1 in r)
  flip true = refl
  flip false = refl

  pub int_operand-Operates :
      (op : IntOp) (a b : ℕ × F) (s : Stacks F)
      → is_arith op ≡ true
      → Room 1 s
      → Operates
          (int_operand op)
          (push (sub_type op) a (push (sub_type op) b s))
          (push req_uint (of_int num (int_result num op a b)) s)
  unfolding run_opcode int_operand sub_type
  int_operand-Operates pchar_caret a b s e room code table q = refl
  int_operand-Operates pchar_ampersand a b s e room code table q = refl
  int_operand-Operates pchar_pipe a b s e room code table q = refl
  int_operand-Operates pchar_less a b s e room code table q = rw (lt→ltb _ _ room.0) refl
  int_operand-Operates pchar_greater a b s e room code table q = rw (lt→ltb _ _ room.0) refl
  int_operand-Operates op_ge a b s e room code table q = rw (lt→ltb _ _ room.0) refl
  int_operand-Operates op_le a b s e room code table q = rw (lt→ltb _ _ room.0) refl
  int_operand-Operates op_eq a b s e room code table q = rw (lt→ltb _ _ room.0) refl
  int_operand-Operates op_ne a b s e room code table q =
      rw (lt→ltb _ _ room.0, flip (num.eq_float a.1 b.1)) refl
  int_operand-Operates op_or_else a b s e room code table q = cc
  int_operand-Operates op_and_then a b s e room code table q = cc
  int_operand-Operates op_right a b s e room code table q = refl
  int_operand-Operates op_left a b s e room code table q = refl

  flop : (b : Bool) → (if b then 1 else 0) ≡ (let r : ℕ = if not b then 0 else 1 in r)
  flop true = refl
  flop false = refl

  excl-Operates :
      (integer : Bool) (v : ℕ × F) (s : Stacks F)
      → Room 1 s
      → Operates
          (unary_operand pchar_excl integer)
          (push (operand_type integer) v s)
          (push req_uint (of_int num (unary_result num pchar_excl integer v)) s)
  unfolding run_opcode unary_operand
  excl-Operates true v s room code table q = rw (flop (v.0 == 0)) refl
  excl-Operates false v s room code table q =
      rw (lt→ltb _ _ room.0, flop (num.eq_float v.1 num.zero_float)) refl

  pub unary_operand-Operates :
      (op : UnaryOp) (pref : TypeReq) (v : ℕ × F) (s : Stacks F)
      → Room 1 s
      → Operates
          (unary_operand op (unary_integer op pref))
          (push (operand_type (unary_integer op pref)) v s)
          (push req_uint (of_int num (unary_result num op (unary_integer op pref) v)) s)
  unfolding run_opcode unary_operand unary_integer
  unary_operand-Operates pchar_excl pref v s room code table q =
      excl-Operates (unary_integer pchar_excl pref) v s room code table q
  unary_operand-Operates pchar_tilde pref v s room code table q = refl

  pub neg-Operates :
      (v : ℕ × F) (s : Stacks F)
      → Operates op_neg (push req_float v s) (push req_float (of_float num (num.neg_float v.1)) s)
  unfolding run_opcode
  neg-Operates v s code table q = refl

  module _ (lit : F → Type 0) where
    -- The conversion of a float to what is asked for.
    pub convert_float-Does :
        (g : Codegen F) (x : F) (type : TypeReq) (s : Stacks F)
        → IsPlain type
        → Room 1 s
        → IsReady lit g
        → Does num lit g
            (convert req_float type g)
            (push req_float (of_float num x) s)
            (push type (of_float num x) s)
    unfolding convert emit_stack_conversion conversion_op run_opcode
    convert_float-Does g x req_none s p room r =
        put-Does num lit g op_flt_to_none _ _ r (λ code table q. refl)
    convert_float-Does g x req_uint s p room r =
        put-Does num lit g op_flt_to_uint _ _ r (λ code table q. rw (lt→ltb _ _ room.0) refl)
    convert_float-Does g x req_float s p room r = Does-refl num lit g _
    convert_float-Does g x _ s p room r = elim p [ ]

    pub convert_uint-Does :
        (g : Codegen F) (n : ℕ) (type : TypeReq) (s : Stacks F)
        → IsPlain type
        → Room 1 s
        → IsReady lit g
        → Does num lit g
            (convert req_uint type g)
            (push req_uint (of_int num n) s)
            (push type (of_int num n) s)
    unfolding convert emit_stack_conversion conversion_op run_opcode
    convert_uint-Does g n req_none s p room r =
        put-Does num lit g op_uint_to_none _ _ r (λ code table q. refl)
    convert_uint-Does g n req_float s p room r =
        put-Does num lit g op_uint_to_flt _ _ r (λ code table q. rw (lt→ltb _ _ room.1) refl)
    convert_uint-Does g n req_uint s p room r = Does-refl num lit g _
    convert_uint-Does g n _ s p room r = elim p [ ]
