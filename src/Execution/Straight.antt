-- ===== src/Execution/Straight.antt =====
-- engine/console/astNodes.cc: the nodes whose code has no jump.
use korkscript.Prelude.{Bool, arith, false, max, refl, true, ℕ, ◌+◌, ◌||◌, ◌≡◌, ◌≤◌}
use korkscript.Codegen.{
  Codegen, Compile, FloatOp, IntOp, Numbers, TypeReq, UnaryOp, float_operand, int_operand, is_uint,
  req_float, req_uint, sub_type,
}
use korkscript.Codegen.Nodes.{
  arith_code, both_sides, convert, float_binary_code, float_unary_code, int_unary_code, put,
  unary_integer, unary_operand,
}
use korkscript.Compiler.CodeStream.{tell}
use korkscript.Execution.{
  IsPlain, float_result, int_result, of_float, of_int, operand_type, unary_result,
}
use korkscript.Execution.Does.{Does, Does-trans, Stacks, put-Does}
use korkscript.Execution.Growth.{IsReady}
use korkscript.Execution.Opcode.{
  Room, Room-push, convert_float-Does, convert_uint-Does, float_operand-Operates,
  int_operand-Operates, is_arith, neg-Operates, push, unary_operand-Operates,
}
use korkscript.Opcodes.{op_neg}

module _ {F : Type 0} (num : Numbers F) (lit : F → Type 0) where
  -- The code that a node compiles to leaves its value on the stack of the type that is asked for,
  -- and says where it ends.
  abbrev pub Computes : Compile F → ℕ → ℕ × F → TypeReq → Type 0
  Computes c n v type =
      (g : Codegen F) (ip : ℕ) (s : Stacks F)
      → IsReady lit g
      → Room n s
      → Does num lit g (c g ip type).0 s (push type v s)
        × ((c g ip type).1 ≡ (c g ip type).0.stream.code_pos)

  pub float_binary-Computes :
      (op : FloatOp) (l r : Compile F) (n m : ℕ) (a b : ℕ × F) (type : TypeReq)
      → IsPlain type
      → 1 ≤ n
      → Computes l n a req_float
      → Computes r m b req_float
      → Computes
          (float_binary_code op false false l r)
          (max m (n + 1))
          (of_float num (float_result num op a.1 b.1))
          type
  unfolding float_binary_code both_sides tell
  float_binary-Computes op l r n m a b type p enough cl cr g ip s rdy room =
      let x = float_result num op a.1 b.1 in
      let right = (cr g ip s rdy (omega arith)).0 in
      let u = r g ip req_float in
      let rdy1 = right.grows.ready rdy in
      let left = (cl u.0 u.1 (push req_float b s) rdy1 (omega arith)).0 in
      let w = (l u.0 u.1 req_float).0 in
      let rdy2 = left.grows.ready rdy1 in
      let oper =
        put-Does num lit w (float_operand op) _ _ rdy2 (float_operand-Operates num op a b s) in
      let rdy3 = oper.grows.ready rdy2 in
      let conv =
        convert_float-Does num lit (put w (float_operand op)) x type s p (omega arith) rdy3 in
      (
        Does-trans num lit rdy right
            (Does-trans num lit rdy1 left (Does-trans num lit rdy2 oper conv)),
        refl,
      )

  pub arith-Computes :
      (op : IntOp) (l r : Compile F) (n m : ℕ) (a b : ℕ × F) (type : TypeReq)
      → IsPlain type
      → is_arith op ≡ true
      → 1 ≤ n
      → Computes l n a (sub_type op)
      → Computes r m b (sub_type op)
      → Computes
          (arith_code (int_operand op) (sub_type op) false false l r)
          (max m (n + 1))
          (of_int num (int_result num op a b))
          type
  unfolding arith_code both_sides tell
  arith-Computes op l r n m a b type p e enough cl cr g ip s rdy room =
      let sub = sub_type op in
      let x = int_result num op a b in
      let right = (cr g ip s rdy (omega arith)).0 in
      let u = r g ip sub in
      let rdy1 = right.grows.ready rdy in
      let left = (cl u.0 u.1 (push sub b s) rdy1 (Room-push sub b s n (omega arith))).0 in
      let w = (l u.0 u.1 sub).0 in
      let rdy2 = left.grows.ready rdy1 in
      let oper =
        put-Does num lit w (int_operand op) _ _ rdy2
          (int_operand-Operates num op a b s e (omega arith)) in
      let rdy3 = oper.grows.ready rdy2 in
      let conv = convert_uint-Does num lit (put w (int_operand op)) x type s p (omega arith) rdy3 in
      (
        Does-trans num lit rdy right
            (Does-trans num lit rdy1 left (Does-trans num lit rdy2 oper conv)),
        refl,
      )

  -- A unary operation, of an operand of the type that it takes.
  unary_at :
      (op : UnaryOp) (pref : TypeReq) (c : Compile F) (n : ℕ) (v : ℕ × F) (type : TypeReq)
      (integer : Bool)
      → unary_integer op pref ≡ integer
      → IsPlain type
      → 1 ≤ n
      → (integer || is_uint type) ≡ true
      → Computes c n v (operand_type integer)
      → Computes
          (int_unary_code op pref false c)
          n
          (of_int num (unary_result num op integer v))
          type
  unfolding int_unary_code tell convert
  unary_at op pref c n v type true e p enough fits inner g ip s rdy room =
      let x = unary_result num op true v in
      let first = (inner g ip s rdy room).0 in
      let rdy1 = first.grows.ready rdy in
      let w = (c g ip req_uint).0 in
      let oper =
        put-Does num lit w (unary_operand op true) _ _ rdy1
          (rw e at (unary_operand-Operates num op pref v s (omega arith))) in
      let rdy2 = oper.grows.ready rdy1 in
      let conv =
        convert_uint-Does num lit (put w (unary_operand op true)) x type s p (omega arith) rdy2 in
      rw e (Does-trans num lit rdy first (Does-trans num lit rdy1 oper conv), refl)
  unary_at op pref c n v req_uint false e p enough fits inner g ip s rdy room =
      let x = unary_result num op false v in
      let first = (inner g ip s rdy room).0 in
      let rdy1 = first.grows.ready rdy in
      let w = (c g ip req_float).0 in
      let oper =
        put-Does num lit w (unary_operand op false) _ _ rdy1
          (rw e at (unary_operand-Operates num op pref v s (omega arith))) in
      rw e (Does-trans num lit rdy first oper, refl)
  unary_at op pref c n v req_float false e p enough fits inner g ip s rdy room =
      absurd (ground arith)
  unary_at op pref c n v _ false e p enough fits inner g ip s rdy room = absurd (ground arith)

  pub int_unary-Computes :
      (op : UnaryOp) (pref : TypeReq) (c : Compile F) (n : ℕ) (v : ℕ × F) (type : TypeReq)
      → IsPlain type
      → 1 ≤ n
      → (unary_integer op pref || is_uint type) ≡ true
      → Computes c n v (operand_type (unary_integer op pref))
      → Computes
          (int_unary_code op pref false c)
          n
          (of_int num (unary_result num op (unary_integer op pref) v))
          type
  int_unary-Computes op pref c n v type = unary_at op pref c n v type (unary_integer op pref) refl

  pub float_unary-Computes :
      (c : Compile F) (n : ℕ) (v : ℕ × F) (type : TypeReq)
      → IsPlain type
      → 1 ≤ n
      → Computes c n v req_float
      → Computes (float_unary_code false c) n (of_float num (num.neg_float v.1)) type
  unfolding float_unary_code tell
  float_unary-Computes c n v type p enough inner g ip s rdy room =
      let first = (inner g ip s rdy room).0 in
      let rdy1 = first.grows.ready rdy in
      let w = (c g ip req_float).0 in
      let oper = put-Does num lit w op_neg _ _ rdy1 (neg-Operates num v s) in
      let rdy2 = oper.grows.ready rdy1 in
      let conv =
        convert_float-Does num lit (put w op_neg) (num.neg_float v.1) type s p (omega arith) rdy2 in
      (Does-trans num lit rdy first (Does-trans num lit rdy1 oper conv), refl)
