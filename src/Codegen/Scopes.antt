-- ===== src/Codegen/Scopes.antt =====
-- engine/console/astNodes.cc: what compiling an expression does to the scopes of the stream.
use korkscript.Prelude.{Bool, Bytes, Option, [], false, none, refl, some, true, ℕ, ◌==◌, ◌||◌}
use korkscript.Codegen.{
  Codegen, Compile, ExprNode, FloatOp, IntOp, Numbers, TypeReq, UnaryOp, commacat, conditional,
  float_binary, float_node, float_unary, int_binary, int_node, int_operand, int_unary, is_float,
  is_uint, op_and_then, op_or_else, other_node, req_float, req_string, req_typed_string, req_uint,
  strcat, streq, sub_type,
}
use korkscript.Codegen.Nodes.{
  add_number, add_result, add_text, arith_code, commacat_code, compile, conditional_code,
  emit_stack_conversion, float_binary_code, float_code, float_unary_code, int_binary_code, int_code,
  int_unary_code, load, load_typed, logic_code, number_code, number_of_text, put, put_at,
  strcat_code, streq_code, told,
}
use korkscript.Codegen.SameScopes.{
  KeepsScopes, SameScopes, SameScopes-refl, SameScopes-trans, if_SameScopes, same_scopes, then_both,
  then_convert, then_operation, then_patch, then_put,
}
use korkscript.Compiler.StringTable.{CompilerStringTable, add}
use korkscript.Opcodes.{
  op_advance_str, op_advance_str_appendchar, op_advance_str_comma, op_advance_str_nul,
  op_compare_str, op_flt_to_typed, op_jmp, op_jmpif_np, op_jmpifnot_np, op_loadimmed_flt,
  op_loadimmed_str, op_loadimmed_uint, op_neg, op_not, op_rewind_str, op_set_dynamic_type_to_null,
  op_str_to_flt, op_str_to_uint, op_typed_unary_op,
}

module _ {F : Type 0} where
  float_binary_code-KeepsScopes :
      (op : FloatOp) (a b : Bool) (l r : Compile F)
      → KeepsScopes l
      → KeepsScopes r
      → KeepsScopes (float_binary_code op a b l r)
  unfolding float_binary_code
  float_binary_code-KeepsScopes op a b l r kl kr g ip type =
      then_convert _ type
        (then_operation (a || b) b _ (then_both (a || b) _ r l ip kr kl (SameScopes-refl g)))

  arith_code-KeepsScopes :
      (op : ℕ) (sub : TypeReq) (a b : Bool) (l r : Compile F)
      → KeepsScopes l
      → KeepsScopes r
      → KeepsScopes (arith_code op sub a b l r)
  unfolding arith_code
  arith_code-KeepsScopes op sub a b l r kl kr g ip type =
      then_convert _ type
        (then_operation (a || b) b op (then_both (a || b) _ r l ip kr kl (SameScopes-refl g)))

  logic_code-KeepsScopes :
      (op : ℕ) (l r : Compile F) → KeepsScopes l → KeepsScopes r → KeepsScopes (logic_code op l r)
  unfolding logic_code put_at put
  logic_code-KeepsScopes op l r kl kr g ip type = then_convert req_uint type (
      then_patch _ _
        (SameScopes-trans (then_put 0 (then_put op (kl g ip req_uint))) (kr _ _ req_uint)))

  int_binary_code-KeepsScopes :
      (op : IntOp) (a b : Bool) (l r : Compile F)
      → KeepsScopes l
      → KeepsScopes r
      → KeepsScopes (int_binary_code op a b l r)
  int_binary_code-KeepsScopes op_or_else a b l r kl kr =
      logic_code-KeepsScopes op_jmpif_np l r kl kr
  int_binary_code-KeepsScopes op_and_then a b l r kl kr =
      logic_code-KeepsScopes op_jmpifnot_np l r kl kr
  int_binary_code-KeepsScopes op a b l r kl kr =
      arith_code-KeepsScopes (int_operand op) (sub_type op) a b l r kl kr

  conditional_code-KeepsScopes :
      (pref : TypeReq) (t x y : Compile F)
      → KeepsScopes t
      → KeepsScopes x
      → KeepsScopes y
      → KeepsScopes (conditional_code pref t x y)
  unfolding conditional_code put_at put
  conditional_code-KeepsScopes pref t x y kt kx ky g ip type =
      let first = SameScopes-trans (then_put 0 (then_put _ (kt g ip _))) (kx _ _ type) in
      then_patch _ _
        (SameScopes-trans (then_patch _ _ (then_put 0 (then_put op_jmp first))) (ky _ _ type))

  then_number_of_text :
      {g u : Codegen F} (type : TypeReq) → SameScopes g u → SameScopes g (number_of_text type u)
  unfolding number_of_text
  then_number_of_text type s =
      if_SameScopes (is_uint type) (then_put op_str_to_uint s)
        (if_SameScopes (is_float type) (then_put op_str_to_flt s) s)

  streq_code-KeepsScopes :
      (eq : Bool) (l r : Compile F)
      → KeepsScopes l
      → KeepsScopes r
      → KeepsScopes (streq_code eq l r)
  unfolding streq_code
  streq_code-KeepsScopes eq l r kl kr g ip type =
      let both =
        then_put op_compare_str (
          SameScopes-trans (then_put op_advance_str_nul (kl g ip req_string))
            (kr _ _ req_string)) in
      then_convert req_uint type (if_SameScopes eq both (then_put op_not both))

  strcat_code-KeepsScopes :
      (c : ℕ) (l r : Compile F) → KeepsScopes l → KeepsScopes r → KeepsScopes (strcat_code c l r)
  unfolding strcat_code
  strcat_code-KeepsScopes c l r kl kr g ip type =
      let left = kl g ip req_string in
      let apart =
        if_SameScopes (c == 0) (then_put op_advance_str left)
          (then_put c (then_put op_advance_str_appendchar left)) in
      then_number_of_text type (then_put op_rewind_str (SameScopes-trans apart (kr _ _ req_string)))

  commacat_code-KeepsScopes :
      (l r : Compile F) → KeepsScopes l → KeepsScopes r → KeepsScopes (commacat_code l r)
  unfolding commacat_code
  commacat_code-KeepsScopes l r kl kr g ip type = then_number_of_text type (
      then_put op_rewind_str
        (SameScopes-trans (then_put op_advance_str_comma (kl g ip req_string)) (kr _ _ req_string)))

  int_unary_code-KeepsScopes :
      (op : UnaryOp) (pref : TypeReq) (typed : Bool) (c : Compile F)
      → KeepsScopes c
      → KeepsScopes (int_unary_code op pref typed c)
  unfolding int_unary_code emit_stack_conversion
  int_unary_code-KeepsScopes op pref typed c k g ip type =
      let inner = k g ip _ in
      let result = then_put _ (if_SameScopes typed (then_put op_typed_unary_op inner) inner) in
      if_SameScopes _ result (then_put _ result)

  float_unary_code-KeepsScopes :
      (typed : Bool) (c : Compile F) → KeepsScopes c → KeepsScopes (float_unary_code typed c)
  unfolding float_unary_code
  float_unary_code-KeepsScopes typed c k g ip type =
      let inner = k g ip _ in
      then_convert _ type
        (then_put op_neg (if_SameScopes typed (then_put op_typed_unary_op inner) inner))

  add_number-SameScopes :
      (num : Numbers F) (x : F) (g : Codegen F) → SameScopes g (add_number num x g).0
  unfolding add_number
  add_number-SameScopes num x g = same_scopes refl refl refl refl refl

  add_text-SameScopes : (text : Bytes) (g : Codegen F) → SameScopes g (add_text text g).0
  unfolding add_text
  add_text-SameScopes text g =
      added (add g.strings (record { text = text; behind = [] }) true false)
    where
      added : (r : Option (CompilerStringTable × ℕ)) → SameScopes g (add_result g r).0
      added none = SameScopes-refl g
      added (some (t, i)) = same_scopes refl refl refl refl refl

  number_code-KeepsScopes :
      (num : Numbers F) (word : ℕ) (x : F) (text : Bytes)
      → KeepsScopes (λ g ip type. told (number_code num word x text g type))
  unfolding load load_typed
  number_code-KeepsScopes num word x text g ip req_uint =
      then_put word (then_put op_loadimmed_uint (SameScopes-refl g))
  number_code-KeepsScopes num word x text g ip req_string =
      then_put _ (then_put op_loadimmed_str (add_text-SameScopes text g))
  number_code-KeepsScopes num word x text g ip req_float =
      then_put _ (then_put op_loadimmed_flt (add_number-SameScopes num x g))
  number_code-KeepsScopes num word x text g ip req_typed_string = then_put op_flt_to_typed (
      then_put op_set_dynamic_type_to_null
        (then_put _ (then_put op_loadimmed_flt (add_number-SameScopes num x g))))
  number_code-KeepsScopes num word x text g ip _ = SameScopes-refl g

  -- The nodes that are not modelled leave the scopes.
  abbrev pub OthersKeep : ExprNode F → Type 0
  OthersKeep (int_node n) = Unit
  OthersKeep (float_node x) = Unit
  OthersKeep (conditional t a b) = OthersKeep t × OthersKeep a × OthersKeep b
  OthersKeep (float_binary op l r) = OthersKeep l × OthersKeep r
  OthersKeep (int_binary op l r) = OthersKeep l × OthersKeep r
  OthersKeep (streq l r eq) = OthersKeep l × OthersKeep r
  OthersKeep (strcat l r c) = OthersKeep l × OthersKeep r
  OthersKeep (commacat l r) = OthersKeep l × OthersKeep r
  OthersKeep (int_unary op e) = OthersKeep e
  OthersKeep (float_unary e) = OthersKeep e
  OthersKeep (other_node c t typed) = KeepsScopes c

  pub compile-KeepsScopes :
      (num : Numbers F) (e : ExprNode F) → OthersKeep e → KeepsScopes (compile num e)
  unfolding compile int_code float_code
  compile-KeepsScopes num (int_node n) h = number_code-KeepsScopes num n _ _
  compile-KeepsScopes num (float_node x) h = number_code-KeepsScopes num (num.to_unsigned x) x _
  compile-KeepsScopes num (conditional t a b) h =
      conditional_code-KeepsScopes _ _ _ _ (compile-KeepsScopes num t h.0)
        (compile-KeepsScopes num a h.1) (compile-KeepsScopes num b h.2)
  compile-KeepsScopes num (float_binary op l r) h =
      float_binary_code-KeepsScopes op _ _ _ _ (compile-KeepsScopes num l h.0)
        (compile-KeepsScopes num r h.1)
  compile-KeepsScopes num (int_binary op l r) h =
      int_binary_code-KeepsScopes op _ _ _ _ (compile-KeepsScopes num l h.0)
        (compile-KeepsScopes num r h.1)
  compile-KeepsScopes num (streq l r eq) h =
      streq_code-KeepsScopes eq _ _ (compile-KeepsScopes num l h.0) (compile-KeepsScopes num r h.1)
  compile-KeepsScopes num (strcat l r c) h =
      strcat_code-KeepsScopes c _ _ (compile-KeepsScopes num l h.0) (compile-KeepsScopes num r h.1)
  compile-KeepsScopes num (commacat l r) h =
      commacat_code-KeepsScopes _ _ (compile-KeepsScopes num l h.0) (compile-KeepsScopes num r h.1)
  compile-KeepsScopes num (int_unary op e) h =
      int_unary_code-KeepsScopes op _ _ _ (compile-KeepsScopes num e h)
  compile-KeepsScopes num (float_unary e) h =
      float_unary_code-KeepsScopes _ _ (compile-KeepsScopes num e h)
  compile-KeepsScopes num (other_node c t typed) h = h
