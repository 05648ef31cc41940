-- ===== src/Codegen/Nodes.antt =====
-- engine/console/astNodes.cc: `compile` of each node, from the functions of its children.
use korkscript.Prelude.{
  Bool, Bytes, Option, [], false, if◌then◌else◌, ltb, none, some, true, ℕ, ◌+◌, ◌-◌, ◌==◌, ◌^◌,
  ◌||◌,
}
use korkscript.Codegen.{
  Codegen, Compile, ExprNode, FloatOp, IntOp, Numbers, TypeReq, UnaryOp, can_be_typed, commacat,
  conditional, conversion_op, float_binary, float_node, float_operand, float_unary,
  get_preferred_type, int_binary, int_node, int_operand, int_unary, is_float, is_uint, op_and_then,
  op_or_else, other_node, pchar_excl, pchar_tilde, req_float, req_string, req_typed_string,
  req_uint, same_req, strcat, streq, sub_type,
}
use korkscript.Compiler.CodeStream.{emit, patch, tell}
use korkscript.Compiler.FloatTable.{add_float}
use korkscript.Compiler.StringTable.{CompilerStringTable, add}
use korkscript.Evaluator.{jump}
use korkscript.Opcodes.{
  op_advance_str, op_advance_str_appendchar, op_advance_str_comma, op_advance_str_nul,
  op_compare_str, op_flt_to_typed, op_jmp, op_jmpif_np, op_jmpiffnot, op_jmpifnot, op_jmpifnot_np,
  op_loadimmed_flt, op_loadimmed_str, op_loadimmed_uint, op_neg, op_not, op_notf, op_onescomplement,
  op_push_typed, op_rewind_str, op_set_dynamic_type_to_null, op_str_to_flt, op_str_to_uint,
  op_typed_op, op_typed_op_reverse, op_typed_unary_op,
}

-- `!` of a number with a fraction, or of a text, is taken of a float.
unfoldable pub unary_integer : UnaryOp → TypeReq → Bool
unary_integer pchar_excl req_float = false
unary_integer pchar_excl req_string = false
unary_integer pchar_excl req_typed_string = false
unary_integer _ _ = true

unfoldable pub unary_operand : UnaryOp → Bool → ℕ
unary_operand pchar_excl integer = if integer then op_not else op_notf
unary_operand pchar_tilde integer = op_onescomplement

-- An `S32` as an `S64`.
unfoldable pub sign_extend : ℕ → ℕ
sign_extend n = if ltb n (2 ^ 31) then n else n + (2 ^ 64 - 2 ^ 32)

module _ {F : Type 0} where
  -- `codeStream.emit`, without and with the position of the word.
  unfoldable pub put : Codegen F → ℕ → Codegen F
  put g word = record g { stream = (emit g.stream word).0 }

  unfoldable pub put_at : Codegen F → ℕ → Codegen F × ℕ
  put_at g word = (record g { stream = (emit g.stream word).0 }, (emit g.stream word).1)

  unfoldable pub patch_to : Codegen F → ℕ → ℕ → Codegen F
  patch_to g addr word = record g { stream = patch g.stream addr word }

  -- The node returns where the stream ends.
  abbrev pub told : Codegen F → Codegen F × ℕ
  told g = (g, tell g.stream)

  unfoldable pub emit_stack_conversion : Codegen F → TypeReq → TypeReq → Codegen F
  emit_stack_conversion g from to = put g (conversion_op from to)

  -- The conversion where the node leaves another type than it is asked for.
  unfoldable pub convert : TypeReq → TypeReq → Codegen F → Codegen F
  convert from to g = if same_req from to then g else emit_stack_conversion g from to

  unfoldable pub conditional_code : TypeReq → Compile F → Compile F → Compile F → Compile F
  conditional_code test_type test on_true on_false g ip type =
      let integer = is_uint test_type in
      let (g1, ip1) = test g ip (if integer then req_uint else req_float) in
      let g2 = put g1 (if integer then op_jmpifnot else op_jmpiffnot) in
      let (g3, jump_else_ip) = put_at g2 0 in
      let (g4, ip4) = on_true g3 ip1 type in
      let g5 = put g4 op_jmp in
      let (g6, jump_end_ip) = put_at g5 0 in
      let g7 = patch_to g6 jump_else_ip (tell g6.stream) in
      let (g8, ip8) = on_false g7 ip4 type in told (patch_to g8 jump_end_ip (tell g8.stream))

  -- Both sides, the right one first. Where one of them may be typed the right value is pushed.
  unfoldable pub both_sides : Bool → TypeReq → Compile F → Compile F → Codegen F → ℕ → Codegen F
  both_sides typed side right left g ip =
      let (g1, ip1) = right g ip side in
      let g2 = if typed then put g1 op_push_typed else g1 in (left g2 ip1 side).0

  -- The operation on typed values.
  unfoldable pub typed_operation : Bool → ℕ → Codegen F → Codegen F
  typed_operation right_typed operand g =
      put (put g (if right_typed then op_typed_op else op_typed_op_reverse)) operand

  unfoldable pub float_binary_code : FloatOp → Bool → Bool → Compile F → Compile F → Compile F
  float_binary_code op left_typed right_typed left right g ip type =
      let typed = left_typed || right_typed in
      let output = if typed then req_typed_string else req_float in
      let g1 = both_sides typed output right left g ip in
      let g2 =
        if typed
        then typed_operation right_typed (float_operand op) g1
        else put g1 (float_operand op) in
      told (convert output type g2)

  -- `||` and `&&`: the right side is skipped by a jump that leaves the left value.
  unfoldable pub logic_code : ℕ → Compile F → Compile F → Compile F
  logic_code jump left right g ip type =
      let (g1, ip1) = left g ip req_uint in
      let (g3, jmp_ip) = put_at (put g1 jump) 0 in
      let (g4, ip4) = right g3 ip1 req_uint in told (convert req_uint type (patch_to g4 jmp_ip ip4))

  unfoldable pub arith_code : ℕ → TypeReq → Bool → Bool → Compile F → Compile F → Compile F
  arith_code operand sub left_typed right_typed left right g ip type =
      let typed = left_typed || right_typed in
      let g1 = both_sides typed (if typed then req_typed_string else sub) right left g ip in
      let g2 = if typed then typed_operation right_typed operand g1 else put g1 operand in
      told (convert (if typed then req_typed_string else req_uint) type g2)

  abbrev pub int_binary_code : IntOp → Bool → Bool → Compile F → Compile F → Compile F
  int_binary_code op_or_else lt rt left right = logic_code op_jmpif_np left right
  int_binary_code op_and_then lt rt left right = logic_code op_jmpifnot_np left right
  int_binary_code op lt rt left right = arith_code (int_operand op) (sub_type op) lt rt left right

  -- Texts: the left one is pushed on the string stack, then the right one.
  unfoldable pub streq_code : Bool → Compile F → Compile F → Compile F
  streq_code eq left right g ip type =
      let (g1, ip1) = left g ip req_string in
      let (g2, ip2) = right (put g1 op_advance_str_nul) ip1 req_string in
      let g3 = put g2 op_compare_str in
      let g4 = if eq then g3 else put g3 op_not in told (convert req_uint type g4)

  unfoldable pub number_of_text : TypeReq → Codegen F → Codegen F
  number_of_text type g =
      if is_uint type
      then put g op_str_to_uint
      else if is_float type
      then put g op_str_to_flt
      else g

  unfoldable pub strcat_code : ℕ → Compile F → Compile F → Compile F
  strcat_code append_char left right g ip type =
      let (g1, ip1) = left g ip req_string in
      let g2 =
        if append_char == 0
        then put g1 op_advance_str
        else put (put g1 op_advance_str_appendchar) append_char in
      let (g3, ip3) = right g2 ip1 req_string in told (number_of_text type (put g3 op_rewind_str))

  unfoldable pub commacat_code : Compile F → Compile F → Compile F
  commacat_code left right g ip type =
      let (g1, ip1) = left g ip req_string in
      let (g2, ip2) = right (put g1 op_advance_str_comma) ip1 req_string in
      told (number_of_text type (put g2 op_rewind_str))

  -- The conversion is from the type of the operand, not from that of the result.
  unfoldable pub int_unary_code : UnaryOp → TypeReq → Bool → Compile F → Compile F
  int_unary_code op pref typed operand g ip type =
      let integer = unary_integer op pref in
      let output = if typed then req_typed_string else if integer then req_uint else req_float in
      let post = if typed then req_typed_string else req_uint in
      let (g1, ip1) = operand g ip output in
      let g2 = if typed then put g1 op_typed_unary_op else g1 in
      let g3 = put g2 (unary_operand op integer) in
      told (if same_req post type then g3 else emit_stack_conversion g3 output type)

  unfoldable pub float_unary_code : Bool → Compile F → Compile F
  float_unary_code typed operand g ip type =
      let output = if typed then req_typed_string else req_float in
      let (g1, ip1) = operand g ip output in
      let g2 = if typed then put g1 op_typed_unary_op else g1 in
      told (convert output type (put g2 op_neg))

  -- The index of a number and of a text in the current tables. A text without a tag always has
  -- its place: `add` reads no more than the text and its terminator.
  unfoldable pub add_number : Numbers F → F → Codegen F → Codegen F × ℕ
  add_number num value g =
      let (floats, index) = add_float num.eq_float g.floats value in
      (record g { floats = floats }, index)

  abbrev pub add_result : Codegen F → Option (CompilerStringTable × ℕ) → Codegen F × ℕ
  add_result g none = (g, 0)
  add_result g (some (strings, index)) = (record g { strings = strings }, index)

  unfoldable pub add_text : Bytes → Codegen F → Codegen F × ℕ
  add_text text g = add_result g (add g.strings (record { text = text; behind = [] }) true false)

  unfoldable pub load : ℕ → Codegen F × ℕ → Codegen F
  load op (g, index) = put (put g op) index

  unfoldable pub load_typed : Codegen F → Codegen F
  load_typed g = put (put g op_set_dynamic_type_to_null) op_flt_to_typed

  -- A number: the word for `UInt`, and the index in a table else.
  abbrev pub number_code : Numbers F → ℕ → F → Bytes → Codegen F → TypeReq → Codegen F
  number_code num word value text g req_uint = load op_loadimmed_uint (g, word)
  number_code num word value text g req_string = load op_loadimmed_str (add_text text g)
  number_code num word value text g req_float = load op_loadimmed_flt (add_number num value g)
  number_code num word value text g req_typed_string =
      load_typed (load op_loadimmed_flt (add_number num value g))
  number_code num word value text g _ = g

  unfoldable pub int_code : Numbers F → ℕ → Compile F
  int_code num n g ip type =
      told (number_code num n (num.from_int (sign_extend n)) (num.int_text n) g type)

  unfoldable pub float_code : Numbers F → F → Compile F
  float_code num x g ip type =
      told (number_code num (num.to_unsigned x) x (num.float_text x) g type)

  unfoldable pub compile : Numbers F → ExprNode F → Compile F
  compile num (int_node n) = int_code num n
  compile num (float_node x) = float_code num x
  compile num (conditional test a b) =
      conditional_code (get_preferred_type test) (compile num test) (compile num a) (compile num b)
  compile num (float_binary op l r) =
      float_binary_code op (can_be_typed l) (can_be_typed r) (compile num l) (compile num r)
  compile num (int_binary op l r) =
      int_binary_code op (can_be_typed l) (can_be_typed r) (compile num l) (compile num r)
  compile num (streq l r eq) = streq_code eq (compile num l) (compile num r)
  compile num (strcat l r c) = strcat_code c (compile num l) (compile num r)
  compile num (commacat l r) = commacat_code (compile num l) (compile num r)
  compile num (int_unary op e) =
      int_unary_code op (get_preferred_type e) (can_be_typed e) (compile num e)
  compile num (float_unary e) = float_unary_code (can_be_typed e) (compile num e)
  compile num (other_node c t typed) = c
