-- ===== src/Codegen.antt =====
-- engine/console/astNodes.cc and ast.h: the nodes of expressions over numbers and texts, and how each
-- compiles itself into the code stream and the tables. A node that is not modelled is there by its
-- virtual functions.
pub mod Nodes
pub mod Stmts
pub mod SameScopes
pub mod Scopes
pub mod Branches
pub mod Balanced
pub mod Sample
mod Tests
use korkscript.Prelude.{Bool, Bytes, false, true, ℕ, ◌||◌}
use korkscript.Compiler.CodeStream.{CodeStream}
use korkscript.Compiler.FloatTable.{CompilerFloatTable}
use korkscript.Compiler.StringTable.{CompilerStringTable}
use korkscript.Opcodes.{
  op_add, op_and, op_bitand, op_bitor, op_cmpeq, op_cmpge, op_cmpgr, op_cmple, op_cmplt, op_cmpne,
  op_copyvar_to_none, op_div, op_flt_to_none, op_flt_to_str, op_flt_to_typed, op_flt_to_uint,
  op_invalid, op_loadfield_flt, op_loadfield_str, op_loadfield_typed, op_loadfield_uint,
  op_loadfield_var, op_loadvar_flt, op_loadvar_str, op_loadvar_typed, op_loadvar_uint, op_mod,
  op_mul, op_or, op_savefield_flt, op_savefield_str, op_savefield_typed, op_savefield_uint,
  op_savefield_var, op_savevar_flt, op_savevar_str, op_savevar_typed, op_savevar_uint,
  op_setcurfield_none, op_shl, op_shr, op_str_to_flt, op_str_to_none, op_str_to_typed,
  op_str_to_uint, op_sub, op_typed_to_flt, op_typed_to_none, op_typed_to_str, op_typed_to_uint,
  op_uint_to_flt, op_uint_to_none, op_uint_to_str, op_uint_to_typed, op_xor,
}

pub data TypeReq : Type 0 where
  req_none req_uint req_float req_string req_typed_string req_var req_field req_tuple : TypeReq

-- `F64` with what the compiler and the evaluator use of it, the shifts of `S64` (C++ leaves them
-- open for some amounts) and the texts of `snprintf`. An `S64` or a `U32` is its bit pattern.
pub record Numbers (F : Type 0) : Type 0 where
  pub zero_float : F
  pub from_int : ℕ → F
  pub to_int : F → ℕ
  pub to_unsigned : F → ℕ
  pub eq_float : F → F → Bool
  pub lt_float : F → F → Bool
  pub le_float : F → F → Bool
  pub add_float : F → F → F
  pub sub_float : F → F → F
  pub mul_float : F → F → F
  pub div_float : F → F → F
  pub fmod : F → F → F
  pub neg_float : F → F
  pub shift_right : ℕ → ℕ → ℕ
  pub shift_left : ℕ → ℕ → ℕ
  pub int_text : ℕ → Bytes
  pub float_text : F → Bytes

-- What compiling changes: the stream, and the current tables of the resources.
pub record Codegen (F : Type 0) : Type 0 where
  pub stream : CodeStream
  pub floats : CompilerFloatTable F
  pub strings : CompilerStringTable

-- `compile(codeStream, ip, type)`, with the result.
abbrev pub Compile : Type 0 → Type 0
Compile F = Codegen F → ℕ → TypeReq → Codegen F × ℕ

-- The operators that the parser makes these nodes of.
pub data FloatOp : Type 0 where
  pchar_plus pchar_minus pchar_slash pchar_asterisk pchar_percent : FloatOp

pub data IntOp : Type 0 where
  pchar_caret pchar_ampersand pchar_pipe pchar_less pchar_greater : IntOp
  op_ge op_le op_eq op_ne op_or_else op_and_then op_right op_left : IntOp

pub data UnaryOp : Type 0 where
  pchar_excl pchar_tilde : UnaryOp

-- The value of an integer is the pattern of its `S32`. `append_char` is 0 where there is none.
pub data ExprNode (F : Type 0) : Type 0 where
  int_node : ℕ → ExprNode F
  float_node : F → ExprNode F
  conditional : ExprNode F → ExprNode F → ExprNode F → ExprNode F
  float_binary : FloatOp → ExprNode F → ExprNode F → ExprNode F
  int_binary : IntOp → ExprNode F → ExprNode F → ExprNode F
  streq : ExprNode F → ExprNode F → Bool → ExprNode F
  strcat : ExprNode F → ExprNode F → ℕ → ExprNode F
  commacat : ExprNode F → ExprNode F → ExprNode F
  int_unary : UnaryOp → ExprNode F → ExprNode F
  float_unary : ExprNode F → ExprNode F
  other_node : Compile F → TypeReq → Bool → ExprNode F

abbrev pub is_uint : TypeReq → Bool
is_uint req_uint = true
is_uint _ = false

abbrev pub is_float : TypeReq → Bool
is_float req_float = true
is_float _ = false

abbrev pub is_string : TypeReq → Bool
is_string req_string = true
is_string _ = false

abbrev pub is_typed : TypeReq → Bool
is_typed req_typed_string = true
is_typed _ = false

-- The requests are equal, as far as the nodes compare them.
abbrev pub same_req : TypeReq → TypeReq → Bool
same_req req_uint t = is_uint t
same_req req_float t = is_float t
same_req req_string t = is_string t
same_req req_typed_string t = is_typed t
same_req _ t = false

module _ {F : Type 0} where
  unfoldable pub get_preferred_type : ExprNode F → TypeReq
  get_preferred_type (int_node n) = req_uint
  get_preferred_type (float_node x) = req_float
  get_preferred_type (conditional test a b) = get_preferred_type a
  get_preferred_type (float_binary op l r) = req_float
  get_preferred_type (int_binary op l r) = req_uint
  get_preferred_type (streq l r eq) = req_uint
  get_preferred_type (strcat l r c) = req_string
  get_preferred_type (commacat l r) = req_string
  get_preferred_type (int_unary op e) = req_uint
  get_preferred_type (float_unary e) = req_float
  get_preferred_type (other_node c t typed) = t

  -- The nodes with no function of their own have that of `ExprNode`.
  unfoldable pub can_be_typed : ExprNode F → Bool
  can_be_typed (float_binary op l r) = can_be_typed l || can_be_typed r
  can_be_typed (int_binary op l r) = can_be_typed l || can_be_typed r
  can_be_typed (other_node c t typed) = typed
  can_be_typed e = is_typed (get_preferred_type e)

-- `conversionOp`
unfoldable pub conversion_op : TypeReq → TypeReq → ℕ
conversion_op req_string req_uint = op_str_to_uint
conversion_op req_string req_float = op_str_to_flt
conversion_op req_string req_none = op_str_to_none
conversion_op req_string req_var = op_savevar_str
conversion_op req_string req_typed_string = op_str_to_typed
conversion_op req_string req_field = op_savefield_str
conversion_op req_float req_uint = op_flt_to_uint
conversion_op req_float req_string = op_flt_to_str
conversion_op req_float req_none = op_flt_to_none
conversion_op req_float req_var = op_savevar_flt
conversion_op req_float req_typed_string = op_flt_to_typed
conversion_op req_float req_field = op_savefield_flt
conversion_op req_uint req_float = op_uint_to_flt
conversion_op req_uint req_string = op_uint_to_str
conversion_op req_uint req_none = op_uint_to_none
conversion_op req_uint req_var = op_savevar_uint
conversion_op req_uint req_typed_string = op_uint_to_typed
conversion_op req_uint req_field = op_savefield_uint
conversion_op req_var req_uint = op_loadvar_uint
conversion_op req_var req_float = op_loadvar_flt
conversion_op req_var req_string = op_loadvar_str
conversion_op req_var req_none = op_copyvar_to_none
conversion_op req_var req_field = op_savefield_var
conversion_op req_var req_typed_string = op_loadvar_typed
conversion_op req_field req_uint = op_loadfield_uint
conversion_op req_field req_float = op_loadfield_flt
conversion_op req_field req_string = op_loadfield_str
conversion_op req_field req_none = op_setcurfield_none
conversion_op req_field req_var = op_loadfield_var
conversion_op req_field req_typed_string = op_loadfield_typed
conversion_op req_typed_string req_uint = op_typed_to_uint
conversion_op req_typed_string req_float = op_typed_to_flt
conversion_op req_typed_string req_string = op_typed_to_str
conversion_op req_typed_string req_none = op_typed_to_none
conversion_op req_typed_string req_var = op_savevar_typed
conversion_op req_typed_string req_typed_string = op_savefield_typed
conversion_op req_typed_string req_field = op_savefield_typed
conversion_op _ _ = op_invalid

unfoldable pub float_operand : FloatOp → ℕ
float_operand pchar_plus = op_add
float_operand pchar_minus = op_sub
float_operand pchar_slash = op_div
float_operand pchar_asterisk = op_mul
float_operand pchar_percent = op_mod

-- `getSubTypeOperand`: the operand, and the type that the sides are compiled to.
unfoldable pub int_operand : IntOp → ℕ
int_operand pchar_caret = op_xor
int_operand pchar_ampersand = op_bitand
int_operand pchar_pipe = op_bitor
int_operand pchar_less = op_cmplt
int_operand pchar_greater = op_cmpgr
int_operand op_ge = op_cmpge
int_operand op_le = op_cmple
int_operand op_eq = op_cmpeq
int_operand op_ne = op_cmpne
int_operand op_or_else = op_or
int_operand op_and_then = op_and
int_operand op_right = op_shr
int_operand op_left = op_shl

unfoldable pub sub_type : IntOp → TypeReq
sub_type pchar_less = req_float
sub_type pchar_greater = req_float
sub_type op_ge = req_float
sub_type op_le = req_float
sub_type op_eq = req_float
sub_type op_ne = req_float
sub_type _ = req_uint
