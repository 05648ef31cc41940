-- ===== src/Lexer/Token.antt =====
-- engine/console/simpleLexer.h: `SrcPos`, `TokenType` and `Token`.
use korkscript.Prelude.{Bool, Bytes, false, true, ℕ}

pub record SrcPos : Type 0 where
  pub line : ℕ
  pub col : ℕ

pub data TokenType : Type 0 where
  end_token no_token illegal int_const flt_const str_atom tag_atom doc_block ident var : TokenType
  rw_in rw_case_or rw_break rw_return rw_else rw_assert rw_while rw_do : TokenType
  rw_if rw_foreach_str rw_foreach rw_for rw_continue rw_define rw_signal rw_declare : TokenType
  rw_declare_singleton rw_datablock rw_case rw_switch_str rw_switch : TokenType
  rw_default rw_package rw_namespace rw_class rw_try rw_catch : TokenType
  op_eq op_ne op_ge op_le op_and op_or op_colon_colon : TokenType
  op_minus_minus op_plus_plus op_str_eq op_str_ne op_shl op_shr : TokenType
  op_pl_asn op_mi_asn op_ml_asn op_dv_asn op_mod_asn op_and_asn op_xor_asn op_or_asn : TokenType
  op_sl_asn op_sr_asn op_int_name op_int_namer : TokenType
  op_char : TokenType
  op_pchar_plus op_pchar_minus op_pchar_slash op_pchar_asterisk op_pchar_caret : TokenType
  op_pchar_percent op_pchar_ampersand op_pchar_pipe op_pchar_less op_pchar_greater : TokenType
  op_pchar_excl op_pchar_tilde op_concat str_beg str_end : TokenType

-- The union of a token: `ivalue`, `value`, `stringValue` or `stString`. A floating point value is
-- kept as the text that `std::stod` converts, an interned string as the text that is interned.
pub data TokenValue : Type 0 where
  ivalue : ℕ → TokenValue
  float_value : Bytes → TokenValue
  string_value : ℕ → ℕ → TokenValue
  st_string : Bytes → TokenValue

pub record Token : Type 0 where
  pub kind : TokenType
  pub pos : SrcPos
  pub val : TokenValue

-- `isNone`: the kind `NONE`.
abbrev pub is_none : TokenType → Bool
is_none no_token = true
is_none _ = false

-- `t.kind == TokenType::rwCLASS`, and so for `rwDATABLOCK` and `INTCONST`.
abbrev pub is_class : TokenType → Bool
is_class rw_class = true
is_class _ = false

abbrev pub is_datablock : TokenType → Bool
is_datablock rw_datablock = true
is_datablock _ = false

abbrev pub is_int_const : TokenType → Bool
is_int_const int_const = true
is_int_const _ = false
