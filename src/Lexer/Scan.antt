-- ===== src/Lexer/Scan.antt =====
-- engine/console/simpleLexer.h: the scanners of single tokens. The text functions `std::stoll`,
-- `std::stoi` and `std::stod` throw `std::out_of_range`, which no caller catches.
use korkscript.Prelude.{
  Bool, Bytes, List, Option, [], codes, drop, false, if◌then◌else◌, is_digit, length, none, not,
  set, some, suc, take, true, u32, zero, ℕ, ◌&&◌, ◌*◌, ◌+◌, ◌-◌, ◌==◌, ◌||◌, ◌∷◌,
}
use korkscript.Lexer.Decode.{compact, hex_val, zero_fill}
use korkscript.Lexer.State.{
  Tokenizer, advance, advance_n, advance_newline, advance_while, bpeek2, eof, fuel_of, is_id_tail,
  make, make_concat, not_ended, peek,
}
use korkscript.Lexer.Token.{
  Token, TokenType, doc_block, op_and, op_and_asn, op_colon_colon, op_dv_asn, op_eq, op_ge,
  op_int_name, op_int_namer, op_le, op_mi_asn, op_minus_minus, op_ml_asn, op_mod_asn, op_ne, op_or,
  op_or_asn, op_pl_asn, op_plus_plus, op_shl, op_shr, op_sl_asn, op_sr_asn, op_str_eq, op_str_ne,
  op_xor_asn, string_value,
}

-- What a scanner returns: a token with the state behind it, an exception, or, where one of its
-- loops did not end, nothing.
pub data Lexed : Type 0 where
  lexed : Token → Tokenizer → Lexed
  thrown : Lexed
  hung : Lexed

-- "///" followed by a byte that is no slash.
unfoldable pub match_docblock_start : Tokenizer → Bool
match_docblock_start t = bpeek2 t b'/' b'/' && peek t 2 == b'/' && not (peek t 3 == b'/')

-- The rest of a documentation line: carriage returns are zeroed.
unfoldable pub doc_line : ℕ → Tokenizer → Tokenizer
doc_line zero t = not_ended t
doc_line (suc fuel) t =
    let kept = doc_line fuel (advance t) in
    let stripped = doc_line fuel (advance (record t { source = set t.source t.byte_pos 0 })) in
    if eof t 0 || peek t 0 == b'\n' then t else if peek t 0 == b'\r' then stripped else kept

-- The newline behind a documentation line.
unfoldable pub doc_newline : Tokenizer → Tokenizer
doc_newline t = if not (eof t 0) && peek t 0 == b'\n' then advance_newline t else t

-- One line of a documentation block: its slashes are zeroed.
unfoldable pub doc_round : Tokenizer → Tokenizer
doc_round t =
    let p = t.byte_pos in
    let zeroed = record t { source = set (set (set t.source p 0) (p + 1) 0) (p + 2) 0 } in
    doc_newline (doc_line (fuel_of t) (advance (advance (advance zeroed))))

unfoldable pub doc_lines : ℕ → Tokenizer → Tokenizer
doc_lines zero t = not_ended t
doc_lines (suc fuel) t = elim (match_docblock_start t) [
  | true ↦ doc_lines fuel (doc_round t)
  | false ↦ t
]

unfoldable pub scan_docblock : Tokenizer → Token × Tokenizer
unfolding match_docblock_start doc_line doc_newline doc_round doc_lines
scan_docblock t =
    let s = doc_lines (fuel_of t) t in
    let (packed, write) = compact (s.byte_pos - t.byte_pos) t.byte_pos t.byte_pos s.source in
    let buf = zero_fill (s.byte_pos - write) write packed in
    (
      record (make doc_block t) { val = string_value (u32 t.byte_pos) (u32 (write - t.byte_pos)) },
      record s { source = buf },
    )

-- The comparison of `matchWord`: `w` stands at offset `k`.
unfoldable pub looks_at : Tokenizer → ℕ → Bytes → Bool
looks_at t k [] = true
looks_at t k (c ∷ w) = peek t k == c && looks_at t (k + 1) w

unfoldable pub match_word : Tokenizer → Bytes → Option Tokenizer
unfolding looks_at
match_word t w =
    if looks_at t 0 w && not (is_id_tail (peek t (length w)))
    then some (advance_n (length w) t)
    else none

-- The token of a word that stands for a character, made behind the word.
abbrev pub concat_at :
    Option Tokenizer → ℕ → Option (Token × Tokenizer) → Option (Token × Tokenizer)
concat_at none ch other = other
concat_at (some t) ch other = some (make_concat ch t, t)

-- `none` is the kind `NONE`.
unfoldable pub scan_magic_atoms : Tokenizer → Option (Token × Tokenizer)
scan_magic_atoms t = concat_at (match_word t (codes "NL")) b'\n' (
    concat_at (match_word t (codes "TAB")) b'\t' (
      concat_at (match_word t (codes "SPC")) b' '
        (if peek t 0 == b'@' then some (make_concat 0 (advance t), advance t) else none)))

-- The operators in the order of the tests; `bpeek3` and `bpeek2` compare their bytes.
abbrev pub multi_ops : List (Bytes × TokenType)
multi_ops =
    (codes "-->", op_int_namer)
    ∷ (codes ">>=", op_sr_asn)
    ∷ (codes "<<=", op_sl_asn)
    ∷ (codes "==", op_eq)
    ∷ (codes "!=", op_ne)
    ∷ (codes ">=", op_ge)
    ∷ (codes "<=", op_le)
    ∷ (codes "&&", op_and)
    ∷ (codes "||", op_or)
    ∷ (codes "::", op_colon_colon)
    ∷ (codes "--", op_minus_minus)
    ∷ (codes "++", op_plus_plus)
    ∷ (codes "$=", op_str_eq)
    ∷ (codes "!$=", op_str_ne)
    ∷ (codes "<<", op_shl)
    ∷ (codes ">>", op_shr)
    ∷ (codes "+=", op_pl_asn)
    ∷ (codes "-=", op_mi_asn)
    ∷ (codes "*=", op_ml_asn)
    ∷ (codes "/=", op_dv_asn)
    ∷ (codes "%=", op_mod_asn)
    ∷ (codes "&=", op_and_asn)
    ∷ (codes "^=", op_xor_asn)
    ∷ (codes "|=", op_or_asn)
    ∷ (codes "->", op_int_name)
    ∷ []

-- The first operator that stands at the cursor, with the number of its bytes.
unfoldable pub find_op : Tokenizer → List (Bytes × TokenType) → Option (TokenType × ℕ)
find_op t [] = none
find_op t ((w, k) ∷ ops) = if looks_at t 0 w then some (k, length w) else find_op t ops

-- `emit`: the token is made in front of the operator.
abbrev pub emit_op : Tokenizer → Option (TokenType × ℕ) → Option (Token × Tokenizer)
emit_op t none = none
emit_op t (some (k, n)) = some (make k t, advance_n n t)

unfoldable pub scan_multi_ops : Tokenizer → Option (Token × Tokenizer)
scan_multi_ops t = emit_op t (find_op t multi_ops)

-- The bytes of the source between two positions.
abbrev pub slice : Tokenizer → ℕ → ℕ → Bytes
slice t from to = take (to - from) (drop from t.source)

-- The value of a numeral in a base, as `std::stoll` and `std::stoi` read it.
unfoldable pub numeral : ℕ → ℕ → Bytes → ℕ
numeral base acc [] = acc
numeral base acc (c ∷ cs) =
    numeral base (acc * base + (elim (hex_val c) [ none ↦ 0 | some d ↦ d ])) cs

unfoldable pub skip_digits : Tokenizer → Tokenizer
skip_digits t = advance_while (fuel_of t) (λ s. is_digit (peek s 0)) t
