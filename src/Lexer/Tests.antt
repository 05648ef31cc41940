-- ===== src/Lexer/Tests.antt =====
-- engine/console/simpleLexer.h: runs of the tokenizer on small sources.
use korkscript.Prelude.{
  Bool, Bytes, List, [], arith, codes, false, get_or, length, refl, some, suc, true, zero, ℕ, ◌∷◌,
  ◌≡◌, ◌≢◌,
}
use korkscript.Lexer.Cursor.{IsValid}
use korkscript.Lexer.Cursor.Process.{process_tokens-ends}
use korkscript.Lexer.Cursor.Total.{Returns, next-Returns}
use korkscript.Lexer.Keywords.{keyword_of}
use korkscript.Lexer.Keywords.Exact.{IsTerminated, scan_ident_or_keyword-keyword_of, star_of}
use korkscript.Lexer.Longest.{FindsLongest, scan_multi_ops-longest}
use korkscript.Lexer.Next.{done, next}
use korkscript.Lexer.Process.{exhausted, process_tokens}
use korkscript.Lexer.Scan.{looks_at, multi_ops, scan_multi_ops, slice}
use korkscript.Lexer.State.{
  Tokenizer, advance, advance_n, advance_while, eof, is_id_tail, is_letter, make, peek, tokenizer,
}
use korkscript.Lexer.Token.{TokenType, TokenValue, op_shr}
use korkscript.Lexer.Words.{ident_or, keyword_table, keyword_token, scan_ident_or_keyword, word_end}

abbrev in_range : Bytes → Bool
in_range _ = false

-- The kinds and values of the first tokens.
tokens : ℕ → Tokenizer → List (TokenType × TokenValue)
tokens zero t = []
tokens (suc n) t = elim (next in_range t) [
  | done tok t' ↦ (tok.kind, tok.val) ∷ tokens n t'
  | _ ↦ []
]

lex : ℕ → Bytes → List (TokenType × TokenValue)
lex n src = tokens n (tokenizer src true false)

lex_call : List (TokenType × TokenValue)
lex_call = lex 12 (codes "foreach$ (%a::b in $x) { echo(0x1F @ 'a\\n' @ \"b\\c0\") } // end")

lex_interp : List (TokenType × TokenValue)
lex_interp = lex 12 (codes "$\"a{%b}c\" == 12.5")

-- "foreach$ (%a in $x)" with classes off.
abbrev loop_head : Bytes
loop_head = codes "foreach$ (%a in $x)"

abbrev at_loop : Tokenizer
at_loop = tokenizer loop_head true false

at_loop-IsValid : IsValid at_loop
unfolding tokenizer
at_loop-IsValid = omega arith

at_loop_no_spins : at_loop.spins ≡ 0
unfolding tokenizer
at_loop_no_spins = refl

next-Returns_example : Returns at_loop (next in_range at_loop)
next-Returns_example = next-Returns in_range at_loop at_loop-IsValid at_loop_no_spins

process_tokens-ends_example : process_tokens in_range (tokenizer loop_head true false) ≢ exhausted
process_tokens-ends_example = process_tokens-ends in_range loop_head true false

abbrev at_shift : Tokenizer
at_shift = tokenizer (codes ">>= 1") true false

shift_stands : looks_at at_shift 0 (codes ">>") ≡ true
unfolding looks_at tokenizer peek
shift_stands = refl

scan_multi_ops-longest_example :
    (r : FindsLongest at_shift multi_ops (codes ">>")) × (scan_multi_ops at_shift
      ≡ some (make r.kind at_shift, advance_n (length r.op) at_shift))
scan_multi_ops-longest_example =
    scan_multi_ops-longest at_shift (codes ">>") op_shr 15 refl shift_stands

at_loop-IsTerminated : IsTerminated at_loop
unfolding tokenizer
at_loop-IsTerminated = refl

at_loop_letter : is_letter (peek at_loop 0) ≡ true
unfolding tokenizer peek is_letter
at_loop_letter = refl

scan_ident_or_keyword-keyword_of_example :
    let star = star_of (word_end at_loop) in
    scan_ident_or_keyword at_loop
    ≡ ident_or at_loop (word_end at_loop) star (
        keyword_token at_loop
          (get_or at_loop.source at_loop.byte_pos 0)
          (keyword_of (slice at_loop at_loop.byte_pos star.byte_pos) keyword_table))
scan_ident_or_keyword-keyword_of_example =
    scan_ident_or_keyword-keyword_of at_loop at_loop-IsValid at_loop-IsTerminated at_loop_letter

star_text : slice at_loop 0 (star_of (word_end at_loop)).byte_pos ≡ codes "foreach$"
unfolding tokenizer peek eof word_end advance advance_while is_id_tail
star_text = refl
