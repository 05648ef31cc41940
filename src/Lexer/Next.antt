-- ===== src/Lexer/Next.antt =====
-- engine/console/simpleLexer.h: `next` and `scanInterpLiteralSegment`.
use korkscript.Prelude.{
  Bool, Bytes, Option, [], codes, false, if◌then◌else◌, is_digit, length, ltb, none, not, set, some,
  suc, true, u32, zero, ℕ, ◌&&◌, ◌+◌, ◌-◌, ◌==◌, ◌||◌, ◌∷◌,
}
use korkscript.Lexer.Decode.{Decoded, decode_string}
use korkscript.Lexer.Scan.{
  Lexed, hung, lexed, match_docblock_start, scan_docblock, scan_magic_atoms, scan_multi_ops, thrown,
}
use korkscript.Lexer.State.{
  InterpolationState, Tokenizer, advance, advance_newline, beither2, bpeek2, eof, is_hex, is_letter,
  is_space, make, make_char, make_concat, make_illegal, peek, skip_block_comment, skip_line,
  skip_spaces,
}
use korkscript.Lexer.Token.{Token, end_token, str_atom, str_beg, str_end, string_value, tag_atom}
use korkscript.Lexer.Words.{scan_hex, scan_ident_or_keyword, scan_number, scan_var}

-- What one round of the loop of `next` comes to: a token, `continue`, an exception, or, where a
-- loop did not end, nothing.
pub data Outcome : Type 0 where
  done : Token → Tokenizer → Outcome
  again : Tokenizer → Outcome
  threw : Outcome
  spun : Outcome

abbrev pub of_lexed : Lexed → Outcome
of_lexed (lexed tok t) = done tok t
of_lexed thrown = threw
of_lexed hung = spun

-- `mInterpState` when a string literal has ended.
unfoldable pub pop_literal : InterpolationState → InterpolationState
pop_literal i = record i { depth = i.depth - 1; in_literal = false; in_brace = ltb 0 (i.depth - 1) }

-- `mInterpState` behind a literal piece that `quote` ended.
unfoldable pub after_segment : ℕ → InterpolationState → InterpolationState
unfolding pop_literal
after_segment quote i =
    if quote == b'"'
    then pop_literal i
    else if quote == b'{'
    then record i { in_brace = true; in_literal = false; need_str_concat = true }
    else i

abbrev pub with_interp : Tokenizer → (InterpolationState → InterpolationState) → Tokenizer
with_interp t f = record t { interp = f t.interp }

-- `decodeStringInPlace` may refuse the piece; then the quote is 0.
abbrev pub segment_done : Option Decoded → Outcome
segment_done none = spun
segment_done (some d) =
    done (if d.quote == b'"' then record (d.tok) { kind = str_end } else d.tok)
      (with_interp d.state (after_segment d.quote))

unfoldable pub scan_interp_literal_segment : Tokenizer → Outcome
unfolding after_segment
scan_interp_literal_segment t =
    let zeroed = record t { source = set t.source t.byte_pos 0 } in
    if peek t 0 == b'"'
    then done (record (make str_end t) { val = string_value (u32 t.byte_pos) 0 })
        (with_interp (advance zeroed) pop_literal)
    else segment_done (decode_string t str_atom b'"' b'{' true)

-- Inside a literal, outside its braces.
unfoldable pub in_segment : Tokenizer → Bool
in_segment t = ltb 0 t.interp.depth && t.interp.in_literal && not t.interp.in_brace

abbrev pub docblock_done : Token × Tokenizer → Outcome
docblock_done (tok, t) = done tok t

abbrev pub comment_done : Bool × Tokenizer → Outcome
comment_done (true, t) = again t
comment_done (false, t) = done (make_illegal t) t

-- Line ends, blanks, documentation blocks and comments; `none` where none of them stands.
unfoldable pub skip_round : Tokenizer → Option Outcome
skip_round t =
    if peek t 0 == b'\r'
    then some (again (advance t))
    else if peek t 0 == b'\n'
    then some (again (advance_newline t))
    else if is_space (peek t 0)
    then some (again (skip_spaces t))
    else if match_docblock_start t
    then some (docblock_done (scan_docblock t))
    else if bpeek2 t b'/' b'/' && not (peek t 2 == b'/' && not (peek t 3 == b'/'))
    then some (again (skip_line t))
    else if bpeek2 t b'/' b'*'
    then some (comment_done (skip_block_comment t))
    else none

-- The tests on the braces of an interpolation.
unfoldable pub brace_round : Tokenizer → Option Outcome
brace_round t =
    if t.interp.in_brace && peek t 0 == b';'
    then some (done (make_illegal (advance t)) (advance t))
    else if t.interp.in_brace && peek t 0 == b'}'
    then some (
        again (
          with_interp (advance t)
            (λ i. record i { in_brace = false; in_literal = true; need_str_concat = true })))
    else none

unfoldable pub begin_interp : Tokenizer → Outcome
begin_interp t =
    let s =
      with_interp (advance (advance t))
        (λ i. record i { depth = i.depth + 1; in_literal = true; in_brace = false }) in
    done (make str_beg s) s

abbrev pub string_done : Option Decoded → Outcome
string_done none = spun
string_done (some d) = done d.tok d.state

abbrev pub pair_done : Token × Tokenizer → Outcome
pair_done (tok, t) = done tok t

-- The single-character tokens.
abbrev pub singles : Bytes
singles = codes "?[]()+-*/<>|.!:;{},&%^~=."

unfoldable pub has_byte : ℕ → Bytes → Bool
has_byte c [] = false
has_byte c (x ∷ xs) = c == x || has_byte c xs

-- The tests behind the numbers.
unfoldable pub word_round : Tokenizer → Outcome
unfolding has_byte
word_round t =
    if beither2 t b'$' b'%' 0 && is_letter (peek t 1)
    then pair_done (scan_var t)
    else if beither2 t b'$' b'%' 0 && is_digit (peek t 1)
    then done (make_illegal t) t
    else if is_letter (peek t 0)
    then pair_done (scan_ident_or_keyword t)
    else if has_byte (peek t 0) singles
    then done (make_char (peek t 0) t) (advance t)
    else done (make_illegal t) t

abbrev pub or_word : Option Lexed → Tokenizer → Outcome
or_word none t = word_round t
or_word (some l) t = of_lexed l

-- The tests from the numerals on.
unfoldable pub number_round : (Bytes → Bool) → Tokenizer → Outcome
number_round overflows t =
    if peek t 0 == b'0' && beither2 t b'x' b'X' 1 && is_hex (peek t 2)
    then of_lexed (scan_hex t)
    else if is_digit (peek t 0) || peek t 0 == b'.' && is_digit (peek t 1)
    then or_word (scan_number overflows t) t
    else word_round t

abbrev pub or_number : (Bytes → Bool) → Option (Token × Tokenizer) → Tokenizer → Outcome
or_number overflows none t = number_round overflows t
or_number overflows (some p) t = pair_done p

abbrev pub or_atom : (Bytes → Bool) → Option (Token × Tokenizer) → Tokenizer → Outcome
or_atom overflows none t = or_number overflows (scan_magic_atoms t) t
or_atom overflows (some p) t = pair_done p

-- The tests from the interpolated strings on.
unfoldable pub token_round : (Bytes → Bool) → Tokenizer → Outcome
token_round overflows t =
    let quote = peek t 0 in
    let kind = if quote == b'\'' then tag_atom else str_atom in
    if bpeek2 t b'$' b'"' && t.interp.do_interp
    then begin_interp t
    else if beither2 t b'"' b'\'' 0
    then string_done (decode_string t kind quote quote false)
    else or_atom overflows (scan_multi_ops t) t

abbrev pub or_else : Option Outcome → Outcome → Outcome
or_else none r = r
or_else (some r) r' = r

-- The body of the loop of `next`.
unfoldable pub next_round : (Bytes → Bool) → Tokenizer → Outcome
next_round overflows t =
    let s = with_interp t (λ i. record i { need_str_concat = false }) in
    if t.interp.need_str_concat
    then done (make_concat 0 s) s
    else if eof t 0
    then done (make end_token t) t
    else if in_segment t
    then scan_interp_literal_segment t
    else or_else (skip_round t) (or_else (brace_round t) (token_round overflows t))

-- Behind a loop that did not end there is nothing.
abbrev pub settled : Outcome → Outcome
settled (done tok t) = if t.spins == 0 then done tok t else spun
settled (again t) = if t.spins == 0 then again t else spun
settled threw = threw
settled spun = spun

-- The loop on fuel.
unfoldable pub next_loop : ℕ → (Bytes → Bool) → Tokenizer → Outcome
next_loop zero overflows t = spun
next_loop (suc fuel) overflows t = elim (settled (next_round overflows t)) [
  | again t' ↦ next_loop fuel overflows t'
  | done tok t' ↦ done tok t'
  | threw ↦ threw
  | spun ↦ spun
]

unfoldable pub next : (Bytes → Bool) → Tokenizer → Outcome
unfolding next_loop
next overflows t = next_loop (suc (length t.source)) overflows t
