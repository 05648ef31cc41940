-- ===== src/Lexer/Cursor/Next.antt =====
-- engine/console/simpleLexer.h: lemmas on the rounds of `next`.
use korkscript.Prelude.{
  Bool, Bool-cases, Option, arith, false, if◌then◌else◌, inl, inr, length, length-set, none, not,
  refl, set, some, true, ℕ, ◌&&◌, ◌*◌, ◌+◌, ◌-◌, ◌<◌, ◌==◌, ◌≡◌, ◌⊎◌,
}
use korkscript.Lexer.Cursor.{
  Follows, IsValid, Passes, advance-Passes, advance_newline-Passes, advance_while-Passes, peek-eof,
  skip_block_comment-Passes, skip_spaces-Passes,
}
use korkscript.Lexer.Cursor.Decode.{DecodedFrom, SliceFits, decode_string-DecodedFrom, u32-le}
use korkscript.Lexer.Cursor.Scan.{ScansTo, scan_docblock-ScansTo}
use korkscript.Lexer.Cursor.Words.{LexedFrom}
use korkscript.Lexer.Decode.{Decoded, decode_string}
use korkscript.Lexer.Next.{
  Outcome, after_segment, again, comment_done, docblock_done, done, of_lexed, pair_done,
  pop_literal, scan_interp_literal_segment, segment_done, skip_round, spun, string_done, threw,
  with_interp,
}
use korkscript.Lexer.Scan.{Lexed, hung, lexed, match_docblock_start, scan_docblock, thrown}
use korkscript.Lexer.State.{
  InterpolationState, Tokenizer, advance, bpeek2, eof, is_space, make, make_illegal, peek,
  skip_block_comment, skip_line,
}
use korkscript.Lexer.Token.{
  Token, TokenValue, end_token, float_value, illegal, ivalue, st_string, str_atom, str_end,
  string_value,
}

-- What is left to read: twice the bytes, and one for a pending concatenation.
unfoldable pub weight : Tokenizer → ℕ
weight t = 2 * (length t.source - t.byte_pos) + (if t.interp.need_str_concat then 1 else 0)

-- The token uses something up, or ends the stream.
abbrev pub Uses : Tokenizer → Token → Tokenizer → Type 0
Uses t tok u = (weight u < weight t) ⊎ (tok.kind ≡ end_token) ⊎ (tok.kind ≡ illegal)

-- What a round may come to.
abbrev pub OutcomeFrom : Tokenizer → Outcome → Type 0
OutcomeFrom t (done tok u) = Follows t u × SliceFits u tok.val × Uses t tok u
OutcomeFrom t (again u) = Passes t u
OutcomeFrom t threw = Unit
OutcomeFrom t spun = ⊥

pub Passes-weight : (t u : Tokenizer) → Passes t u → weight u < weight t
unfolding weight
Passes-weight t u p = ground arith

pub pair_done-OutcomeFrom :
    (t : Tokenizer) (p : Token × Tokenizer) → ScansTo t p → OutcomeFrom t (pair_done p)
pair_done-OutcomeFrom t (tok, u) s = (s.0.follows, s.1, inl (Passes-weight t u s.0))

pub of_lexed-OutcomeFrom : (t : Tokenizer) (l : Lexed) → LexedFrom t l → OutcomeFrom t (of_lexed l)
of_lexed-OutcomeFrom t (lexed tok u) s = pair_done-OutcomeFrom t (tok, u) s
of_lexed-OutcomeFrom t thrown s = tt
of_lexed-OutcomeFrom t hung s = elim s [ ]

-- An illegal token ends the stream.
pub illegal-OutcomeFrom : (t u : Tokenizer) → Follows t u → OutcomeFrom t (done (make_illegal u) u)
unfolding make_illegal make
illegal-OutcomeFrom t u f = (f, tt, inr (inr refl))

pub string_done-OutcomeFrom :
    (t : Tokenizer) (d : Option Decoded) → DecodedFrom t d → OutcomeFrom t (string_done d)
string_done-OutcomeFrom t none h = elim h [ ]
string_done-OutcomeFrom t (some d) (f, s, inl p) =
    (f, s, inl (Passes-weight t d.state (record { follows = f; further = p })))
string_done-OutcomeFrom t (some d) (f, s, inr q) = (f, s, inr (inr q.0))

-- The interpolation state has no part in where the cursor is.
SliceFits-interp :
    (u : Tokenizer) (f : InterpolationState → InterpolationState) (v : TokenValue)
    → SliceFits u v
    → SliceFits (with_interp u f) v
SliceFits-interp u f (string_value o n) h = h
SliceFits-interp u f (ivalue n) h = tt
SliceFits-interp u f (float_value w) h = tt
SliceFits-interp u f (st_string w) h = tt

pub Passes-interp :
    (t u : Tokenizer) (f : InterpolationState → InterpolationState)
    → Passes t u
    → Passes t (with_interp u f)
Passes-interp t u f p = omega arith

-- The token of a literal piece, with its kind set.
segment_token : ℕ → Token → Token
segment_token q tok = if q == b'"' then record tok { kind = str_end } else tok

segment_token_fits :
    (t : Tokenizer) (q : ℕ) (tok : Token)
    → SliceFits t tok.val
    → SliceFits t (segment_token q tok).val
unfolding segment_token
segment_token_fits t q tok h = elim (Bool-cases (q == b'"')) [ inl e ↦ rw e h | inr e ↦ rw e h ]

segment_done-OutcomeFrom :
    (t : Tokenizer) (d : Option Decoded) → DecodedFrom t d → OutcomeFrom t (segment_done d)
unfolding segment_token
segment_done-OutcomeFrom t none h = elim h [ ]
segment_done-OutcomeFrom t (some d) (f, s, r) =
    let u = d.state in
    let u' = with_interp u (after_segment d.quote) in
    let fits =
      SliceFits-interp u (after_segment d.quote) _ (segment_token_fits u d.quote d.tok s) in
    (
      record {
        same_length = f.same_length;
        forward = f.forward;
        inside = f.inside;
        same_spins = f.same_spins;
      },
      fits,
      uses r,
    )
  where
    uses :
        (t.byte_pos < (d.state).byte_pos) ⊎ ((d.tok).kind ≡ illegal) × (d.quote ≡ 0)
        → Uses t (segment_token d.quote d.tok) (with_interp d.state (after_segment d.quote))
    uses (inl p) = inl (
        Passes-weight t _
          (Passes-interp t d.state (after_segment d.quote) (record { follows = f; further = p })))
    uses (inr (k, q)) = inr (inr (rw q k))

pub scan_interp_literal_segment-OutcomeFrom :
    (t : Tokenizer) → IsValid t → OutcomeFrom t (scan_interp_literal_segment t)
unfolding scan_interp_literal_segment make
scan_interp_literal_segment-OutcomeFrom t v = elim (Bool-cases (peek t 0 == b'"')) [
  | inl e ↦
      let z = record t { source = set t.source t.byte_pos 0 } in
      let same = length-set t.source t.byte_pos 0 in
      let there = peek-eof t 0 (λ x. ground arith) in
      let a = advance-Passes z (unfold eof in rw same there) in
      let p : Passes t (with_interp (advance z) pop_literal) = omega (arith, a, same) in
      rw e (p.follows, omega (arith, p, u32-le t.byte_pos), inl (Passes-weight t _ p))
  | inr e ↦ rw e (
      segment_done-OutcomeFrom t (decode_string t str_atom b'"' b'{' true)
        (decode_string-DecodedFrom t str_atom b'"' b'{' true v))
]

-- The same of an optional round.
abbrev pub MayRound : Tokenizer → Option Outcome → Type 0
MayRound t none = Unit
MayRound t (some r) = OutcomeFrom t r

docblock_done-OutcomeFrom :
    (t : Tokenizer) (p : Token × Tokenizer) → ScansTo t p → OutcomeFrom t (docblock_done p)
docblock_done-OutcomeFrom t (tok, u) s = pair_done-OutcomeFrom t (tok, u) s

comment_done-OutcomeFrom :
    (t : Tokenizer) (r : Bool × Tokenizer) → Passes t r.1 → OutcomeFrom t (comment_done r)
comment_done-OutcomeFrom t (true, u) p = p
comment_done-OutcomeFrom t (false, u) p = illegal-OutcomeFrom t u p.follows

pub if_MayRound :
    (t : Tokenizer) (b : Bool) (r : Outcome) (s : Option Outcome)
    → (b ≡ true → OutcomeFrom t r)
    → MayRound t s
    → MayRound t (if b then some r else s)
if_MayRound t true r s h k = h refl
if_MayRound t false r s h k = k

skip_line-Passes : (t : Tokenizer) → peek t 0 ≡ b'/' → Passes t (skip_line t)
unfolding skip_line
skip_line-Passes t h =
    let e = peek-eof t 0 (λ z. ground arith) in
    advance_while-Passes (length t.source) (λ s. not (eof s 0) && not (peek s 0 == b'\n')) t
      (λ s k. ground arith) (rw (e, h)) (omega arith)

pub skip_round-MayRound : (t : Tokenizer) → IsValid t → MayRound t (skip_round t)
unfolding skip_round
skip_round-MayRound t v =
    if_MayRound t (peek t 0 == b'\r') _ _ (λ e. advance-Passes t (peek-eof t 0 (λ z. ground arith)))
      (if_MayRound t (peek t 0 == b'\n') _ _
        (λ e. advance_newline-Passes t (peek-eof t 0 (λ z. ground arith)))
        (if_MayRound t (is_space (peek t 0)) _ _ (λ e. skip_spaces-Passes t v e)
          (if_MayRound t (match_docblock_start t) _ _
            (λ e. docblock_done-OutcomeFrom t (scan_docblock t) (scan_docblock-ScansTo t e))
            (if_MayRound t (bpeek2 t b'/' b'/' && not (peek t 2 == b'/' && not (peek t 3 == b'/')))
              _ _ (λ e. skip_line-Passes t (unfold bpeek2 in ground arith))
              (if_MayRound t (bpeek2 t b'/' b'*') _ _
                (λ e.
                  comment_done-OutcomeFrom t (skip_block_comment t) (
                    skip_block_comment-Passes t
                      (peek-eof t 0 (unfold bpeek2 in λ z. ground arith))))
                tt)))))
