-- ===== src/Lexer/Cursor/Total.antt =====
-- engine/console/simpleLexer.h: lemmas on a whole call of `next`.
use korkscript.Prelude.{
  Bool, Bool-cases, Bytes, Option, arith, false, if◌then◌else◌, inl, inr, is_digit, length, none,
  refl, some, suc, true, zero, ℕ, ◌&&◌, ◌+◌, ◌<◌, ◌==◌, ◌∙◌, ◌≡◌,
}
use korkscript.Lexer.Cursor.{
  Follows, Follows-refl, Follows-trans, IsValid, Passes, Passes-trans, advance-Follows,
  advance-Passes,
}
use korkscript.Lexer.Cursor.Decode.{SliceFits, decode_string-DecodedFrom}
use korkscript.Lexer.Cursor.Next.{
  MayRound, OutcomeFrom, Passes-interp, Passes-weight, Uses, if_MayRound, illegal-OutcomeFrom,
  of_lexed-OutcomeFrom, pair_done-OutcomeFrom, scan_interp_literal_segment-OutcomeFrom,
  skip_round-MayRound, string_done-OutcomeFrom, weight,
}
use korkscript.Lexer.Cursor.Scan.{MayScan, scan_magic_atoms-MayScan, scan_multi_ops-MayScan}
use korkscript.Lexer.Cursor.Words.{
  AtNumber, MayLex, scan_hex-LexedFrom, scan_ident_or_keyword-ScansTo, scan_number-MayLex,
  scan_var-ScansTo,
}
use korkscript.Lexer.Decode.{decode_string}
use korkscript.Lexer.Next.{
  Outcome, again, begin_interp, brace_round, done, has_byte, in_segment, next, next_loop,
  next_round, number_round, or_atom, or_else, or_number, or_word, settled, singles, skip_round,
  spun, threw, token_round, with_interp, word_round,
}
use korkscript.Lexer.Scan.{Lexed, scan_magic_atoms, scan_multi_ops}
use korkscript.Lexer.State.{
  InterpolationState, Tokenizer, advance, beither2, eof, is_letter, make, make_char, make_concat,
  make_illegal, peek,
}
use korkscript.Lexer.Token.{Token, end_token, str_atom, tag_atom}
use korkscript.Lexer.Words.{scan_hex, scan_ident_or_keyword, scan_number, scan_var}

brace_round-MayRound : (t : Tokenizer) → IsValid t → eof t 0 ≡ false → MayRound t (brace_round t)
unfolding brace_round
brace_round-MayRound t v e =
    let a = advance-Passes t e in
    let close = λ (i : InterpolationState). record i {
      in_brace = false;
      in_literal = true;
      need_str_concat = true;
    } in
    if_MayRound t (t.interp.in_brace && peek t 0 == b';') _ _
      (λ _. illegal-OutcomeFrom t (advance t) a.follows)
      (if_MayRound t (t.interp.in_brace && peek t 0 == b'}') _ _
        (λ _. Passes-interp t (advance t) close a) tt)

begin_interp-OutcomeFrom : (t : Tokenizer) → eof t 0 ≡ false → OutcomeFrom t (begin_interp t)
unfolding begin_interp make
begin_interp-OutcomeFrom t e =
    let a = advance-Passes t e in
    let s = advance (advance t) in
    let p = Passes-trans t (advance t) s a (advance-Follows (advance t) a.follows.inside) in
    let q =
      Passes-interp t s (λ i. record i { depth = i.depth + 1; in_literal = true; in_brace = false })
        p in
    (q.follows, tt, inl (Passes-weight t _ q))

if_OutcomeFrom :
    (t : Tokenizer) (b : Bool) (r s : Outcome)
    → OutcomeFrom t r
    → OutcomeFrom t s
    → OutcomeFrom t (if b then r else s)
if_OutcomeFrom t true r s h k = h
if_OutcomeFrom t false r s h k = k

char_done-OutcomeFrom :
    (t : Tokenizer) → eof t 0 ≡ false → OutcomeFrom t (done (make_char (peek t 0) t) (advance t))
unfolding make_char
char_done-OutcomeFrom t e =
    pair_done-OutcomeFrom t (make_char (peek t 0) t, advance t) (advance-Passes t e, tt)

word_round-OutcomeFrom :
    (t : Tokenizer) → IsValid t → eof t 0 ≡ false → OutcomeFrom t (word_round t)
unfolding word_round
word_round-OutcomeFrom t v e =
    if_OutcomeFrom t (beither2 t b'$' b'%' 0 && is_letter (peek t 1)) _ _
      (pair_done-OutcomeFrom t (scan_var t) (scan_var-ScansTo t e))
      (if_OutcomeFrom t (beither2 t b'$' b'%' 0 && is_digit (peek t 1)) _ _ illegal_here (
        if_OutcomeFrom t (is_letter (peek t 0)) _ _
          (pair_done-OutcomeFrom t (scan_ident_or_keyword t) (scan_ident_or_keyword-ScansTo t e))
          (if_OutcomeFrom t (has_byte (peek t 0) singles) _ _ (char_done-OutcomeFrom t e)
            illegal_here)))
  where
    illegal_here : OutcomeFrom t (done (make_illegal t) t)
    illegal_here = illegal-OutcomeFrom t t (Follows-refl t v)

or_word-OutcomeFrom :
    (t : Tokenizer) (l : Option Lexed)
    → MayLex t l
    → OutcomeFrom t (word_round t)
    → OutcomeFrom t (or_word l t)
or_word-OutcomeFrom t none m w = w
or_word-OutcomeFrom t (some l) m w = of_lexed-OutcomeFrom t l m

number_round-OutcomeFrom :
    (overflows : Bytes → Bool) (t : Tokenizer)
    → IsValid t
    → eof t 0 ≡ false
    → OutcomeFrom t (number_round overflows t)
unfolding number_round
number_round-OutcomeFrom overflows t v e = ground (
  arith,
  of_lexed-OutcomeFrom t (scan_hex t) (scan_hex-LexedFrom t e),
  λ (h : AtNumber t).
      or_word-OutcomeFrom t (scan_number overflows t) (scan_number-MayLex overflows t h)
        (word_round-OutcomeFrom t v e),
  word_round-OutcomeFrom t v e,
)

or_number-OutcomeFrom :
    (overflows : Bytes → Bool) (t : Tokenizer) (p : Option (Token × Tokenizer))
    → MayScan t p
    → OutcomeFrom t (number_round overflows t)
    → OutcomeFrom t (or_number overflows p t)
or_number-OutcomeFrom overflows t none m w = w
or_number-OutcomeFrom overflows t (some p) m w = pair_done-OutcomeFrom t p m

or_atom-OutcomeFrom :
    (overflows : Bytes → Bool) (t : Tokenizer) (p : Option (Token × Tokenizer))
    → MayScan t p
    → OutcomeFrom t (or_number overflows (scan_magic_atoms t) t)
    → OutcomeFrom t (or_atom overflows p t)
or_atom-OutcomeFrom overflows t none m w = w
or_atom-OutcomeFrom overflows t (some p) m w = pair_done-OutcomeFrom t p m

token_round-OutcomeFrom :
    (overflows : Bytes → Bool) (t : Tokenizer)
    → IsValid t
    → eof t 0 ≡ false
    → OutcomeFrom t (token_round overflows t)
unfolding token_round
token_round-OutcomeFrom overflows t v e =
    let quote = peek t 0 in
    let kind = if quote == b'\'' then tag_atom else str_atom in
    ground (
      arith,
      begin_interp-OutcomeFrom t e,
      string_done-OutcomeFrom t (decode_string t kind quote quote false)
          (decode_string-DecodedFrom t kind quote quote false v),
      or_atom-OutcomeFrom overflows t (scan_multi_ops t) (scan_multi_ops-MayScan t v) (
          or_number-OutcomeFrom overflows t (scan_magic_atoms t) (scan_magic_atoms-MayScan t v)
            (number_round-OutcomeFrom overflows t v e)),
    )

or_else-OutcomeFrom :
    (t : Tokenizer) (r : Option Outcome) (s : Outcome)
    → MayRound t r
    → OutcomeFrom t s
    → OutcomeFrom t (or_else r s)
or_else-OutcomeFrom t none s m w = w
or_else-OutcomeFrom t (some r) s m w = m

concat_done-OutcomeFrom :
    (t : Tokenizer)
    → IsValid t
    → t.interp.need_str_concat ≡ true
    → let s = with_interp t (λ i. record i { need_str_concat = false }) in
      OutcomeFrom t (done (make_concat 0 s) s)
unfolding make_concat weight
concat_done-OutcomeFrom t v c = (
  record { same_length = refl; forward = omega arith; inside = v; same_spins = refl },
  tt,
  inl (ground arith),
)

end_done-OutcomeFrom : (t : Tokenizer) → IsValid t → OutcomeFrom t (done (make end_token t) t)
unfolding make
end_done-OutcomeFrom t v = (Follows-refl t v, tt, inr (inl refl))

next_round-OutcomeFrom :
    (overflows : Bytes → Bool) (t : Tokenizer) → IsValid t → OutcomeFrom t (next_round overflows t)
unfolding next_round
next_round-OutcomeFrom overflows t v = elim (Bool-cases t.interp.need_str_concat) [
  | inl c ↦ simp c (concat_done-OutcomeFrom t v c)
  | inr c ↦ simp c (elim (Bool-cases (eof t 0)) [
    | inl e ↦ rw e (end_done-OutcomeFrom t v)
    | inr e ↦ rw e (
        if_OutcomeFrom t (in_segment t) _ _ (scan_interp_literal_segment-OutcomeFrom t v) (
          or_else-OutcomeFrom t (skip_round t) _ (skip_round-MayRound t v) (
            or_else-OutcomeFrom t (brace_round t) _ (brace_round-MayRound t v e)
              (token_round-OutcomeFrom overflows t v e))))
  ])
]

-- A token found behind some rounds is found from the first state.
OutcomeFrom-again : (t u : Tokenizer) (r : Outcome) → Passes t u → OutcomeFrom u r → OutcomeFrom t r
OutcomeFrom-again t u (done tok w) p (f, s, k) = (Follows-trans t u w p.follows f, s, uses k)
  where
    uses : Uses u tok w → Uses t tok w
    uses (inl h) = inl (omega (arith, Passes-weight t u p))
    uses (inr h) = inr h
OutcomeFrom-again t u (again w) p q = Passes-trans t u w p q.follows
OutcomeFrom-again t u threw p q = tt
OutcomeFrom-again t u spun p q = elim q [ ]

-- `next` returned a token or threw, and did not run on.
abbrev pub Returns : Tokenizer → Outcome → Type 0
Returns t (done tok u) = Follows t u × SliceFits u tok.val × Uses t tok u
Returns t (again u) = ⊥
Returns t threw = Unit
Returns t spun = ⊥

-- Behind rounds whose loops have ended, nothing is lost.
settled-ended : (t : Tokenizer) (r : Outcome) → t.spins ≡ 0 → OutcomeFrom t r → settled r ≡ r
settled-ended t (done tok u) z p = let e : u.spins ≡ 0 = p.0.same_spins ∙ z in rw e refl
settled-ended t (again u) z p = let e : u.spins ≡ 0 = p.follows.same_spins ∙ z in rw e refl
settled-ended t threw z p = refl
settled-ended t spun z p = refl

next_loop-Returns :
    (fuel : ℕ) (overflows : Bytes → Bool) (t : Tokenizer)
    → IsValid t
    → t.spins ≡ 0
    → length t.source < fuel + t.byte_pos
    → Returns t (next_loop fuel overflows t)
unfolding next_loop
next_loop-Returns zero overflows t v z h = absurd (omega arith)
next_loop-Returns (suc fuel) overflows t v z h =
    split (λ u. next_loop-Returns fuel overflows u) (next_round overflows t)
      (settled-ended t _ z (next_round-OutcomeFrom overflows t v))
      (next_round-OutcomeFrom overflows t v)
  where
    back : (u : Tokenizer) (r : Outcome) → Passes t u → Returns u r → Returns t r
    back u (done tok w) p q = OutcomeFrom-again t u (done tok w) p q
    back u (again w) p q = elim q [ ]
    back u threw p q = tt
    back u spun p q = elim q [ ]

    split :
        ((u : Tokenizer)
          → IsValid u
          → u.spins ≡ 0
          → length u.source < fuel + u.byte_pos
          → Returns u (next_loop fuel overflows u))
        → (r : Outcome) → settled (next_round overflows t) ≡ r
        → OutcomeFrom t r
        → Returns t (next_loop (suc fuel) overflows t)
    split ih (again u) q p =
        rw (q, next_loop)
          (back u _ p (ih u p.follows.inside (p.follows.same_spins ∙ z) (omega arith)))
    split ih (done tok u) q p = rw (q, next_loop) p
    split ih threw q p = rw (q, next_loop) tt
    split ih spun q p = elim p [ ]

-- From every state whose cursor is in the buffer, in which no loop has failed to end, a call of
-- `next` comes back with a token or throws, and each loop of its scanners ends: none uses up its
-- fuel. The token leaves a state with the same buffer length and a cursor further on or where it
-- was, still in the buffer; a token that holds a slice names one that lies in the buffer; and
-- unless the token is the end or illegal, a pending concatenation or some source was used up.
pub next-Returns :
    (overflows : Bytes → Bool) (t : Tokenizer)
    → IsValid t
    → t.spins ≡ 0
    → Returns t (next overflows t)
unfolding next
next-Returns overflows t v z =
    next_loop-Returns (suc (length t.source)) overflows t v z (omega arith)
