-- ===== src/Lexer/Cursor/Words.antt =====
-- engine/console/simpleLexer.h: lemmas on the scanners of numbers, identifiers and variables.
use korkscript.Prelude.{
  Bool, Bool-cases, Bytes, Option, arith, codes, false, get_or, if◌then◌else◌, inl, inr, is_digit,
  length, none, not, some, suc, true, zero, ℕ, ◌&&◌, ◌+◌, ◌<◌, ◌==◌, ◌||◌, ◌≡◌,
}
use korkscript.Lexer.Cursor.{
  Follows, Follows-refl, Follows-trans, IsValid, Passes, Passes-trans, advance-Follows,
  advance-Passes, advance_while-Follows, advance_while-Passes, peek-eof,
}
use korkscript.Lexer.Cursor.Decode.{SliceFits}
use korkscript.Lexer.Cursor.Scan.{ScansTo}
use korkscript.Lexer.Scan.{Lexed, hung, lexed, skip_digits, thrown}
use korkscript.Lexer.State.{
  Tokenizer, advance, eof, fuel_of, is_hex, is_id_tail, is_var_mid, make, peek,
}
use korkscript.Lexer.Token.{
  Token, TokenType, TokenValue, is_class, is_datablock, is_int_const, ivalue, st_string,
}
use korkscript.Lexer.Words.{
  ident_or, keyword_at, keyword_token, number_from, number_token, scan_exponent, scan_hex,
  scan_ident_or_keyword, scan_mantissa, scan_number, scan_var, var_loop, word_end,
}

-- A scanner that may throw.
abbrev pub LexedFrom : Tokenizer → Lexed → Type 0
LexedFrom t (lexed tok u) = ScansTo t (tok, u)
LexedFrom t thrown = Unit
LexedFrom t hung = ⊥

abbrev pub MayLex : Tokenizer → Option Lexed → Type 0
MayLex t none = Unit
MayLex t (some l) = LexedFrom t l

is_digit-eof : (t : Tokenizer) (off : ℕ) → is_digit (peek t off) ≡ true → eof t off ≡ false
is_digit-eof t off h = peek-eof t off (λ z. ground arith)

skip_digits-Follows : (t : Tokenizer) → IsValid t → Follows t (skip_digits t)
unfolding skip_digits
skip_digits-Follows t v =
    advance_while-Follows (fuel_of t) (λ s. is_digit (peek s 0)) t (λ s. is_digit-eof s 0) v
      (omega arith)

is_hex-eof : (t : Tokenizer) → is_hex (peek t 0) ≡ true → eof t 0 ≡ false
unfolding is_hex
is_hex-eof t h = peek-eof t 0 (λ z. cc (rw z at h))

is_id_tail-eof : (t : Tokenizer) → is_id_tail (peek t 0) ≡ true → eof t 0 ≡ false
unfolding is_id_tail
is_id_tail-eof t h = peek-eof t 0 (λ z. cc (rw z at h))

is_var_mid-eof : (t : Tokenizer) → is_var_mid (peek t 0) ≡ true → eof t 0 ≡ false
unfolding is_var_mid
is_var_mid-eof t h = peek-eof t 0 (λ z. cc (rw z at h))

skip_digits-Passes : (t : Tokenizer) → is_digit (peek t 0) ≡ true → Passes t (skip_digits t)
unfolding skip_digits
skip_digits-Passes t h =
    advance_while-Passes (length t.source) (λ s. is_digit (peek s 0)) t (λ s. is_digit-eof s 0) h
      (omega arith)

-- The cursor stands at a number.
abbrev pub AtNumber : Tokenizer → Type 0
AtNumber t = (is_digit (peek t 0) || peek t 0 == b'.' && is_digit (peek t 1)) ≡ true

dot_end-Follows :
    (t u : Tokenizer)
    → Passes t u
    → Passes t (if peek u 0 == b'.' then skip_digits (advance u) else u)
dot_end-Follows t u p =
    let a = advance-Follows u p.follows.inside in
    ground (
      arith,
      Passes-trans t (advance u) (skip_digits (advance u)) (Passes-trans t u (advance u) p a)
          (skip_digits-Follows (advance u) a.inside),
    )

scan_mantissa-Passes : (t : Tokenizer) → AtNumber t → Passes t (scan_mantissa t).0
unfolding scan_mantissa
scan_mantissa-Passes t h = elim (Bool-cases (peek t 0 == b'.')) [
  | inl e ↦
      let a = advance-Passes t (peek-eof t 0 (λ z. ground arith)) in
      let u = skip_digits (advance t) in
      let b = Passes-trans t (advance t) u a (skip_digits-Follows (advance t) a.follows.inside) in
      rw e (ground (arith, dot_end-Follows t u b))
  | inr e ↦
      let u = skip_digits t in
      let b = skip_digits-Passes t (ground arith) in rw e (ground (arith, dot_end-Follows t u b))
]

-- An exponent, or none, or a bad one.
abbrev Onward : Tokenizer → Option (Tokenizer × Bool) → Type 0
Onward t none = Unit
Onward t (some (u, e)) = Follows t u

scan_exponent-Onward : (t : Tokenizer) → IsValid t → Onward t (scan_exponent t)
unfolding scan_exponent
scan_exponent-Onward t v =
    let e = advance t in
    let a = advance-Follows t v in
    let b = advance-Follows e a.inside in
    let c = skip_digits-Follows e a.inside in
    let d = skip_digits-Follows (advance e) b.inside in
    ground (
      arith,
      Follows-refl t v,
      Follows-trans t e (skip_digits e) a c,
      Follows-trans t (advance e) (skip_digits (advance e)) (Follows-trans t e (advance e) a b) d,
    )

number_token-LexedFrom :
    (overflows : Bytes → Bool) (t u : Tokenizer) (is_float : Bool)
    → Passes t u
    → LexedFrom t (number_token overflows t u is_float)
unfolding number_token make
number_token-LexedFrom overflows t u is_float p = ground arith

number_from-MayLex :
    (overflows : Bytes → Bool) (t s : Tokenizer) (saw_dot : Bool) (r : Option (Tokenizer × Bool))
    → Passes t s
    → Onward s r
    → MayLex t (number_from overflows t saw_dot r)
unfolding number_from
number_from-MayLex overflows t s saw_dot none p o = tt
number_from-MayLex overflows t s saw_dot (some (u, e)) p o =
    number_token-LexedFrom overflows t u (saw_dot || e) (Passes-trans t s u p o)

pub scan_number-MayLex :
    (overflows : Bytes → Bool) (t : Tokenizer) → AtNumber t → MayLex t (scan_number overflows t)
unfolding scan_number
scan_number-MayLex overflows t h =
    let p = scan_mantissa-Passes t h in
    let s = scan_mantissa t in
    ground (
      arith,
      number_from-MayLex overflows t s.0 s.1 (scan_exponent s.0) p
          (scan_exponent-Onward s.0 p.follows.inside),
    )

pub scan_hex-LexedFrom : (t : Tokenizer) → eof t 0 ≡ false → LexedFrom t (scan_hex t)
unfolding scan_hex make
scan_hex-LexedFrom t e =
    let a = advance-Passes t e in
    let b = advance-Follows (advance t) a.follows.inside in
    let s = advance (advance t) in
    let c =
      advance_while-Follows (fuel_of s) (λ u. is_hex (peek u 0)) s is_hex-eof b.inside
        (omega arith) in
    let p = Passes-trans t s _ (Passes-trans t (advance t) s a b) c in ground (arith, p)

word_end-Passes : (t : Tokenizer) → eof t 0 ≡ false → Passes t (word_end t)
unfolding word_end
word_end-Passes t e =
    let a = advance-Passes t e in
    Passes-trans t (advance t) _ a (
      advance_while-Follows (fuel_of (advance t)) (λ u. is_id_tail (peek u 0)) (advance t)
        is_id_tail-eof a.follows.inside (omega arith))

-- A keyword's token holds no slice.
abbrev NoSlice : Option Token → Type 0
NoSlice none = Unit
NoSlice (some tok) = (u : Tokenizer) → SliceFits u tok.val

keyword_token-NoSlice :
    (t : Tokenizer) (c : ℕ) (k : Option TokenType) → NoSlice (keyword_token t c k)
unfolding keyword_token
keyword_token-NoSlice t c none = tt
keyword_token-NoSlice t c (some k) = elim (Bool-cases (is_int_const k)) [
  | inl e ↦ rw e (λ u. tt)
  | inr e ↦ rw e (not_int (is_class k) (not t.enable_script_classes) (is_datablock k))
]
  where
    tok : TokenValue → Option Token
    tok v = some (record { kind = k; pos = t.pos; val = v })

    not_int :
        (b c d : Bool)
        → NoSlice (
            if b && c
            then none
            else if b
            then tok (st_string (codes "class"))
            else if d
            then tok (st_string (codes "datablock"))
            else tok (ivalue 0))
    not_int true true d = tt
    not_int true false d = λ u. tt
    not_int false c true = λ u. tt
    not_int false c false = λ u. tt

ident_or-ScansTo :
    (t word star : Tokenizer) (k : Option Token)
    → Passes t word
    → Passes t star
    → NoSlice k
    → ScansTo t (ident_or t word star k)
unfolding ident_or
ident_or-ScansTo t word star none p q n = (p, tt)
ident_or-ScansTo t word star (some tok) p q n = (q, n star)

pub scan_ident_or_keyword-ScansTo :
    (t : Tokenizer) → eof t 0 ≡ false → ScansTo t (scan_ident_or_keyword t)
unfolding scan_ident_or_keyword
scan_ident_or_keyword-ScansTo t e =
    let word = word_end t in
    let p = word_end-Passes t e in
    let star = if peek word 0 == b'$' then advance word else word in
    let q : Passes t star =
      ground
        (arith, Passes-trans t word (advance word) p (advance-Follows word p.follows.inside)) in
    ident_or-ScansTo t word star _ p q
      (keyword_token-NoSlice t (get_or t.source t.byte_pos 0) (keyword_at t star))

var_loop-Passes :
    (fuel : ℕ) (t last u : Tokenizer)
    → Passes t last
    → Passes t u
    → length u.source < fuel + u.byte_pos
    → Passes t (var_loop fuel last u)
unfolding var_loop
var_loop-Passes zero t last u p f h = absurd (omega (arith, f.follows.inside))
var_loop-Passes (suc fuel) t last u p f h = elim (Bool-cases (is_var_mid (peek u 0))) [
  | inl e ↦
      let b = advance-Passes u (is_var_mid-eof u e) in
      let a = Passes-trans t u (advance u) f b.follows in
      let left : length (advance u).source < fuel + (advance u).byte_pos = omega (arith, b) in
      rw e (elim (Bool-cases (is_id_tail (peek u 0))) [
        | inl k ↦ rw k (var_loop-Passes fuel t (advance u) (advance u) a a left)
        | inr k ↦ rw k (var_loop-Passes fuel t last (advance u) p a left)
      ])
  | inr e ↦ rw e p
]

pub scan_var-ScansTo : (t : Tokenizer) → eof t 0 ≡ false → ScansTo t (scan_var t)
unfolding scan_var make
scan_var-ScansTo t e =
    let a = advance-Passes t e in
    let b = advance-Follows (advance t) a.follows.inside in
    let first = advance (advance t) in
    let p = Passes-trans t (advance t) first a b in
    (var_loop-Passes (fuel_of first) t first first p p (omega arith), tt)
