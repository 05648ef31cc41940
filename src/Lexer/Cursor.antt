-- ===== src/Lexer/Cursor.antt =====
-- engine/console/simpleLexer.h: lemmas on the cursor of the tokenizer.
pub mod Decode
pub mod Scan
pub mod Words
pub mod Next
pub mod Total
pub mod Process
use korkscript.Prelude.{
  Bool, Bool-cases, arith, false, inl, inr, length, refl, suc, true, zero, ℕ, ◌+◌, ◌<◌, ◌≡◌, ◌≢◌,
  ◌≤◌,
}
use korkscript.Lexer.State.{
  Tokenizer, advance, advance_n, advance_newline, advance_while, comment_advance, eof, fuel_of,
  is_space, peek, skip_block_comment, skip_comment_loop, skip_spaces,
}

-- The cursor is in the buffer or at its end.
abbrev pub IsValid : Tokenizer → Type 0
IsValid t = t.byte_pos ≤ length t.source

-- `u` is a state that `t` may move to.
pub record Follows (t u : Tokenizer) : Type 0 where
  pub same_length : length u.source ≡ length t.source
  pub forward : t.byte_pos ≤ u.byte_pos
  pub inside : u.byte_pos ≤ length u.source
  pub same_spins : u.spins ≡ t.spins

-- The same, with at least one byte consumed.
pub record Passes (t u : Tokenizer) : Type 0 where
  pub follows : Follows t u
  pub further : t.byte_pos < u.byte_pos

pub Follows-refl : (t : Tokenizer) → IsValid t → Follows t t
Follows-refl t v = record {
  same_length = refl;
  forward = omega arith;
  inside = v;
  same_spins = refl;
}

pub Follows-trans : (t u w : Tokenizer) → Follows t u → Follows u w → Follows t w
Follows-trans t u w a b = omega arith

pub Passes-trans : (t u w : Tokenizer) → Passes t u → Follows u w → Passes t w
Passes-trans t u w a b = omega arith

pub Follows-IsValid : (t u : Tokenizer) → Follows t u → IsValid u
Follows-IsValid t u f = f.inside

-- A byte that is there lies before the end.
pub peek-eof : (t : Tokenizer) (off : ℕ) → peek t off ≢ 0 → eof t off ≡ false
unfolding peek
peek-eof t off h = ground arith

pub eof-inside :
    (t : Tokenizer) (off : ℕ) → eof t off ≡ false → t.byte_pos + off + 1 < length t.source
unfolding eof
eof-inside t off h = ground arith

pub advance-Follows : (t : Tokenizer) → IsValid t → Follows t (advance t)
unfolding advance
advance-Follows t v = ground arith

pub advance-Passes : (t : Tokenizer) → eof t 0 ≡ false → Passes t (advance t)
unfolding advance
advance-Passes t e = ground (arith, eof-inside t 0 e)

pub advance_newline-Passes : (t : Tokenizer) → eof t 0 ≡ false → Passes t (advance_newline t)
unfolding advance_newline
advance_newline-Passes t e = ground (arith, eof-inside t 0 e)

pub advance_n-Follows : (n : ℕ) (t : Tokenizer) → IsValid t → Follows t (advance_n n t)
unfolding advance_n
advance_n-Follows zero t v = Follows-refl t v
advance_n-Follows (suc n) t v =
    let a = advance-Follows t v in
    Follows-trans t (advance t) (advance_n n (advance t)) a
      (advance_n-Follows n (advance t) a.inside)

pub advance_n-Passes :
    (n : ℕ) (t : Tokenizer) → IsValid t → eof t 0 ≡ false → 0 < n → Passes t (advance_n n t)
unfolding advance_n
advance_n-Passes zero t v e h = absurd (omega arith)
advance_n-Passes (suc n) t v e h =
    let a = advance-Passes t e in
    Passes-trans t (advance t) (advance_n n (advance t)) a
      (advance_n-Follows n (advance t) a.follows.inside)

pub advance_while-Follows :
    (fuel : ℕ) (test : Tokenizer → Bool) (t : Tokenizer)
    → ((s : Tokenizer) → test s ≡ true → eof s 0 ≡ false)
    → IsValid t
    → length t.source < fuel + t.byte_pos
    → Follows t (advance_while fuel test t)
unfolding advance_while
advance_while-Follows zero test t there v h = absurd (omega arith)
advance_while-Follows (suc fuel) test t there v h = elim (Bool-cases (test t)) [
  | inl e ↦
      let a = advance-Passes t (there t e) in
      rw (e, advance_while)
        (Follows-trans t (advance t) (advance_while fuel test (advance t)) a.follows
          (advance_while-Follows fuel test (advance t) there a.follows.inside (omega (arith, a))))
  | inr e ↦ rw (e, advance_while) (Follows-refl t v)
]

-- A loop whose first test holds passes a byte.
pub advance_while-Passes :
    (fuel : ℕ) (test : Tokenizer → Bool) (t : Tokenizer)
    → ((s : Tokenizer) → test s ≡ true → eof s 0 ≡ false)
    → test t ≡ true
    → length t.source ≤ fuel + t.byte_pos
    → Passes t (advance_while (suc fuel) test t)
unfolding advance_while
advance_while-Passes fuel test t there h k =
    let a = advance-Passes t (there t h) in
    rw (h, advance_while)
      (Passes-trans t (advance t) _ a
        (advance_while-Follows fuel test (advance t) there a.follows.inside (omega (arith, a))))

is_space-eof : (s : Tokenizer) → is_space (peek s 0) ≡ true → eof s 0 ≡ false
unfolding is_space
is_space-eof s e = peek-eof s 0 (λ z. cc (rw z at e))

-- A run of blanks is passed, at least by its first byte.
pub skip_spaces-Passes :
    (t : Tokenizer) → IsValid t → is_space (peek t 0) ≡ true → Passes t (skip_spaces t)
unfolding skip_spaces
skip_spaces-Passes t v e =
    advance_while-Passes (length t.source) (λ s. is_space (peek s 0)) t is_space-eof e (omega arith)

comment_advance-Passes : (t : Tokenizer) → eof t 0 ≡ false → Passes t (comment_advance t)
unfolding comment_advance
comment_advance-Passes t e = ground (arith, advance-Passes t e, advance_newline-Passes t e)

pub skip_comment_loop-Follows :
    (fuel prev : ℕ) (t : Tokenizer)
    → IsValid t
    → length t.source < fuel + t.byte_pos
    → Follows t (skip_comment_loop fuel prev t).1
unfolding skip_comment_loop
skip_comment_loop-Follows zero prev t v h = absurd (omega arith)
skip_comment_loop-Follows (suc fuel) prev t v h = elim (Bool-cases (eof t 0)) [
  | inl e ↦ rw e (Follows-refl t v)
  | inr e ↦
      let a = comment_advance-Passes t e in
      let rest =
        skip_comment_loop-Follows fuel (peek t 0) (comment_advance t) a.follows.inside
          (omega (arith, a)) in
      let onward = Follows-trans t (comment_advance t) _ a.follows rest in
      rw e (ground (arith, onward, a.follows))
]

pub skip_block_comment-Passes :
    (t : Tokenizer) → eof t 0 ≡ false → Passes t (skip_block_comment t).1
unfolding skip_block_comment
skip_block_comment-Passes t e =
    let a = advance-Passes t e in
    let b = advance-Follows (advance t) a.follows.inside in
    let s = advance (advance t) in
    Passes-trans t s _ (Passes-trans t (advance t) s a b)
      (skip_comment_loop-Follows (fuel_of s) 0 s b.inside (omega arith))
