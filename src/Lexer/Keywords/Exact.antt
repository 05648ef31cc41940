-- ===== src/Lexer/Keywords/Exact.antt =====
-- engine/console/simpleLexer.h: the word that `scanIdentOrKeyword` compares.
use korkscript.Prelude.{
  Bool, Bool-cases, Bytes, [], ap, arith, drop, false, get_or, if◌then◌else◌, inl, inr, length, ltb,
  refl, suc, sym, true, zero, ℕ, ◌+◌, ◌-◌, ◌<◌, ◌==◌, ◌∙◌, ◌∷◌, ◌≡◌, ◌≢◌, ◌≤◌,
}
use korkscript.Lexer.Cursor.{
  Follows, Follows-refl, Follows-trans, IsValid, advance-Follows, advance-Passes,
  advance_while-Follows, eof-inside, peek-eof,
}
use korkscript.Lexer.Keywords.{find_keyword-keyword_table, keyword_of, word_ends}
use korkscript.Lexer.Scan.{slice}
use korkscript.Lexer.State.{
  Tokenizer, advance, advance_while, eof, fuel_of, is_id_tail, is_letter, peek,
}
use korkscript.Lexer.Words.{
  ident_or, keyword_at, keyword_table, keyword_token, scan_ident_or_keyword, word_end,
}

-- The buffer ends with its terminator.
abbrev pub IsTerminated : Tokenizer → Type 0
IsTerminated t = get_or t.source (length t.source - 1) 0 ≡ 0

-- The cursor behind a `$`, if one stands there.
abbrev pub star_of : Tokenizer → Tokenizer
star_of t = if peek t 0 == b'$' then advance t else t

drop-get_or : (xs : Bytes) (i : ℕ) → i < length xs → drop i xs ≡ get_or xs i 0 ∷ drop (suc i) xs
drop-get_or [] i h = absurd (omega arith)
drop-get_or (x ∷ xs) zero h = refl
drop-get_or (x ∷ xs) (suc i) h = drop-get_or xs i (omega arith)

get_or-drop : (xs : Bytes) (i : ℕ) → get_or (drop i xs) 0 0 ≡ get_or xs i 0
get_or-drop [] zero = refl
get_or-drop [] (suc i) = refl
get_or-drop (x ∷ xs) zero = refl
get_or-drop (x ∷ xs) (suc i) = get_or-drop xs i

get_or_beyond : (xs : Bytes) (i : ℕ) → length xs ≤ i → get_or xs i 0 ≡ 0
get_or_beyond [] i h = refl
get_or_beyond (x ∷ xs) zero h = absurd (omega arith)
get_or_beyond (x ∷ xs) (suc i) h = get_or_beyond xs i (omega arith)

end-zero :
    (xs : Bytes) (i : ℕ) → get_or xs (length xs - 1) 0 ≡ 0 → length xs ≤ i + 1 → get_or xs i 0 ≡ 0
end-zero xs i z h = elim (Bool-cases (ltb i (length xs))) [
  | inl e ↦ let last : length xs - 1 ≡ i = ground arith in rw last at z
  | inr e ↦ get_or_beyond xs i (ground arith)
]

peek_inside : (t : Tokenizer) → eof t 0 ≡ false → peek t 0 ≡ get_or t.source t.byte_pos 0
unfolding peek
peek_inside t e = let here : t.byte_pos + 0 ≡ t.byte_pos = omega arith in rw (e, here) refl

peek_end : (t : Tokenizer) → eof t 0 ≡ true → peek t 0 ≡ 0
unfolding peek
peek_end t e = rw e refl

-- `peek` shows the byte at the cursor, also at the end.
peek-head : (t : Tokenizer) → IsTerminated t → get_or (drop t.byte_pos t.source) 0 0 ≡ peek t 0
peek-head t z = get_or-drop t.source t.byte_pos ∙ elim (Bool-cases (eof t 0)) [
  | inl e ↦ end-zero t.source t.byte_pos z (unfold eof in ground arith) ∙ sym (peek_end t e)
  | inr e ↦ sym (peek_inside t e)
]

advance_pos : (t : Tokenizer) → eof t 0 ≡ false → (advance t).byte_pos ≡ suc t.byte_pos
unfolding advance
advance_pos t e = rw e (omega arith)

advance_source : (t : Tokenizer) → (advance t).source ≡ t.source
unfolding advance
advance_source t = elim (Bool-cases (eof t 0)) [ inl e ↦ rw e refl | inr e ↦ rw e refl ]

rest_of :
    (t : Tokenizer)
    → eof t 0 ≡ false
    → drop t.byte_pos t.source ≡ peek t 0 ∷ drop (advance t).byte_pos (advance t).source
rest_of t e =
    rw (advance_pos t e, advance_source t, peek_inside t e)
      (drop-get_or t.source t.byte_pos (omega (arith, eof-inside t 0 e)))

advance-IsTerminated : (t : Tokenizer) → IsTerminated t → IsTerminated (advance t)
advance-IsTerminated t z = rw (advance_source t) z

star_of-Follows : (t : Tokenizer) → IsValid t → Follows t (star_of t)
star_of-Follows t v = ground (arith, advance-Follows t v, Follows-refl t v)

abbrev pub on_tail : Tokenizer → Bool
on_tail t = is_id_tail (peek t 0)

tail_positive : (c : ℕ) → is_id_tail c ≡ true → c ≢ 0
unfolding is_id_tail
tail_positive c h z = ground arith

on_tail-eof : (t : Tokenizer) → on_tail t ≡ true → eof t 0 ≡ false
on_tail-eof t h = peek-eof t 0 (tail_positive (peek t 0) h)

tail_no_dollar : (c : ℕ) → is_id_tail c ≡ true → (c == b'$') ≡ false
unfolding is_id_tail
tail_no_dollar c h = ground arith

-- A byte of the word in front of the rest of it.
word_ends-advance :
    (t u : Tokenizer)
    → on_tail t ≡ true
    → Follows (advance t) u
    → word_ends (u.byte_pos - (advance t).byte_pos) (drop (advance t).byte_pos (advance t).source)
      ≡ true
    → word_ends (u.byte_pos - t.byte_pos) (drop t.byte_pos t.source) ≡ true
word_ends-advance t u h f k =
    let e = on_tail-eof t h in
    let more : u.byte_pos - t.byte_pos ≡ suc (u.byte_pos - (advance t).byte_pos) =
      omega (arith, advance_pos t e, f.forward) in
    rw (more, rest_of t e, word_ends, tail_no_dollar (peek t 0) h, h) k

-- The word is over where the cursor stands, or behind the `$` there.
word_ends-star_of :
    (t : Tokenizer)
    → IsTerminated t
    → on_tail t ≡ false
    → word_ends ((star_of t).byte_pos - t.byte_pos) (drop t.byte_pos t.source) ≡ true
word_ends-star_of t z h = elim (Bool-cases (peek t 0 == b'$')) [
  | inl e ↦
      let inside = peek-eof t 0 (λ q. ground arith) in
      let one : (advance t).byte_pos - t.byte_pos ≡ 1 = omega (arith, advance_pos t inside) in
      rw (e, one, rest_of t inside) (rw e refl)
  | inr e ↦
      let none_more : t.byte_pos - t.byte_pos ≡ 0 = omega arith in
      rw (e, none_more, peek-head t z, h, e) refl
]

-- The loop over the letters, then the `$`.
advance_while-word_ends :
    (fuel : ℕ) (t : Tokenizer)
    → IsValid t
    → IsTerminated t
    → length t.source < fuel + t.byte_pos
    → word_ends
        ((star_of (advance_while fuel on_tail t)).byte_pos - t.byte_pos)
        (drop t.byte_pos t.source)
      ≡ true
unfolding advance_while
advance_while-word_ends zero t v z h = absurd (omega arith)
advance_while-word_ends (suc fuel) t v z h = elim (Bool-cases (on_tail t)) [
  | inl e ↦
      let a = advance-Passes t (on_tail-eof t e) in
      let s = advance_while fuel on_tail (advance t) in
      let b =
        advance_while-Follows fuel on_tail (advance t) on_tail-eof a.follows.inside
          (omega (arith, a)) in
      rw (e, advance_while)
        (word_ends-advance t (star_of s) e
          (Follows-trans (advance t) s (star_of s) b (star_of-Follows s b.inside))
          (advance_while-word_ends fuel (advance t) a.follows.inside (advance-IsTerminated t z)
            (omega (arith, a.further, a.follows.same_length))))
  | inr e ↦ rw (e, advance_while) (word_ends-star_of t z e)
]

letter-tail : (c : ℕ) → is_letter c ≡ true → is_id_tail c ≡ true
unfolding is_letter is_id_tail
letter-tail c h = ground arith

-- In a buffer that ends with its terminator, a word that begins with a letter becomes the token of
-- the first keyword that its whole text, with a `$` behind it if there is one, is equal to; otherwise,
-- or when the keyword is `class` and script classes are off, it becomes an identifier without the `$`.
pub scan_ident_or_keyword-keyword_of :
    (t : Tokenizer)
    → IsValid t
    → IsTerminated t
    → is_letter (peek t 0) ≡ true
    → let star = star_of (word_end t) in
      let text = slice t t.byte_pos star.byte_pos in
      scan_ident_or_keyword t
      ≡ ident_or t
          (word_end t)
          star
          (keyword_token t (get_or t.source t.byte_pos 0) (keyword_of text keyword_table))
unfolding scan_ident_or_keyword keyword_at word_end
scan_ident_or_keyword-keyword_of t v z h =
    let first = letter-tail (peek t 0) h in
    let a = advance-Passes t (on_tail-eof t first) in
    let s = advance t in
    let w = advance_while (fuel_of s) on_tail s in
    let b =
      advance_while-Follows (fuel_of s) on_tail s on_tail-eof a.follows.inside (omega arith) in
    let ends =
      word_ends-advance t (star_of w) first
        (Follows-trans s w (star_of w) b (star_of-Follows w b.inside))
        (advance_while-word_ends (fuel_of s) s a.follows.inside (advance-IsTerminated t z)
          (omega (arith, a.further))) in
    ap (λ k. ident_or t w (star_of w) (keyword_token t (get_or t.source t.byte_pos 0) k))
      (find_keyword-keyword_table ((star_of w).byte_pos - t.byte_pos) (drop t.byte_pos t.source)
        ends)
