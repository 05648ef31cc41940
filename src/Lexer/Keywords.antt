-- ===== src/Lexer/Keywords.antt =====
-- engine/console/simpleLexer.h: lemmas on the keyword table of `scanIdentOrKeyword`.
pub mod Exact
use korkscript.Prelude.{
  Bool, Bool-cases, Bytes, List, Option, [], arith, equal, false, get_or, if◌then◌else◌, inl, inr,
  length, max, none, not, refl, some, suc, take, true, zero, ℕ, ◌&&◌, ◌==◌, ◌∷◌, ◌≡◌,
}
use korkscript.Lexer.State.{is_id_tail}
use korkscript.Lexer.Token.{TokenType}
use korkscript.Lexer.Words.{find_keyword, keyword_table, strncmp_eq}

abbrev null : Bytes → Bool
null [] = true
null (c ∷ cs) = false

-- Letters, digits and underscores, and a `$` at the end at most.
abbrev is_word : Bytes → Bool
is_word [] = true
is_word (c ∷ cs) = if c == b'$' then null cs else is_id_tail c && is_word cs

-- The first `n` bytes of the memory are such a word, and it ends there: with a `$`, or in front of
-- a byte that could not go on.
abbrev pub word_ends : ℕ → Bytes → Bool
word_ends zero mem = not (is_id_tail (get_or mem 0 0)) && not (get_or mem 0 0 == b'$')
word_ends (suc n) [] = false
word_ends (suc n) (x ∷ mem) = if x == b'$' then n == 0 else is_id_tail x && word_ends n mem

-- The first keyword that is equal to a text.
abbrev pub keyword_of : Bytes → List (Bytes × TokenType) → Option TokenType
keyword_of text [] = none
keyword_of text ((w, k) ∷ rest) = if equal text w then some k else keyword_of text rest

abbrev all_words : List (Bytes × TokenType) → Bool
all_words [] = true
all_words ((w, k) ∷ rest) = is_word w && all_words rest

is_word-head : (c : ℕ) (cs : Bytes) → is_word (c ∷ cs) ≡ true → (c == 0) ≡ false
unfolding is_id_tail
is_word-head c cs h = ground arith

-- Where the memory ends the word, the next byte of a keyword differs from what is there.
stop-head :
    (c x : ℕ) (cs : Bytes)
    → is_word (c ∷ cs) ≡ true
    → (not (is_id_tail x) && not (x == b'$')) ≡ true
    → (x == c) ≡ false
unfolding is_id_tail
stop-head c x cs h k = ground arith

word_ends-head : (n x : ℕ) (mem : Bytes) → word_ends (suc n) (x ∷ mem) ≡ true → (x == 0) ≡ false
unfolding is_id_tail
word_ends-head n x mem h = ground arith

-- A word that has ended with its `$`.
ended :
    (n : ℕ) (mem w : Bytes)
    → (n == 0) ≡ true
    → null w ≡ true
    → strncmp_eq (max n (length w)) mem w ≡ equal (take n mem) w
unfolding strncmp_eq equal
ended zero mem [] h k = refl
ended zero mem (c ∷ w) h k = absurd (ground arith)
ended (suc n) mem w h k = absurd (ground arith)

and-same : (b : Bool) {p q : Bool} → (b ≡ true → p ≡ q) → (b && p) ≡ (b && q)
and-same true h = h refl
and-same false h = refl

-- The comparison of the loop is equality with the word.
strncmp_eq-equal :
    (n : ℕ) (mem w : Bytes)
    → is_word w ≡ true
    → word_ends n mem ≡ true
    → strncmp_eq (max n (length w)) mem w ≡ equal (take n mem) w
unfolding strncmp_eq equal
strncmp_eq-equal zero mem [] h k = refl
strncmp_eq-equal zero [] (c ∷ w) h k =
    let m : max 0 (suc (length w)) ≡ suc (length w) = omega arith in rw m (is_word-head c w h)
strncmp_eq-equal zero (x ∷ mem) (c ∷ w) h k =
    let m : max 0 (suc (length w)) ≡ suc (length w) = omega arith in
    rw (m, strncmp_eq, stop-head c x w h k) refl
strncmp_eq-equal (suc n) [] w h k = absurd (ground arith)
strncmp_eq-equal (suc n) (x ∷ mem) [] h k =
    let m : max (suc n) 0 ≡ suc n = omega arith in rw m (word_ends-head n x mem k)
strncmp_eq-equal (suc n) (x ∷ mem) (c ∷ w) h k =
    let m : max (suc n) (suc (length w)) ≡ suc (max n (length w)) = omega arith in
    rw (m, strncmp_eq, word_ends-head n x mem k)
      (and-same (x == c) (λ same. elim (Bool-cases (x == b'$')) [
        | inl e ↦ ended n mem w (ground arith) (ground arith)
        | inr e ↦ strncmp_eq-equal n mem w (ground arith) (ground arith)
      ]))

find_keyword-keyword_of :
    (n : ℕ) (mem : Bytes) (table : List (Bytes × TokenType))
    → all_words table ≡ true
    → word_ends n mem ≡ true
    → find_keyword n mem table ≡ keyword_of (take n mem) table
unfolding find_keyword
find_keyword-keyword_of n mem [] h k = refl
find_keyword-keyword_of n mem ((w, t) ∷ rest) h k =
    rw
      (
        strncmp_eq-equal n mem w (ground arith) k,
        find_keyword-keyword_of n mem rest (ground arith) k,
      )
      refl

-- The keyword that is found for a word that ends is the one that its text is equal to.
pub find_keyword-keyword_table :
    (n : ℕ) (mem : Bytes)
    → word_ends n mem ≡ true
    → find_keyword n mem keyword_table ≡ keyword_of (take n mem) keyword_table
unfolding is_id_tail
find_keyword-keyword_table n mem k = find_keyword-keyword_of n mem keyword_table refl k
