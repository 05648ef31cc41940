-- ===== src/FindMatch/Glob.antt =====
-- engine/core/findMatch.cc: which texts an expression is meant to match.
use korkscript.Prelude.{
  Bool, Bool-cases, Bytes, List, [], ap, arith, drop, false, if◌then◌else◌, inl, inr, length, map,
  refl, subst, suc, sym, tail, true, zero, ℕ, ◌&&◌, ◌+◌, ◌==◌, ◌||◌, ◌↔◌, ◌∙◌, ◌∷◌, ◌≡◌, ◌≢◌, ◌⊎◌,
}
use korkscript.FindMatch.{is_char_match, only_stars, to_upper}

-- `*` is any text, `?` any byte, and a letter stands for its two cases.
pub data Glyph : Type 0 where
  star any_byte : Glyph
  letter : ℕ → Glyph

unfoldable pub glyph : ℕ → Glyph
glyph e = if e == b'*' then star else if e == b'?' then any_byte else letter e

abbrev pub Matches : List Glyph → Bytes → Type 0
Matches [] s = s ≡ []
Matches (star ∷ p) s = (n : ℕ) × Matches p (drop n s)
Matches (any_byte ∷ p) [] = ⊥
Matches (any_byte ∷ p) (c ∷ s) = Matches p s
Matches (letter e ∷ p) [] = ⊥
Matches (letter e ∷ p) (c ∷ s) = (to_upper e ≡ to_upper c) × Matches p s

abbrev pub GlobMatches : Bytes → Bytes → Type 0
GlobMatches exp s = Matches (map glyph exp) s

-- Somewhere in the text.
abbrev pub Later : List Glyph → Bytes → Type 0
Later p s = Matches (star ∷ p) s

abbrev nothing : Bytes
nothing = []

drop_nil : (n : ℕ) → drop n nothing ≡ []
drop_nil zero = refl
drop_nil (suc n) = refl

suc_sum : (m n : ℕ) → suc (m + n) ≡ suc m + n
suc_sum m n = omega arith

drop-drop : (n m : ℕ) (s : Bytes) → drop n (drop m s) ≡ drop (m + n) s
drop-drop n zero s = ap (λ k. drop k s) (omega arith)
drop-drop n (suc m) [] = drop_nil n ∙ sym (drop_nil (suc m + n))
drop-drop n (suc m) (c ∷ s) = drop-drop n m s ∙ ap (λ k. drop k (c ∷ s)) (suc_sum m n)

drop_all : (s : Bytes) → drop (length s) s ≡ []
drop_all [] = refl
drop_all (c ∷ s) = drop_all s

drop-tail : (n : ℕ) (s : Bytes) → drop n (tail s) ≡ drop (suc n) s
drop-tail n [] = drop_nil n
drop-tail n (c ∷ s) = refl

-- At the place itself, or behind its first byte.
pub here : (p : List Glyph) (s : Bytes) → Matches p s → Later p s
here p s h = (0, h)

pub behind : (p : List Glyph) (s : Bytes) → Later p (tail s) → Later p s
behind p s (n, h) = (suc n, subst (Matches p) (drop-tail n s) h)

pub here_or_behind : (p : List Glyph) (s : Bytes) → Later p s → Matches p s ⊎ Later p (tail s)
here_or_behind p s (zero, h) = inl h
here_or_behind p s (suc n, h) = inr (n, subst (Matches p) (sym (drop-tail n s)) h)

-- A second star adds nothing.
pub star_star : (p : List Glyph) (s : Bytes) → Later (star ∷ p) s → Later p s
star_star p s (n, (m, h)) = (n + m, subst (Matches p) (drop-drop m n s) h)

pub at_end : (p : List Glyph) → Later p [] → Matches p []
at_end p (n, h) = subst (Matches p) (drop_nil n) h

pub all_taken : (s : Bytes) → Matches (star ∷ []) s
all_taken s = (length s, drop_all s)

-- What a glyph takes, when it is no star.
abbrev pub Takes : ℕ → ℕ → Type 0
Takes e c = (e ≡ b'?') ⊎ (to_upper e ≡ to_upper c)

glyph_cases :
    (e : ℕ) → e ≢ b'*' → ((e ≡ b'?') × (glyph e ≡ any_byte)) ⊎ ((e ≢ b'?') × (glyph e ≡ letter e))
unfolding glyph
glyph_cases e h = elim (Bool-cases (e == b'?')) [
  | inl q ↦ inl (ground arith, ground arith)
  | inr q ↦ inr (ground arith, ground arith)
]

took : (e c : ℕ) → e ≢ b'?' → Takes e c → to_upper e ≡ to_upper c
took e c q (inl k) = absurd (q k)
took e c q (inr k) = k

-- An expression whose first byte is no star takes a byte of the text.
pub Matches-cons :
    (e c : ℕ) (p : List Glyph) (s : Bytes)
    → e ≢ b'*'
    → Matches (glyph e ∷ p) (c ∷ s) ↔ (Takes e c × Matches p s)
Matches-cons e c p s h = elim (glyph_cases e h) [
  | inl (q, g) ↦ rw g (λ k. (inl q, k), λ k. k.1)
  | inr (q, g) ↦ rw g (λ k. (inr k.0, k.1), λ k. (took e c q k.0, k.1))
]

pub Matches-nil : (e : ℕ) (p : List Glyph) → e ≢ b'*' → ¬ Matches (glyph e ∷ p) []
Matches-nil e p h = elim (glyph_cases e h) [
  | inl (q, g) ↦ rw g (λ k. k)
  | inr (q, g) ↦ rw g (λ k. k)
]

pub glyph_star : (e : ℕ) → (e == b'*') ≡ true → glyph e ≡ star
unfolding glyph
glyph_star e h = rw h refl

pub not_star : (e : ℕ) → (e == b'*') ≡ false → e ≢ b'*'
not_star e h = ground arith

-- The whole expression after its first byte was looked at.
pub star_iff :
    (e : ℕ) (p : Bytes) (s : Bytes)
    → (e == b'*') ≡ true
    → GlobMatches (e ∷ p) s ↔ Later (map glyph p) s
star_iff e p s h = rw (glyph_star e h) (λ k. k, λ k. k)

-- `only_stars` is the end of the text.
pub only_stars_iff : (p : Bytes) → (only_stars p ≡ true) ↔ GlobMatches p []
unfolding only_stars
only_stars_iff [] = (λ h. refl, λ h. refl)
only_stars_iff (e ∷ p) = elim (Bool-cases (e == b'*')) [
  | inl h ↦
      rw (h, glyph_star e h)
        (λ k. here _ [] ((only_stars_iff p).0 k), λ k. (only_stars_iff p).1 (at_end _ k))
  | inr h ↦ rw h (λ k. absurd (ground (arith, k)), λ k. absurd (Matches-nil e _ (not_star e h) k))
]

any_of :
    (e s q x y : ℕ) (b : Bool)
    → (e ≡ s → x ≡ y)
    → ((e == q || (b && e == s) || x == y) ≡ true) ↔ ((e ≡ q) ⊎ (x ≡ y))
any_of e s q x y b f = elim (Bool-cases (e == q)) [
  | inl h ↦ (λ k. inl (ground (arith, h)), λ k. rw h refl)
  | inr h ↦ elim (Bool-cases (x == y)) [
    | inl k ↦ (λ j. inr (ground (arith, k)), λ j. rw (h, k) (ends_true b (e == s)))
    | inr k ↦ elim (Bool-cases (e == s)) [
      | inl l ↦ absurd (ground (arith, f (ground (arith, l)), k))
      | inr l ↦ rw (h, k, l) (λ j. absurd (all_false b j), λ j. absurd (neither j h k))
    ]
  ]
]
  where
    ends_true : (a c : Bool) → (false || (a && c) || true) ≡ true
    ends_true false c = refl
    ends_true true false = refl
    ends_true true true = refl

    all_false : (a : Bool) → ¬ ((false || (a && false) || false) ≡ true)
    all_false false j = ground arith
    all_false true j = ground arith

    neither : (e ≡ q) ⊎ (x ≡ y) → (e == q) ≡ false → (x == y) ≡ false → ⊥
    neither (inl j) h k = ground arith
    neither (inr j) h k = ground arith

pub is_char_match_iff :
    (e c : ℕ) (case_sensitive : Bool) → (is_char_match e c case_sensitive ≡ true) ↔ Takes e c
unfolding is_char_match
is_char_match_iff e c case_sensitive =
    any_of e c b'?' (to_upper e) (to_upper c) case_sensitive (ap to_upper)
