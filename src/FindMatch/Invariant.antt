-- ===== src/FindMatch/Invariant.antt =====
-- engine/core/findMatch.cc: what the second loop of `isMatch` keeps, and what a round does to it.
use korkscript.Prelude.{
  AreNonzero, Bool, Bool-cases, Bytes, [], arith, drop, false, inl, inr, length, map, refl, subst,
  suc, tail, true, zero, ℕ, ◌*◌, ◌+◌, ◌<◌, ◌==◌, ◌↔◌, ◌∷◌, ◌≡◌, ◌≤◌, ◌⊎◌,
}
use korkscript.FindMatch.{
  Found, Marks, again, answer, is_char_match, match_loop, match_round, only_stars, outside, over,
  running,
}
use korkscript.FindMatch.Glob.{
  GlobMatches, Later, Matches-cons, Matches-nil, Takes, behind, glyph, glyph_star, here,
  here_or_behind, is_char_match_iff, not_star, only_stars_iff, star_iff, star_star,
}

-- The call came back, and with the answer to `G`.
abbrev pub Decides : Type 0 → Found → Type 0
Decides G (answer true) = G
Decides G (answer false) = ¬ G
Decides G outside = ⊥
Decides G running = ⊥

pub Decides-map : {G H : Type 0} (r : Found) → G ↔ H → Decides G r → Decides H r
Decides-map (answer true) e h = e.0 h
Decides-map (answer false) e h = λ k. h (e.1 k)
Decides-map outside e h = h
Decides-map running e h = h

-- A byte of a text is none of a terminator's.
pub not_taken : (c : ℕ) (case_sensitive : Bool) → 0 < c → is_char_match 0 c case_sensitive ≡ false
not_taken c case_sensitive h = elim (Bool-cases (is_char_match 0 c case_sensitive)) [
  | inl k ↦ absurd (elim ((is_char_match_iff 0 c case_sensitive).0 k) [
    | inl q ↦ ground arith
    | inr q ↦ ground arith
  ])
  | inr k ↦ k
]

pub ended : {G : Type 0} (p : Bytes) → G ↔ GlobMatches p [] → Decides G (answer (only_stars p))
ended p e = elim (Bool-cases (only_stars p)) [
  | inl h ↦ rw h (e.1 ((only_stars_iff p).0 h))
  | inr h ↦ rw h (λ g. absurd (ground (arith, h, (only_stars_iff p).1 (e.0 g))))
]

AreNonzero-tail : (s : Bytes) → AreNonzero s → AreNonzero (tail s)
AreNonzero-tail [] h = h
AreNonzero-tail (c ∷ s) h = h.1

-- Behind a byte that is no star, a match further on is one behind the next byte.
later_cons :
    (e c : ℕ) (p s : Bytes)
    → (e == b'*') ≡ false
    → Later (map glyph (e ∷ p)) (c ∷ s)
    → Later (map glyph p) s
later_cons e c p s h (zero, d) = here _ s ((Matches-cons e c _ s (not_star e h)).0 d).1
later_cons e c p s h (suc n, d) = later_in e p h n s d
  where
    later_in :
        (e : ℕ) (p : Bytes)
        → (e == b'*') ≡ false
        → (n : ℕ) (s : Bytes) → GlobMatches (e ∷ p) (drop n s)
        → Later (map glyph p) s
    later_in e p h zero [] d = absurd (Matches-nil e _ (not_star e h) d)
    later_in e p h zero (x ∷ s) d =
        behind _ (x ∷ s) (here _ s ((Matches-cons e x _ s (not_star e h)).0 d).1)
    later_in e p h (suc n) [] d = absurd (Matches-nil e _ (not_star e h) d)
    later_in e p h (suc n) (x ∷ s) d = behind _ (x ∷ s) (later_in e p h n s d)

-- A round in the loop.
pub goes_on :
    (f : ℕ) (case_sensitive : Bool) (exp s exp' s' : Bytes) (c : ℕ) (marks marks' : Marks)
    → match_round case_sensitive exp c s marks ≡ again exp' s' marks'
    → match_loop (suc f) case_sensitive exp (c ∷ s) marks
      ≡ match_loop f case_sensitive exp' s' marks'
unfolding match_loop
goes_on f case_sensitive exp s exp' s' c marks marks' e = rw (match_loop, e) refl

pub stops :
    (f : ℕ) (case_sensitive : Bool) (exp s : Bytes) (c : ℕ) (marks : Marks) (r : Found)
    → match_round case_sensitive exp c s marks ≡ over r
    → match_loop (suc f) case_sensitive exp (c ∷ s) marks ≡ r
unfolding match_loop
stops f case_sensitive exp s c marks r e = rw (match_loop, e) refl

-- `G` is the question, `k` more than any length of an expression, and `m` bounds the text behind the
-- mark.
module _ (G : Type 0) (k : ℕ) (case_sensitive : Bool) where
  pub record Inv (f m : ℕ) (p s mp cp : Bytes) : Type 0 where
    pub now : GlobMatches p s → G
    pub marked : Later (map glyph mp) cp → G
    pub split : G → GlobMatches p s ⊎ Later (map glyph mp) cp
    pub onward : Later (map glyph mp) cp → Later (map glyph p) s
    pub near : length s ≤ length cp + 1
    pub bound : length cp ≤ m
    pub short : length p < k
    pub short_mark : length mp < k
    pub fuel : m * k + length p + 1 < f
    pub text : AreNonzero s
    pub rest : AreNonzero cp

  star_later :
      (e : ℕ) (p s : Bytes)
      → (e == b'*') ≡ true
      → Later (map glyph (e ∷ p)) s
      → Later (map glyph p) s
  star_later e p s h l = star_star _ s (subst (λ x. Later (x ∷ map glyph p) s) (glyph_star e h) l)

  -- A star is a new mark, for what the old one could still give.
  pub Inv-star :
      {f m : ℕ} (e c : ℕ) {p s mp cp : Bytes}
      → (e == b'*') ≡ true
      → Inv (suc f) m (e ∷ p) (c ∷ s) mp cp
      → Inv f m p (c ∷ s) p s
  Inv-star {m} e c {p} {s} h i = record {
    now = λ d. i.now ((star_iff e p (c ∷ s) h).1 (here _ (c ∷ s) d));
    marked = λ d. i.now ((star_iff e p (c ∷ s) h).1 (behind _ (c ∷ s) d));
    split = λ g. here_or_behind _ (c ∷ s) (elim (i.split g) [
      | inl d ↦ (star_iff e p (c ∷ s) h).0 d
      | inr d ↦ star_later e p (c ∷ s) h (i.onward d)
    ]);
    onward = λ d. behind _ (c ∷ s) d;
    near = omega arith;
    bound = omega (arith, i.near, i.bound);
    short = omega (arith, i.short);
    short_mark = omega (arith, i.short);
    fuel = omega (arith, i.fuel);
    text = i.text;
    rest = i.text.1;
  }

  -- A byte that is taken.
  pub Inv-byte :
      {f m : ℕ} (e c : ℕ) {p s mp cp : Bytes}
      → (e == b'*') ≡ false
      → Takes e c
      → Inv (suc f) m (e ∷ p) (c ∷ s) mp cp
      → Inv f m p s mp cp
  Inv-byte e c {p} {s} h t i = record {
    now = λ d. i.now ((Matches-cons e c _ s (not_star e h)).1 (t, d));
    marked = i.marked;
    split = λ g. elim (i.split g) [
      | inl d ↦ inl ((Matches-cons e c _ s (not_star e h)).0 d).1
      | inr d ↦ inr d
    ];
    onward = λ d. later_cons e c p s h (i.onward d);
    near = omega (arith, i.near);
    bound = i.bound;
    short = omega (arith, i.short);
    short_mark = i.short_mark;
    fuel = omega (arith, i.fuel);
    text = i.text.1;
    rest = i.rest;
  }

  -- Nothing is taken: the mark moves on by a byte.
  pub Inv-retry :
      {f m x : ℕ} {p s mp cp : Bytes}
      → ¬ GlobMatches p s
      → Inv (suc f) (suc m) p s mp (x ∷ cp)
      → Inv f m mp (x ∷ cp) mp cp
  Inv-retry {m} {x} {cp} fails i = record {
    now = λ d. i.marked (here _ (x ∷ cp) d);
    marked = λ d. i.marked (behind _ (x ∷ cp) d);
    split =
        λ g. elim (i.split g) [ inl d ↦ absurd (fails d) | inr d ↦ here_or_behind _ (x ∷ cp) d ];
    onward = λ d. behind _ (x ∷ cp) d;
    near = omega arith;
    bound = omega (arith, i.bound);
    short = i.short_mark;
    short_mark = i.short_mark;
    fuel = omega (arith, i.fuel, i.short_mark);
    text = i.rest;
    rest = i.rest.1;
  }
