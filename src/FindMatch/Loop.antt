-- ===== src/FindMatch/Loop.antt =====
-- engine/core/findMatch.cc: the loops of `isMatch` come to an end, and to the right answer.
use korkscript.Prelude.{
  AreNonzero, Bool, Bool-cases, Bytes, [], arith, false, inl, inr, length, map, none, refl, some,
  suc, tail, true, zero, ℕ, ◌*◌, ◌+◌, ◌==◌, ◌∷◌, ◌≡◌,
}
use korkscript.FindMatch.{answer, is_char_match, is_match, match_fuel, match_loop, match_round}
use korkscript.FindMatch.Glob.{
  GlobMatches, Matches-cons, all_taken, at_end, behind, glyph, here, here_or_behind,
  is_char_match_iff, not_star, star_iff,
}
use korkscript.FindMatch.Invariant.{
  Decides, Decides-map, Inv, Inv-byte, Inv-retry, Inv-star, ended, goes_on, not_taken, stops,
}

module _ (G : Type 0) (k : ℕ) (case_sensitive : Bool) where
  -- What the loop does from a state with a mark.
  abbrev pub HoldsFrom : ℕ → Type 0
  HoldsFrom f =
      (m : ℕ) (p s mp cp : Bytes)
      → Inv G k case_sensitive f m p s mp cp
      → Decides G (match_loop f case_sensitive p s (some (mp, cp)))

  Inv-retry-Decides :
      (f m : ℕ) (p s mp cp : Bytes)
      → HoldsFrom f
      → ¬ GlobMatches p s
      → Inv G k case_sensitive (suc f) m p s mp cp
      → Decides G (match_loop f case_sensitive mp cp (some (mp, tail cp)))
  unfolding match_loop
  Inv-retry-Decides zero m p s mp [] ih fails i = absurd (omega (arith, i.fuel))
  Inv-retry-Decides (suc f) m p s mp [] ih fails i = ended mp (
    λ g. elim (i.split g) [ inl d ↦ absurd (fails d) | inr d ↦ at_end _ d ],
    λ d. i.marked (here _ [] d),
  )
  Inv-retry-Decides f zero p s mp (x ∷ cp) ih fails i = absurd (omega (arith, i.bound))
  Inv-retry-Decides f (suc m) p s mp (x ∷ cp) ih fails i =
      ih m mp (x ∷ cp) mp cp (Inv-retry G k case_sensitive fails i)

  -- A star, the last one or not.
  star-Decides :
      (f m e c : ℕ) (p s mp cp : Bytes)
      → HoldsFrom f
      → (e == b'*') ≡ true
      → Inv G k case_sensitive (suc f) m (e ∷ p) (c ∷ s) mp cp
      → Decides G (match_loop (suc f) case_sensitive (e ∷ p) (c ∷ s) (some (mp, cp)))
  unfolding match_round
  star-Decides f m e c [] s mp cp ih h i =
      rw (stops f case_sensitive (e ∷ []) s c (some (mp, cp)) (answer true) (rw h refl))
        (i.now ((star_iff e [] (c ∷ s) h).1 (all_taken (c ∷ s))))
  star-Decides f m e c (e' ∷ p) s mp cp ih h i =
      rw
        (goes_on f case_sensitive (e ∷ e' ∷ p) s (e' ∷ p) (c ∷ s) c (some (mp, cp))
          (some (e' ∷ p, s)) (rw h refl))
        (ih m (e' ∷ p) (c ∷ s) (e' ∷ p) s (Inv-star G k case_sensitive e c h i))

  byte-Decides :
      (f m e c : ℕ) (p s mp cp : Bytes)
      → HoldsFrom f
      → (e == b'*') ≡ false
      → Inv G k case_sensitive (suc f) m (e ∷ p) (c ∷ s) mp cp
      → Decides G (match_loop (suc f) case_sensitive (e ∷ p) (c ∷ s) (some (mp, cp)))
  unfolding match_round
  byte-Decides f m e c p s mp cp ih h i = elim (Bool-cases (is_char_match e c case_sensitive)) [
    | inl t ↦
        rw
          (goes_on f case_sensitive (e ∷ p) s p s c (some (mp, cp)) (some (mp, cp))
            (rw (h, t) refl))
          (ih m p s mp cp
            (Inv-byte G k case_sensitive e c h ((is_char_match_iff e c case_sensitive).0 t) i))
    | inr t ↦
        rw
          (goes_on f case_sensitive (e ∷ p) s mp cp c (some (mp, cp)) (some (mp, tail cp))
            (rw (h, t) refl))
          (Inv-retry-Decides f m (e ∷ p) (c ∷ s) mp cp ih
            (λ d. ground (
              arith,
              t,
              (is_char_match_iff e c case_sensitive).1
                  ((Matches-cons e c _ s (not_star e h)).0 d).0,
            ))
            i)
  ]

  pub loop-Decides : (f : ℕ) → HoldsFrom f
  unfolding match_loop match_round
  loop-Decides zero m p s mp cp i = absurd (omega (arith, i.fuel))
  loop-Decides (suc f) m p [] mp cp i =
      ended p (λ g. elim (i.split g) [ inl d ↦ d | inr d ↦ at_end _ (i.onward d) ], i.now)
  loop-Decides (suc f) m [] (c ∷ s) mp cp i =
      rw
        (goes_on f case_sensitive [] s mp cp c (some (mp, cp)) (some (mp, tail cp))
          (rw (not_taken c case_sensitive i.text.0) refl))
        (Inv-retry-Decides f m [] (c ∷ s) mp cp (loop-Decides f) (λ d. ground (arith, d)) i)
  loop-Decides (suc f) m (e ∷ p) (c ∷ s) mp cp i = elim (Bool-cases (e == b'*')) [
    | inl h ↦ star-Decides f m e c p s mp cp (loop-Decides f) h i
    | inr h ↦ byte-Decides f m e c p s mp cp (loop-Decides f) h i
  ]

-- The loop from its first star on, with no mark yet.
first_star :
    (e c : ℕ) (p s : Bytes) (case_sensitive : Bool)
    → (e == b'*') ≡ true
    → AreNonzero (c ∷ s)
    → Decides
        (GlobMatches (e ∷ p) (c ∷ s))
        (match_loop (match_fuel (e ∷ p) (c ∷ s)) case_sensitive (e ∷ p) (c ∷ s) none)
unfolding match_round
first_star e c [] s case_sensitive h nz =
    rw (stops _ case_sensitive (e ∷ []) s c none (answer true) (rw h refl))
      ((star_iff e [] (c ∷ s) h).1 (all_taken (c ∷ s)))
first_star e c (e' ∷ p) s case_sensitive h nz =
    let k = length (e ∷ e' ∷ p) + 1 in
    rw
      (goes_on _ case_sensitive (e ∷ e' ∷ p) s (e' ∷ p) (c ∷ s) c none (some (e' ∷ p, s))
        (rw h refl))
      (loop-Decides (GlobMatches (e ∷ e' ∷ p) (c ∷ s)) k case_sensitive ((length (c ∷ s) + 1) * k)
        (length s) (e' ∷ p) (c ∷ s) (e' ∷ p) s
        (record {
          now = λ d. (star_iff e (e' ∷ p) (c ∷ s) h).1 (here (map glyph (e' ∷ p)) (c ∷ s) d);
          marked = λ d. (star_iff e (e' ∷ p) (c ∷ s) h).1 (behind (map glyph (e' ∷ p)) (c ∷ s) d);
          split = λ g.
              here_or_behind (map glyph (e' ∷ p)) (c ∷ s) ((star_iff e (e' ∷ p) (c ∷ s) h).0 g);
          onward = λ d. behind (map glyph (e' ∷ p)) (c ∷ s) d;
          near = omega arith;
          bound = omega arith;
          short = omega arith;
          short_mark = omega arith;
          fuel = omega arith;
          text = nz;
          rest = nz.1;
        }))

-- For a text with no zero byte in it: `isMatch` comes back on any expression, through no null pointer
-- and past no terminator, and answers true exactly when the text matches the expression, read glyph by
-- glyph and up to case.
pub is_match-Decides :
    (exp str : Bytes) (case_sensitive : Bool)
    → AreNonzero str
    → Decides (GlobMatches exp str) (is_match exp str case_sensitive)
unfolding is_match
is_match-Decides exp [] case_sensitive nz = ended exp (λ d. d, λ d. d)
is_match-Decides [] (c ∷ s) case_sensitive nz =
    rw (not_taken c case_sensitive nz.0) (λ d. ground (arith, d))
is_match-Decides (e ∷ exp) (c ∷ s) case_sensitive nz = elim (Bool-cases (e == b'*')) [
  | inl h ↦ rw h (first_star e c exp s case_sensitive h nz)
  | inr h ↦ elim (Bool-cases (is_char_match e c case_sensitive)) [
    | inl t ↦
        rw (h, t)
          (Decides-map (is_match exp s case_sensitive)
            (
              λ d.
                  (Matches-cons e c _ s (not_star e h)).1
                    ((is_char_match_iff e c case_sensitive).0 t, d),
              λ d. ((Matches-cons e c _ s (not_star e h)).0 d).1,
            )
            (is_match-Decides exp s case_sensitive nz.1))
    | inr t ↦
        rw (h, t)
          (λ d. ground (
            arith,
            t,
            (is_char_match_iff e c case_sensitive).1 ((Matches-cons e c _ s (not_star e h)).0 d).0,
          ))
  ]
]
