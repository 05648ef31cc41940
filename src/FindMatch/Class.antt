-- ===== src/FindMatch/Class.antt =====
-- engine/core/findMatch.cc: several expressions, and the matches that an object of `FindMatch` keeps.
use korkscript.Prelude.{
  AreNonzero, Bool, Bool-cases, Bytes, List, [], ap, append_assoc, arith, drop, drop_cons, false,
  get_elem?, inl, inr, leb, length, length-append, map, map-append, max, min, refl, some, subst,
  suc, sym, take, true, zero, ℕ, ◌++◌, ◌+◌, ◌<◌, ◌==◌, ◌↔◌, ◌∙◌, ◌∷◌, ◌≡◌, ◌≤◌, ◌⊎◌,
}
use korkscript.FindMatch.{
  FindMatch, Found, answer, c_string, find_match, is_full, is_match, is_match_multiple_exprs,
  keep_match, match_any, num_matches, or_next, outside, running, set_expression, strtok, to_upper,
  upper_copy,
}
use korkscript.FindMatch.Glob.{GlobMatches, any_byte, glyph, letter, star}
use korkscript.FindMatch.Invariant.{Decides, Decides-map}
use korkscript.FindMatch.Loop.{is_match-Decides}
use korkscript.FindMatch.Pieces.{AnyMatches, AnyMatches-strtok, SomeMatches}

or_next-Decides :
    (G H : Type 0) (r q : Found) → Decides G r → Decides H q → Decides (G ⊎ H) (or_next r q)
or_next-Decides G H (answer true) q h k = inl h
or_next-Decides G H (answer false) q h k =
    Decides-map q (inr, λ j. elim j [ inl g ↦ absurd (h g) | inr l ↦ l ]) k
or_next-Decides G H outside q h k = h
or_next-Decides G H running q h k = h

match_any-Decides :
    (toks : List Bytes) (str : Bytes) (case_sensitive : Bool)
    → AreNonzero str
    → Decides (AnyMatches toks str) (match_any toks str case_sensitive)
unfolding match_any
match_any-Decides [] str case_sensitive nz = λ h. h
match_any-Decides (tok ∷ rest) str case_sensitive nz =
    or_next-Decides (GlobMatches tok str) (AnyMatches rest str) (is_match tok str case_sensitive) _
      (is_match-Decides tok str case_sensitive nz) (match_any-Decides rest str case_sensitive nz)

-- For a text with no zero byte in it: `isMatchMultipleExprs` comes back, with true exactly when the text
-- matches one of the expressions, which are the non-empty parts of `exps` without a tab that tabs or
-- the ends of `exps` bound on both sides.
pub is_match_multiple_exprs-Decides :
    (exps str : Bytes) (case_sensitive : Bool)
    → AreNonzero str
    → Decides (SomeMatches exps str) (is_match_multiple_exprs exps str case_sensitive)
unfolding is_match_multiple_exprs
is_match_multiple_exprs-Decides exps str case_sensitive nz =
    Decides-map _ (AnyMatches-strtok exps str)
      (match_any-Decides (strtok exps) str case_sensitive nz)

Decides-unique : (G : Type 0) (r q : Found) → Decides G r → Decides G q → r ≡ q
Decides-unique G (answer true) (answer true) h k = refl
Decides-unique G (answer true) (answer false) h k = absurd (k h)
Decides-unique G (answer false) (answer true) h k = absurd (h k)
Decides-unique G (answer false) (answer false) h k = refl
Decides-unique G (answer r) outside h k = absurd k
Decides-unique G (answer r) running h k = absurd k
Decides-unique G outside q h k = absurd h
Decides-unique G running q h k = absurd h

-- For a text with no zero byte in it: `isMatch` answers the same with `caseSensitive` and without.
pub is_match-ignores_case :
    (exp str : Bytes) → AreNonzero str → is_match exp str true ≡ is_match exp str false
is_match-ignores_case exp str nz =
    Decides-unique (GlobMatches exp str) _ _ (is_match-Decides exp str true nz)
      (is_match-Decides exp str false nz)

to_upper_lem : (c : ℕ) → to_upper (to_upper c) ≡ to_upper c
to_upper_lem c = ground arith

to_upper_nonzero : (c : ℕ) → 0 < c → 0 < to_upper c
to_upper_nonzero c h = ground arith

map-AreNonzero : (s : Bytes) → AreNonzero s → AreNonzero (map to_upper s)
map-AreNonzero [] h = tt
map-AreNonzero (c ∷ s) h = (to_upper_nonzero c h.0, map-AreNonzero s h.1)

-- What the glyph of a capital is.
data Caps (e : ℕ) : Type 0 where
  caps_star : glyph e ≡ star → glyph (to_upper e) ≡ star → Caps e
  caps_any : glyph e ≡ any_byte → glyph (to_upper e) ≡ any_byte → Caps e
  caps_letter : glyph e ≡ letter e → glyph (to_upper e) ≡ letter (to_upper e) → Caps e

caps : (e : ℕ) → Caps e
unfolding glyph
caps e = elim (Bool-cases (e == b'*')) [
  | inl h ↦ caps_star (ground arith) (ground arith)
  | inr h ↦ elim (Bool-cases (e == b'?')) [
    | inl k ↦ caps_any (ground arith) (ground arith)
    | inr k ↦ caps_letter (ground arith) (ground arith)
  ]
]

drop-map : (n : ℕ) (s : Bytes) → drop n (map to_upper s) ≡ map to_upper (drop n s)
drop-map zero s = refl
drop-map (suc n) [] = refl
drop-map (suc n) (c ∷ s) = drop-map n s

-- What is in capitals matches the same.
pub map-GlobMatches :
    (exp s : Bytes) → GlobMatches (map to_upper exp) (map to_upper s) ↔ GlobMatches exp s
map-GlobMatches [] [] = (λ h. refl, λ h. refl)
map-GlobMatches [] (c ∷ s) = (λ h. ground (arith, h), λ h. ground (arith, h))
map-GlobMatches (e ∷ exp) s = at_first (map-GlobMatches exp) s (caps e)
  where
    at_first :
        ((u : Bytes) → GlobMatches (map to_upper exp) (map to_upper u) ↔ GlobMatches exp u)
        → (s : Bytes) → Caps e
        → GlobMatches (map to_upper (e ∷ exp)) (map to_upper s) ↔ GlobMatches (e ∷ exp) s
    at_first ih s (caps_star g k) =
        rw (g, k)
          (
            λ d. (
              d.0,
              (ih (drop d.0 s)).0 (subst (GlobMatches (map to_upper exp)) (drop-map d.0 s) d.1),
            ),
            λ d. (
              d.0,
              subst (GlobMatches (map to_upper exp)) (sym (drop-map d.0 s))
                  ((ih (drop d.0 s)).1 d.1),
            ),
          )
    at_first ih [] (caps_any g k) = rw (g, k) (λ d. d, λ d. d)
    at_first ih (c ∷ s) (caps_any g k) = rw (g, k) (ih s)
    at_first ih [] (caps_letter g k) = rw (g, k) (λ d. d, λ d. d)
    at_first ih (c ∷ s) (caps_letter g k) =
        rw (g, k)
          (
            λ d. (sym (to_upper_lem e) ∙ d.0 ∙ to_upper_lem c, (ih s).0 d.1),
            λ d. (to_upper_lem e ∙ d.0 ∙ sym (to_upper_lem c), (ih s).1 d.1),
          )

c_string-append : (s rest : Bytes) → AreNonzero s → c_string (s ++ 0 ∷ rest) ≡ some s
unfolding c_string
c_string-append [] rest h = refl
c_string-append (c ∷ s) rest h =
    let e : (c == 0) ≡ false = ground (arith, h.0) in rw (e, c_string-append s rest h.1) refl

take_all : (s : Bytes) → take (length s) s ≡ s
take_all [] = refl
take_all (c ∷ s) = ap (λ t. c ∷ t) (take_all s)

-- On an array with a terminator where the text ends, its copy is the text in capitals.
c_string-upper_copy :
    (old str : Bytes)
    → AreNonzero str
    → length str ≤ 511
    → get_elem? old (length str) ≡ some 0
    → c_string (upper_copy old str) ≡ some (map to_upper str)
unfolding upper_copy
c_string-upper_copy old str nz h k =
    let short : min (length str) 511 ≡ length str = omega (arith, h) in
    rw
      (
        short,
        take_all str,
        drop_cons (length str) 0 old k,
        map-append to_upper str (0 ∷ []),
        append_assoc (map to_upper str) (0 ∷ []) (drop (length str + 1) old),
      )
      (c_string-append (map to_upper str) _ (map-AreNonzero str nz))

-- What `findMatch` comes to, when the question is `G` and `l` is the list before.
abbrev pub FindsMatch : Type 0 → ℕ → List Bytes → Bytes → FindMatch × Found → Type 0
FindsMatch G max l str (u, answer true) = G × (u.match_list ≡ l ++ str ∷ []) × (num_matches u ≤ max)
FindsMatch G max l str (u, answer false) = (¬ G) × (u.match_list ≡ l)
FindsMatch G max l str (u, outside) = ⊥
FindsMatch G max l str (u, running) = ⊥

keep_match-FindsMatch :
    (G : Type 0) (m : FindMatch) (str : Bytes) (r : Found)
    → is_full m ≡ false
    → Decides G r
    → FindsMatch G m.max_matches m.match_list str (keep_match m str r)
unfolding is_full num_matches
keep_match-FindsMatch G m str (answer true) h d =
    (d, refl, omega (arith, length-append m.match_list (str ∷ []), not_leb h))
  where
    not_leb : leb m.max_matches (length m.match_list) ≡ false → length m.match_list < m.max_matches
    not_leb k = ground arith
keep_match-FindsMatch G m str (answer false) h d = (d, refl)
keep_match-FindsMatch G m str outside h d = d
keep_match-FindsMatch G m str running h d = d

-- For a text of at most 511 bytes, none of them zero, an object that is not full, and an array in which
-- the byte behind the text's length was zero before: after `setExpression`, `findMatch` comes back with
-- true exactly when the text matches, keeps a text that it found behind the others and no other, and
-- stays within `maxMatches`.
pub find_match-FindsMatch :
    (old : Bytes) (m : FindMatch) (exp str : Bytes) (case_sensitive : Bool)
    → is_full m ≡ false
    → AreNonzero str
    → length str ≤ 511
    → get_elem? old (length str) ≡ some 0
    → FindsMatch
        (GlobMatches exp str)
        m.max_matches
        m.match_list
        str
        (find_match old (set_expression m exp) str case_sensitive)
unfolding find_match set_expression is_full
find_match-FindsMatch old m exp str case_sensitive h nz k t =
    rw (h, c_string-upper_copy old str nz k t)
      (keep_match-FindsMatch (GlobMatches exp str) (set_expression m exp) str _ h (
        Decides-map _ (map-GlobMatches exp str) (
          is_match-Decides (map to_upper exp) (map to_upper str) case_sensitive
            (map-AreNonzero str nz))))
