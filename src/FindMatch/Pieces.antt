-- ===== src/FindMatch/Pieces.antt =====
-- engine/core/findMatch.cc, `isMatchMultipleExprs`: what the expressions between the tabs are.
use korkscript.Prelude.{
  Bool-cases, Bytes, List, [], ap, arith, false, inl, inr, length, refl, ℕ, ◌++◌, ◌==◌, ◌↔◌, ◌∷◌,
  ◌≡◌, ◌≢◌, ◌⊎◌,
}
use korkscript.FindMatch.{piece, split_tabs, strtok}
use korkscript.FindMatch.Glob.{GlobMatches}

-- One of the expressions matches.
abbrev pub AnyMatches : List Bytes → Bytes → Type 0
AnyMatches [] s = ⊥
AnyMatches (tok ∷ rest) s = GlobMatches tok s ⊎ AnyMatches rest s

-- There is nothing before, or a tab right before.
abbrev pub IsBehindTab : Bytes → Type 0
IsBehindTab [] = Unit
IsBehindTab (c ∷ []) = c ≡ b'\t'
IsBehindTab (c ∷ d ∷ s) = IsBehindTab (d ∷ s)

-- There is nothing behind, or a tab right behind.
abbrev pub IsBeforeTab : Bytes → Type 0
IsBeforeTab [] = Unit
IsBeforeTab (c ∷ s) = c ≡ b'\t'

abbrev pub HasNoTab : Bytes → Type 0
HasNoTab [] = Unit
HasNoTab (c ∷ s) = (c ≢ b'\t') × HasNoTab s

-- A part of the text that has a byte and no tab, between tabs or the ends of the text.
pub record Between (tok exps : Bytes) : Type 0 where
  pub before : Bytes
  pub after : Bytes
  pub whole : exps ≡ before ++ tok ++ after
  pub some_byte : tok ≢ []
  pub no_tab : HasNoTab tok
  pub starts : IsBehindTab before
  pub ends : IsBeforeTab after

-- A part of the text between tabs matches.
abbrev pub SomeMatches : Bytes → Bytes → Type 0
SomeMatches exps s = (tok : Bytes) × Between tok exps × GlobMatches tok s

AnyMatches-piece :
    (tok : Bytes) (rest : List Bytes) (s : Bytes)
    → AnyMatches rest s
    → AnyMatches (piece tok rest) s
AnyMatches-piece [] rest s h = h
AnyMatches-piece (c ∷ tok) rest s h = inr h

-- The part in front of the first tab is read off.
split_tabs-front :
    (tok after : Bytes) → HasNoTab tok → IsBeforeTab after → (split_tabs (tok ++ after)).0 ≡ tok
unfolding split_tabs
split_tabs-front [] [] h k = refl
split_tabs-front [] (c ∷ after) h k = rw k refl
split_tabs-front (c ∷ tok) after h k =
    let other : (c == b'\t') ≡ false = ground (arith, h.0) in
    rw other (ap (λ t. c ∷ t) (split_tabs-front tok after h.1 k))

AnyMatches-front :
    (tok : Bytes) (rest : List Bytes) (s : Bytes)
    → tok ≢ []
    → GlobMatches tok s
    → AnyMatches (piece tok rest) s
AnyMatches-front [] rest s h m = absurd (h refl)
AnyMatches-front (c ∷ tok) rest s h m = inl m

at_front :
    (tok after s : Bytes)
    → tok ≢ []
    → HasNoTab tok
    → IsBeforeTab after
    → GlobMatches tok s
    → AnyMatches (strtok (tok ++ after)) s
unfolding strtok
at_front tok after s some_byte h k m =
    rw (split_tabs-front tok after h k) (AnyMatches-front tok _ s some_byte m)

-- A part further on is among the later ones.
further_on :
    (c : ℕ) (before tok after s : Bytes)
    → IsBehindTab (c ∷ before)
    → tok ≢ []
    → HasNoTab tok
    → IsBeforeTab after
    → GlobMatches tok s
    → AnyMatches (split_tabs (c ∷ before ++ tok ++ after)).1 s
unfolding split_tabs strtok
further_on c [] tok after s b some_byte h k m = rw b (at_front tok after s some_byte h k m)
further_on c (d ∷ before) tok after s b some_byte h k m =
    let rest = further_on d before tok after s b some_byte h k m in
    elim (Bool-cases (c == b'\t')) [
      | inl e ↦ rw e (AnyMatches-piece _ _ s rest)
      | inr e ↦ rw e rest
    ]

AnyMatches-between :
    (before tok after s : Bytes)
    → IsBehindTab before
    → tok ≢ []
    → HasNoTab tok
    → IsBeforeTab after
    → GlobMatches tok s
    → AnyMatches (strtok (before ++ tok ++ after)) s
unfolding strtok
AnyMatches-between [] tok after s b some_byte h k m = at_front tok after s some_byte h k m
AnyMatches-between (c ∷ before) tok after s b some_byte h k m =
    AnyMatches-piece _ _ s (further_on c before tok after s b some_byte h k m)

-- The first part, and what stands behind it.
record Front (tok exps : Bytes) : Type 0 where
  after : Bytes
  whole : exps ≡ tok ++ after
  no_tab : HasNoTab tok
  ends : IsBeforeTab after

front : (exps : Bytes) → Front (split_tabs exps).0 exps
unfolding split_tabs
front [] = record { after = []; whole = refl; no_tab = tt; ends = tt }
front (c ∷ exps) =
    let f = front exps in
    elim (Bool-cases (c == b'\t')) [
      | inl e ↦ rw e (record { after = c ∷ exps; whole = refl; no_tab = tt; ends = ground arith })
      | inr e ↦ rw e (record {
        after = f.after;
        whole = ap (λ t. c ∷ t) f.whole;
        no_tab = (λ z. ground arith, f.no_tab);
        ends = f.ends;
      })
    ]

-- A part with a tab somewhere before it matches.
record Later (exps s : Bytes) : Type 0 where
  first : ℕ
  before : Bytes
  tok : Bytes
  after : Bytes
  whole : exps ≡ first ∷ before ++ tok ++ after
  some_byte : tok ≢ []
  no_tab : HasNoTab tok
  starts : IsBehindTab (first ∷ before)
  ends : IsBeforeTab after
  matches : GlobMatches tok s

cons-Later : (c : ℕ) (exps s : Bytes) → Later exps s → Later (c ∷ exps) s
cons-Later c exps s l = record {
  first = c;
  before = l.first ∷ l.before;
  tok = l.tok;
  after = l.after;
  whole = ap (λ t. c ∷ t) l.whole;
  some_byte = l.some_byte;
  no_tab = l.no_tab;
  starts = l.starts;
  ends = l.ends;
  matches = l.matches;
}

-- The part at the front matches, or a later one does.
either_part :
    (tok : Bytes) (rest : List Bytes) (s : Bytes)
    → AnyMatches (piece tok rest) s
    → ((tok ≢ []) × GlobMatches tok s) ⊎ AnyMatches rest s
either_part [] rest s h = inr h
either_part (c ∷ tok) rest s (inl h) = inl (λ e. absurd (ground (arith, ap length e)), h)
either_part (c ∷ tok) rest s (inr h) = inr h

later : (exps s : Bytes) → AnyMatches (split_tabs exps).1 s → Later exps s
unfolding split_tabs
later [] s h = elim h [ ]
later (c ∷ exps) s h = elim (Bool-cases (c == b'\t')) [
  | inl e ↦
      let f = front exps in
      elim (either_part (split_tabs exps).0 (split_tabs exps).1 s (rw e at h)) [
        | inl m ↦ record {
          first = c;
          before = [];
          tok = (split_tabs exps).0;
          after = f.after;
          whole = ap (λ t. c ∷ t) f.whole;
          some_byte = m.0;
          no_tab = f.no_tab;
          starts = ground arith;
          ends = f.ends;
          matches = m.1;
        }
        | inr m ↦ cons-Later c exps s (later exps s m)
      ]
  | inr e ↦ cons-Later c exps s (later exps s (rw e at h))
]

some_part : (exps s : Bytes) → AnyMatches (strtok exps) s → SomeMatches exps s
unfolding strtok
some_part exps s h =
    let f = front exps in
    elim (either_part (split_tabs exps).0 (split_tabs exps).1 s h) [
      | inl m ↦ (
        (split_tabs exps).0,
        record {
          before = [];
          after = f.after;
          whole = f.whole;
          some_byte = m.0;
          no_tab = f.no_tab;
          starts = tt;
          ends = f.ends;
        },
        m.1,
      )
      | inr m ↦
          let l = later exps s m in
          (
            l.tok,
            record {
              before = l.first ∷ l.before;
              after = l.after;
              whole = l.whole;
              some_byte = l.some_byte;
              no_tab = l.no_tab;
              starts = l.starts;
              ends = l.ends;
            },
            l.matches,
          )
    ]

pub AnyMatches-strtok : (exps s : Bytes) → AnyMatches (strtok exps) s ↔ SomeMatches exps s
AnyMatches-strtok exps s = (
  some_part exps s,
  λ m.
      let b = m.1 in
      rw b.whole
        (AnyMatches-between b.before m.0 b.after s b.starts b.some_byte b.no_tab b.ends m.2),
)
