-- ===== src/CodeBlock/Breaks/Covering.antt =====
-- engine/console/codeBlock.cc: the search of `findBreakLine`.
use korkscript.Prelude.{
  Bool-cases, List, Option, [], ap, arith, false, get_elem?, inl, inr, length, ltb, none, refl,
  some, some-injective, subst, suc, sym, true, zero, ℕ, ◌+◌, ◌-◌, ◌/◌, ◌<◌, ◌==◌, ◌∙◌, ◌∷◌, ◌≡◌,
  ◌≤◌, ◌⊎◌,
}
use korkscript.CodeBlock.Breaks.{
  Line, LinePair, at_pair, between, find_from, find_pair, line_at, lost, no_line, probe,
  search_loop, search_round,
}

-- The pair at an index is at a position.
abbrev pub IsAt : List LinePair → ℕ → ℕ → Type 0
IsAt pairs k place = (inst_line : ℕ) × (get_elem? pairs k ≡ some (inst_line, place))

-- The code at `ip` belongs to the pair: it is there, or behind it and in front of the next one.
abbrev pub Covers : List LinePair → ℕ → Line → Type 0
Covers pairs ip (line_at k) =
    (place : ℕ) × IsAt pairs k place
    × (place ≤ ip)
    × ((place ≡ ip) ⊎ ((behind : ℕ) × IsAt pairs (k + 1) behind × (ip < behind)))
Covers pairs ip no_line =
    (low high : ℕ)
    → IsAt pairs 0 low
    → IsAt pairs (length pairs - 1) high
    → (ip < low) ⊎ (high < ip)
Covers pairs ip lost = ⊥

there :
    (pairs : List LinePair) (i j : ℕ) (v : LinePair)
    → i ≤ j
    → get_elem? pairs j ≡ some v
    → (u : LinePair) × (get_elem? pairs i ≡ some u)
there [] i j v h e = absurd (ground (arith, e))
there (x ∷ pairs) zero j v h e = (x, refl)
there (x ∷ pairs) (suc i) zero v h e = absurd (omega arith)
there (x ∷ pairs) (suc i) (suc j) v h e = there pairs i j v (omega arith) e

record Inv (f : ℕ) (pairs : List LinePair) (ip low high : ℕ) : Type 0 where
  before : (place : ℕ) × IsAt pairs low place × (place < ip)
  behind : (place : ℕ) × IsAt pairs high place × (ip < place)
  order : low < high
  fuel : high - low < f

module _ (pairs : List LinePair) (ip : ℕ) where
  goes_on :
      (f low high low' high' : ℕ)
      → search_round pairs ip low high ≡ between low' high'
      → search_loop (suc f) pairs ip low high ≡ search_loop f pairs ip low' high'
  unfolding search_loop
  goes_on f low high low' high' e = rw (search_loop, e) refl

  stops :
      (f low high k : ℕ)
      → search_round pairs ip low high ≡ at_pair k
      → search_loop (suc f) pairs ip low high ≡ line_at k
  unfolding search_loop
  stops f low high k e = rw (search_loop, e) refl

  adjacent :
      (low high : ℕ) → (low == high - 1) ≡ true → search_round pairs ip low high ≡ at_pair low
  unfolding search_round
  adjacent low high e = rw e refl

  -- A round that looks at the pair in the middle.
  probed :
      (low high inst_line place : ℕ)
      → (low == high - 1) ≡ false
      → get_elem? pairs ((low + high) / 2) ≡ some (inst_line, place)
      → search_round pairs ip low high
        ≡ probe ip low high ((low + high) / 2) (some (inst_line, place))
  unfolding search_round
  probed low high inst_line place e m = rw (e, m) refl

  probed-Covers :
      (f low high inst_line place : ℕ)
      → ((a b : ℕ) → Inv f pairs ip a b → Covers pairs ip (search_loop f pairs ip a b))
      → Inv (suc f) pairs ip low high
      → (low == high - 1) ≡ false
      → get_elem? pairs ((low + high) / 2) ≡ some (inst_line, place)
      → Covers pairs ip (search_loop (suc f) pairs ip low high)
  probed-Covers f low high inst_line place ih i e m =
      let mid = (low + high) / 2 in
      let round = probed low high inst_line place e m in
      let left : low < mid = ground (arith, e, i.order) in
      let right : mid < high = ground (arith, e, i.order) in
      elim (Bool-cases (place == ip)) [
        | inl k ↦
            let same : place ≡ ip = ground (arith, k) in
            rw (stops f low high mid (round ∙ rw k refl))
              (place, (inst_line, m), omega (arith, same), inl same)
        | inr k ↦ elim (Bool-cases (ltb ip place)) [
          | inl l ↦ rw (goes_on f low high low mid (round ∙ rw (k, l) refl)) (
              ih low mid (record {
                before = i.before;
                behind = (place, (inst_line, m), ground (arith, l));
                order = left;
                fuel = omega (arith, i.fuel, right, left);
              }))
          | inr l ↦ rw (goes_on f low high mid high (round ∙ rw (k, l) refl)) (
              ih mid high (record {
                before = (place, (inst_line, m), ground (arith, l, k));
                behind = i.behind;
                order = right;
                fuel = omega (arith, i.fuel, right, left);
              }))
        ]
      ]

  search_loop-Covers :
      (f low high : ℕ) → Inv f pairs ip low high → Covers pairs ip (search_loop f pairs ip low high)
  search_loop-Covers zero low high i = absurd (omega (arith, i.fuel))
  search_loop-Covers (suc f) low high i = elim (Bool-cases (low == high - 1)) [
    | inl e ↦
        let (place, found_at, less) = i.before in
        let (behind, next_one, more) = i.behind in
        let following : high ≡ low + 1 = ground (arith, e, i.order) in
        rw (stops f low high low (adjacent low high e)) (
          place,
          found_at,
          omega (arith, less),
          inr (behind, subst (λ k. IsAt pairs k behind) following next_one, more),
        )
    | inr e ↦
        let (behind, last_one, more) = i.behind in
        let half : (low + high) / 2 ≤ high = omega (arith, i.order) in
        let (pair, m) = there pairs ((low + high) / 2) high (last_one.0, behind) half last_one.1 in
        probed-Covers f low high pair.0 pair.1 (search_loop-Covers f) i e m
  ]

  same_place :
      (k place place' inst_line : ℕ)
      → get_elem? pairs k ≡ some (inst_line, place)
      → IsAt pairs k place'
      → place' ≡ place
  same_place k place place' inst_line e (inst_line', e') =
      ap (λ p. p.1) (some-injective _ _ (sym e' ∙ e))

  -- The ends differ, so that there is more than one pair.
  more_than_one :
      (low high first_line last_line : ℕ)
      → get_elem? pairs 0 ≡ some (first_line, low)
      → get_elem? pairs (length pairs - 1) ≡ some (last_line, high)
      → low < high
      → 0 < length pairs - 1
  more_than_one low high first_line last_line e k h = elim (Bool-cases (length pairs - 1 == 0)) [
    | inl z ↦
        let zero_last : length pairs - 1 ≡ 0 = ground (arith, z) in
        absurd (
          omega (
            arith,
            h,
            same_place 0 low high first_line e
                (last_line, sym (ap (get_elem? pairs) zero_last) ∙ k),
          ))
    | inr z ↦ ground (arith, z)
  ]

  find_from-Covers :
      (first last : Option LinePair)
      → get_elem? pairs 0 ≡ first
      → get_elem? pairs (length pairs - 1) ≡ last
      → Covers pairs ip (find_from pairs ip first last)
  find_from-Covers none last e k = λ low high l h. absurd (ground (arith, e, l.1))
  find_from-Covers (some first) none e k = λ low high l h. absurd (ground (arith, k, h.1))
  find_from-Covers (some (first_line, low)) (some (last_line, high)) e k =
      elim (Bool-cases (ltb ip low)) [
        | inl a ↦ rw a (λ l h u v. inl (ground (arith, a, same_place 0 low l first_line e u)))
        | inr a ↦ elim (Bool-cases (ltb high ip)) [
          | inl b ↦
              rw (a, b) (λ l h u v. inr (ground (arith, b, same_place _ high h last_line k v)))
          | inr b ↦ elim (Bool-cases (low == ip)) [
            | inl c ↦
                let at_first : low ≡ ip = ground (arith, c) in
                rw (a, b, c) (low, (first_line, e), omega (arith, at_first), inl at_first)
            | inr c ↦ elim (Bool-cases (high == ip)) [
              | inl d ↦
                  let at_last : high ≡ ip = ground (arith, d) in
                  rw (a, b, c, d) (high, (last_line, k), omega (arith, at_last), inl at_last)
              | inr d ↦
                  let above : low < ip = ground (arith, a, c) in
                  let below : ip < high = ground (arith, b, d) in
                  let two =
                    more_than_one low high first_line last_line e k (omega (arith, above, below)) in
                  rw (a, b, c, d)
                    (search_loop-Covers (length pairs) 0 (length pairs - 1) (record {
                      before = (low, (first_line, e), above);
                      behind = (high, (last_line, k), below);
                      order = two;
                      fuel = omega (arith, two);
                    }))
            ]
          ]
        ]
      ]

  -- For any pairs and any position: the search of `findBreakLine` ends and reads no pair outside. It finds a
  -- pair that is at the position, or one in front of it with the next one behind it; or none, and then the
  -- position is in front of the first pair or behind the last one.
  pub find_pair-Covers : Covers pairs ip (find_pair pairs ip)
  unfolding find_pair
  find_pair-Covers = find_from-Covers _ _ refl refl
