-- ===== src/CodeBlock/Breaks/Restore.antt =====
-- engine/console/codeBlock.cc: breakpoints that are set and cleared, and the code without them.
use korkscript.Prelude.{
  Bool-cases, List, [], ap, arith, get_elem?, get_elem?-set_ne, get_elem?-set_self, inl, inr,
  length, length-set, ltb, refl, set, some, some-injective, subst, suc, sym, true, zero, ℕ, ◌%◌,
  ◌<◌, ◌==◌, ◌^◌, ◌∙◌, ◌∷◌, ◌≡◌, ◌⊎◌,
}
use korkscript.CodeBlock.Breaks.{LinePair, clear_all_breaks, store}

-- The pairs keep the opcodes of the code, as `calcBreakList` leaves them.
abbrev pub Keeps : List LinePair → List ℕ → Type 0
Keeps [] code = Unit
Keeps ((inst_line, ip) ∷ pairs) code =
    (get_elem? code ip ≡ some (inst_line % 2 ^ 8)) × Keeps pairs code

abbrev pub IsBreak : List LinePair → ℕ → Type 0
IsBreak [] i = ⊥
IsBreak ((inst_line, ip) ∷ pairs) i = (i ≡ ip) ⊎ IsBreak pairs i

-- The two codes differ at the pairs' positions at most.
pub record Alike (pairs : List LinePair) (code c : List ℕ) : Type 0 where
  pub long : length c ≡ length code
  pub rest : (i : ℕ) → (get_elem? c i ≡ get_elem? code i) ⊎ IsBreak pairs i

pub Alike-refl : (pairs : List LinePair) (code : List ℕ) → Alike pairs code code
Alike-refl pairs code = record { long = refl; rest = λ i. inl refl }

pub Alike-set :
    (pairs : List LinePair) (code c : List ℕ) (ip word : ℕ)
    → IsBreak pairs ip
    → Alike pairs code c
    → Alike pairs code (set c ip word)
Alike-set pairs code c ip word h a = record {
  long = length-set c ip word ∙ a.long;
  rest = λ i. elim (Bool-cases (i == ip)) [
    | inl e ↦ let q : ip ≡ i = ground (arith, e) in inr (subst (IsBreak pairs) q h)
    | inr e ↦ elim (a.rest i) [
      | inl k ↦ inl (get_elem?-set_ne c word (λ q. ground (arith, e, q)) ∙ k)
      | inr k ↦ inr k
    ]
  ];
}

same_codes :
    (c code : List ℕ)
    → length c ≡ length code
    → ((i : ℕ) → get_elem? c i ≡ get_elem? code i)
    → c ≡ code
same_codes [] [] l h = refl
same_codes [] (x ∷ code) l h = absurd (omega (arith, l))
same_codes (y ∷ c) [] l h = absurd (omega (arith, l))
same_codes (y ∷ c) (x ∷ code) l h =
    let tails : c ≡ code = same_codes c code (omega (arith, l)) (λ i. h (suc i)) in
    let heads : y ≡ x = some-injective _ _ (h 0) in rw (heads, tails) refl

in_bounds : (xs : List ℕ) (i v : ℕ) → get_elem? xs i ≡ some v → i < length xs
in_bounds [] i v h = absurd (ground arith)
in_bounds (x ∷ xs) zero v h = omega arith
in_bounds (x ∷ xs) (suc i) v h = omega (arith, in_bounds xs i v h)

pub store_lem : (c : List ℕ) (ip word : ℕ) → ip < length c → store c ip word ≡ some (set c ip word)
store_lem c ip word h = let e : ltb ip (length c) ≡ true = ground (arith, h) in rw e refl

-- Where the differences are at the pairs, clearing all takes them back.
pub clear_all-Alike :
    (pairs : List LinePair) (code c : List ℕ)
    → Keeps pairs code
    → Alike pairs code c
    → clear_all_breaks pairs c ≡ some code
unfolding clear_all_breaks
clear_all-Alike [] code c k a =
    ap some (same_codes c code a.long (λ i. elim (a.rest i) [ inl e ↦ e | inr e ↦ absurd e ]))
clear_all-Alike ((inst_line, ip) ∷ pairs) code c k a =
    let inside = in_bounds code ip _ k.0 in
    rw (store_lem c ip (inst_line % 2 ^ 8) (omega (arith, inside, a.long))) (
      clear_all-Alike pairs code (set c ip (inst_line % 2 ^ 8)) k.1 (record {
        long = length-set c ip _ ∙ a.long;
        rest = λ i. elim (Bool-cases (i == ip)) [
          | inl e ↦
              let q : i ≡ ip = ground (arith, e) in
              inl (
                ap (get_elem? (set c ip (inst_line % 2 ^ 8))) q
                ∙ get_elem?-set_self c ip _ (omega (arith, inside, a.long))
                ∙ sym k.0
                ∙ ap (get_elem? code) (sym q))
          | inr e ↦ elim (a.rest i) [
            | inl j ↦ inl (get_elem?-set_ne c _ (λ q. ground (arith, e, q)) ∙ j)
            | inr (inl q) ↦ absurd (ground (arith, e, q))
            | inr (inr j) ↦ inr j
          ]
        ];
      }))
