-- ===== src/Prelude/Search.antt =====
-- Walks over a list for the first element that passes a test, and elements at positions.
use Prim.Native.Nat.{ℕ, zero, suc, ◌<◌}
use mathlib.Core.Path.{◌≡◌, refl, sym, subst}
use mathlib.Core.Logic.{inl, inr}
use mathlib.Core.Bool.{Bool, true}
use mathlib.Core.List.{List, [], ◌∷◌, ◌++◌}
use mathlib.Core.Option.{Option, none, some, some-injective}
use native.Mathlib.Omega.{arith}
use korkscript.Prelude.Tests.{Bool-cases, if◌then◌else◌}
use korkscript.Prelude.Lists.{length, get_elem?, set}

module _ {A : Type 0} where
  -- The position of the first element that passes.
  unfoldable pub find_first : (A → Bool) → List A → Option ℕ
  find_first test [] = none
  find_first test (x ∷ xs) =
      let rest = find_first test xs in
      if test x then some 0 else elim rest [ none ↦ none | some k ↦ some (suc k) ]

  -- The element at a position passes the test.
  pub data Passing (test : A → Bool) (xs : List A) (k : ℕ) : Type 0 where
    passing : (x : A) → get_elem? xs k ≡ some x → test x ≡ true → Passing test xs k

  pub find_first-Passing :
      (test : A → Bool) (xs : List A) (k : ℕ) → find_first test xs ≡ some k → Passing test xs k
  unfolding find_first
  find_first-Passing test [] k h = absurd (ground arith)
  find_first-Passing test (x ∷ xs) k h = elim (Bool-cases (test x)) [
    | inl e ↦ let q : 0 ≡ k = ground arith in subst (Passing test (x ∷ xs)) q (passing x refl e)
    | inr e ↦ later (λ j. find_first-Passing test xs j) (find_first test xs) refl (ground arith)
  ]
    where
      shifted : (j : ℕ) → Passing test xs j → Passing test (x ∷ xs) (suc j)
      shifted j (passing y e p) = passing y e p

      later :
          ((j : ℕ) → find_first test xs ≡ some j → Passing test xs j)
          → (r : Option ℕ) → find_first test xs ≡ r
          → (elim r [ none ↦ none | some j ↦ some (suc j) ]) ≡ some k
          → Passing test (x ∷ xs) k
      later ih none e q = absurd (ground arith)
      later ih (some j) e q =
          subst (Passing test (x ∷ xs)) (some-injective _ _ q) (shifted j (ih j e))

  pub get_elem?-append :
      (xs ys : List A) (k : ℕ) (x : A) → get_elem? xs k ≡ some x → get_elem? (xs ++ ys) k ≡ some x
  get_elem?-append [] ys k x h = absurd (ground arith)
  get_elem?-append (y ∷ xs) ys zero x h = h
  get_elem?-append (y ∷ xs) ys (suc k) x h = get_elem?-append xs ys k x h

  pub get_elem?-length : (xs : List A) (x : A) → get_elem? (xs ++ x ∷ []) (length xs) ≡ some x
  get_elem?-length [] x = refl
  get_elem?-length (y ∷ xs) x = get_elem?-length xs x

  pub get_elem?-append_left :
      (xs ys : List A) (k : ℕ) → k < length xs → get_elem? (xs ++ ys) k ≡ get_elem? xs k
  get_elem?-append_left [] ys k h = absurd (omega arith)
  get_elem?-append_left (x ∷ xs) ys zero h = refl
  get_elem?-append_left (x ∷ xs) ys (suc k) h = get_elem?-append_left xs ys k (omega arith)

  -- What a write leaves at its position.
  pub get_elem?-set_lem :
      (xs : List A) (i : ℕ) (v x : A) → get_elem? (set xs i v) i ≡ some x → x ≡ v
  get_elem?-set_lem [] i v x h = absurd (ground arith)
  get_elem?-set_lem (y ∷ xs) zero v x h = sym (some-injective _ _ h)
  get_elem?-set_lem (y ∷ xs) (suc i) v x h = get_elem?-set_lem xs i v x h
