-- ===== src/Compiler/FloatTable.antt =====
-- engine/console/compiler.cc: `CompilerFloatTable`. The comparison of two numbers, `==` of `F64`, is
-- an argument: it need not be reflexive, since a NaN differs from itself.
use korkscript.Prelude.{
  Bool, List, Option, Passing, [], arith, find_first, find_first-Passing, get_elem?,
  get_elem?-append, get_elem?-length, inl, inr, length, length-append, none, refl, some, ℕ, ◌++◌,
  ◌+◌, ◌-◌, ◌∷◌, ◌≡◌, ◌⊎◌,
}

pub record CompilerFloatTable (F : Type 0) : Type 0 where
  pub count : ℕ
  pub list : List F

module _ {F : Type 0} where
  unfoldable pub reset : CompilerFloatTable F
  reset = record { count = 0; list = [] }

  -- The walk of `add`.
  unfoldable pub find_float : (F → F → Bool) → F → List F → Option ℕ
  find_float feq value xs = find_first (feq value) xs

  abbrev pub add_at : CompilerFloatTable F → F → Option ℕ → CompilerFloatTable F × ℕ
  add_at t value (some i) = (t, i)
  add_at t value none =
      (record { count = t.count + 1; list = t.list ++ value ∷ [] }, t.count + 1 - 1)

  unfoldable pub add_float : (F → F → Bool) → CompilerFloatTable F → F → CompilerFloatTable F × ℕ
  add_float feq t value = add_at t value (find_float feq value t.list)

  -- `build` copies the values into an array; `write` sends the count and the values.
  unfoldable pub build : CompilerFloatTable F → List F
  build t = t.list

  unfoldable pub write : CompilerFloatTable F → ℕ × List F
  write t = (t.count, t.list)

-- The count is that of the values.
abbrev pub IsCounted : {F : Type 0} → CompilerFloatTable F → Type 0
IsCounted t = t.count ≡ length t.list

-- What `add` promises of the index that it returns.
pub record AddsFloat {F : Type 0} (feq : F → F → Bool) (t u : CompilerFloatTable F) (value : F)
    (k : ℕ) : Type 0 where
  pub counted : IsCounted u
  pub kept : (i : ℕ) (x : F) → get_elem? t.list i ≡ some x → get_elem? u.list i ≡ some x
  pub found : Passing (λ x. feq value x) u.list k ⊎ (get_elem? u.list k ≡ some value)

-- `add` returns the index of a number that compares equal or of a new entry, keeps all entries where
-- they were, and keeps the count.
pub add_float-AddsFloat :
    {F : Type 0} (feq : F → F → Bool) (t : CompilerFloatTable F) (value : F)
    → IsCounted t
    → AddsFloat feq t (add_float feq t value).0 value (add_float feq t value).1
unfolding add_float find_float
add_float-AddsFloat {F} feq t value c = at (find_float feq value t.list) refl
  where
    at :
        (r : Option ℕ)
        → find_float feq value t.list ≡ r
        → AddsFloat feq t (add_at t value r).0 value (add_at t value r).1
    at (some i) e = record {
      counted = c;
      kept = λ j x h. h;
      found = inl (find_first-Passing (feq value) t.list i e);
    }
    at none e = record {
      counted = omega (arith, c, length-append t.list (value ∷ []));
      kept = λ j x h. get_elem?-append t.list (value ∷ []) j x h;
      found =
          let k : t.count + 1 - 1 ≡ length t.list = omega (arith, c) in
          inr (rw k (get_elem?-length t.list value));
    }
