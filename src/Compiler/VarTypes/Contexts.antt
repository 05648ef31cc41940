-- ===== src/Compiler/VarTypes/Contexts.antt =====
-- engine/console/compiler.cc: lemmas on the contexts of local variables.
use korkscript.Prelude.{
  Bool, Bytes, List, Option, [], ap, arith, false, get_elem?, get_or, if◌then◌else◌, none, refl,
  set, some, some-injective, subst, suc, sym, true, zero, ℕ, ◌+◌, ◌-◌, ◌<◌, ◌==◌, ◌∙◌, ◌∷◌, ◌≡◌,
}
use korkscript.Compiler.VarTypes.{
  VarScopes, VarTypeTable, get_var_info, is_global, note_local, noted, pop_local_var_context,
  push_local_var_context, var_type_stack_size,
}

-- A state in which a new context can be opened: there is room, and its table is empty.
pub record HasRoom (s : VarScopes) : Type 0 where
  pub room : s.cur_local_var_stack_pos + 1 < var_type_stack_size
  pub clear : get_elem? s.local_var_types s.cur_local_var_stack_pos ≡ some []

-- What the look-ups of a context may change: its own table, and that of the globals.
pub record Inner (s u : VarScopes) : Type 0 where
  pub table : VarTypeTable
  pub locals : u.local_var_types ≡ set s.local_var_types s.cur_local_var_stack_pos table
  pub depth : u.cur_local_var_stack_pos ≡ s.cur_local_var_stack_pos + 1

set-set : {A : Type 0} (xs : List A) (i : ℕ) (x y : A) → set (set xs i x) i y ≡ set xs i y
set-set [] i x y = refl
set-set (z ∷ xs) zero x y = refl
set-set (z ∷ xs) (suc i) x y = ap (λ ys. z ∷ ys) (set-set xs i x y)

set-get_elem? :
    {A : Type 0} (xs : List A) (i : ℕ) (x : A) → get_elem? xs i ≡ some x → set xs i x ≡ xs
set-get_elem? [] i x h = refl
set-get_elem? (z ∷ xs) zero x h = ap (λ y. y ∷ xs) (sym (some-injective _ _ h))
set-get_elem? (z ∷ xs) (suc i) x h = ap (λ ys. z ∷ ys) (set-get_elem? xs i x h)

-- A list of look-ups, each with its name and type.
abbrev pub look_up_all : VarScopes → List (Bytes × Option (Bytes × Option ℕ)) → Option VarScopes
look_up_all s [] = some s
look_up_all s ((name, ty) ∷ rest) = elim (get_var_info s name ty) [
  | none ↦ none
  | some u ↦ look_up_all u rest
]

note_local-Inner :
    (s u : VarScopes) (f : VarTypeTable → VarTypeTable) → Inner s u → Inner s (note_local u f)
unfolding note_local
note_local-Inner s u f i =
    let pos = s.cur_local_var_stack_pos in
    let below : u.cur_local_var_stack_pos - 1 ≡ pos = omega (arith, i.depth) in
    let table = f (get_or u.local_var_types (u.cur_local_var_stack_pos - 1) []) in
    record {
      table = table;
      locals =
          ap (λ k. set u.local_var_types k table) below
          ∙ ap (λ ts. set ts pos table) i.locals
          ∙ set-set s.local_var_types pos i.table table;
      depth = i.depth;
    }

get_var_info-Inner :
    (s u w : VarScopes) (name : Bytes) (ty : Option (Bytes × Option ℕ))
    → Inner s u
    → get_var_info u name ty ≡ some w
    → Inner s w
unfolding get_var_info
get_var_info-Inner s u w name ty i h = by_sigil (is_global name) (u.cur_local_var_stack_pos == 0) h
  where
    by_sigil :
        (b c : Bool)
        → (if b
            then some (record u { global_var_types = noted name ty u.global_var_types })
            else if c
            then none
            else some (note_local u (noted name ty)))
          ≡ some w
        → Inner s w
    by_sigil true c h =
        subst (Inner s) (some-injective _ _ h)
          (record { table = i.table; locals = i.locals; depth = i.depth })
    by_sigil false true h = absurd (ground arith)
    by_sigil false false h =
        subst (Inner s) (some-injective _ _ h) (note_local-Inner s u (noted name ty) i)

look_up_all-Inner :
    (s u w : VarScopes) (names : List (Bytes × Option (Bytes × Option ℕ)))
    → Inner s u
    → look_up_all u names ≡ some w
    → Inner s w
look_up_all-Inner s u w [] i h = subst (Inner s) (some-injective _ _ h) i
look_up_all-Inner s u w ((name, ty) ∷ rest) i h =
    split (λ v. look_up_all-Inner s v w rest) (get_var_info u name ty) refl h
  where
    split :
        ((v : VarScopes) → Inner s v → look_up_all v rest ≡ some w → Inner s w)
        → (r : Option VarScopes) → get_var_info u name ty ≡ r
        → (elim r [ none ↦ none | some v ↦ look_up_all v rest ]) ≡ some w
        → Inner s w
    split ih none e q = absurd (ground arith)
    split ih (some v) e q = ih v (get_var_info-Inner s u v name ty i e) q

push_local_var_context-Inner : (s : VarScopes) → HasRoom s → Inner s (push_local_var_context s)
unfolding push_local_var_context
push_local_var_context-Inner s v =
    let open_pos : (s.cur_local_var_stack_pos == var_type_stack_size - 1) ≡ false =
      ground (arith, v.room) in
    rw open_pos (record {
      table = [];
      locals = sym (set-get_elem? s.local_var_types s.cur_local_var_stack_pos [] v.clear);
      depth = refl;
    })

-- A context that is opened where there is room, in which any variables are looked up and given
-- types, and that is closed again, leaves the tables and the place of the contexts around it exactly
-- as they were.
pub pop_local_var_context-push_local_var_context :
    (s w : VarScopes) (names : List (Bytes × Option (Bytes × Option ℕ)))
    → HasRoom s
    → look_up_all (push_local_var_context s) names ≡ some w
    → ((pop_local_var_context w).local_var_types ≡ s.local_var_types)
      × ((pop_local_var_context w).cur_local_var_stack_pos ≡ s.cur_local_var_stack_pos)
unfolding pop_local_var_context
pop_local_var_context-push_local_var_context s w names v h =
    let pos = s.cur_local_var_stack_pos in
    let i =
      look_up_all-Inner s (push_local_var_context s) w names (push_local_var_context-Inner s v) h in
    let below : w.cur_local_var_stack_pos - 1 ≡ pos = omega (arith, i.depth) in
    (
      ap (λ k. set w.local_var_types k []) below
          ∙ ap (λ ts. set ts pos []) i.locals
          ∙ set-set s.local_var_types pos i.table []
          ∙ set-get_elem? s.local_var_types pos [] v.clear,
      below,
    )
