-- ===== src/FreeList/Freed.antt =====
-- engine/core/freeListHandleHelpers.h: what freeing an item does to its handles, and what comes to lie in
-- its slot.
use korkscript.Prelude.{
  Bool, Bool-cases, List, Option, [], ap, arith, false, get_elem?, get_elem?-set_ne,
  get_elem?-set_self, inl, inr, length, length-set, none, refl, set, some, subst, suc, sym, true,
  zero, ℕ, ◌%◌, ◌+◌, ◌-◌, ◌<◌, ◌==◌, ◌^◌, ◌∙◌, ◌∷◌, ◌≡◌, ◌≢◌, ◌≤◌,
}
use korkscript.FreeList.{
  FreeListPtr, Item, alloc_list_handle, free_list_ptr, generation_bits, get_index, get_item,
  handle_of, index_bits, make_value, numbered, take_slot, write,
}
use korkscript.FreeList.Handles.{
  get_index-make_value, get_item-handle_of, get_item-unwritten, get_num-make_value, number_cases,
  numbered_lem,
}
use korkscript.FreeList.Invariant.{
  AreVacant-set, HasRoom, IsWellFormed, full-IsOutside, get_elem?-bound, not_same, other_item,
  same_number, take_slot-IsWellFormed, unwritten, write_other, write_self,
}

-- No handle of the item leads anywhere, and those of the others do as before.
pub record IsFreed (l : FreeListPtr) (p : ℕ) (u : FreeListPtr) : Type 0 where
  pub well_formed : IsWellFormed u
  pub not_found : (b : Bool) → get_item u (handle_of l p b) ≡ none
  pub others :
      (q : ℕ) (b : Bool)
      → q ≢ p
      → 0 < (l.memory q).alloc_number
      → get_item u (handle_of l q b) ≡ some q

abbrev cleared : Item → Item
cleared item = record item { alloc_number = 0 }

abbrev after_free : FreeListPtr → ℕ → ℕ → FreeListPtr
after_free l p n = record {
  items = set l.items n none;
  free_items = n ∷ l.free_items;
  memory = write l.memory p (cleared (l.memory p));
}

module _ (l : FreeListPtr) (p n : ℕ) (e : (l.memory p).alloc_number ≡ n + 1)
    (w : IsWellFormed l) where
  freed_held :
      (q j : ℕ)
      → get_elem? (set l.items n none) j ≡ some (some q)
      → (write l.memory p (cleared (l.memory p)) q).alloc_number ≡ j + 1
  freed_held q j h = elim (Bool-cases (j == n)) [
    | inl k ↦ absurd (
        ground (
          arith,
          h,
          ap (get_elem? (set l.items n none)) (same_number n j k),
          get_elem?-set_self l.items n none (get_elem?-bound l.items n (some p) (w.kept p n e)),
        ))
    | inr k ↦
        let away = not_same n j k in
        let old = w.held q j (sym (get_elem?-set_ne l.items none (λ x. away (sym x))) ∙ h) in
        let other : q ≢ p =
          λ x. away (omega (arith, e, old, ap (λ y. (l.memory y).alloc_number) x)) in
        unwritten l p q _ other ∙ old
  ]

  freed_kept :
      (q j : ℕ)
      → (write l.memory p (cleared (l.memory p)) q).alloc_number ≡ j + 1
      → get_elem? (set l.items n none) j ≡ some (some q)
  freed_kept q j h = elim (Bool-cases (q == p)) [
    | inl k ↦ absurd (not_cleared k h)
    | inr k ↦
        let other = not_same p q k in
        let old = w.kept q j (sym (unwritten l p q _ other) ∙ h) in
        get_elem?-set_ne l.items none (λ x. other (same_item x old)) ∙ old
  ]
    where
      not_cleared :
          (q == p) ≡ true → (write l.memory p (cleared (l.memory p)) q).alloc_number ≡ j + 1 → ⊥
      not_cleared k h = omega (arith, rw k at h)

      same_item : n ≡ j → get_elem? l.items j ≡ some (some q) → q ≡ p
      same_item x old = ground (arith, old, w.kept p n e, ap (get_elem? l.items) x)

  freed_generations :
      (q : ℕ) → (write l.memory p (cleared (l.memory p)) q).generation < 2 ^ generation_bits
  freed_generations q = elim (Bool-cases (q == p)) [
    | inl k ↦ rw k (w.generations p)
    | inr k ↦ rw k (w.generations q)
  ]

  after_free-IsWellFormed : IsWellFormed (after_free l p n)
  after_free-IsWellFormed =
      let place = w.kept p n e in
      let full = full-IsOutside l.items n p l.free_items place w.vacant in
      let bound = get_elem?-bound l.items n (some p) place in
      record {
        held = freed_held;
        kept = freed_kept;
        vacant = (
          get_elem?-set_self l.items n none bound,
          full,
          AreVacant-set l.items n none l.free_items full w.vacant,
        );
        generations = freed_generations;
        small = rw (length-set l.items n none) w.small;
      }

free-after_free :
    (l : FreeListPtr) (p n : ℕ)
    → (l.memory p).alloc_number ≡ n + 1
    → free_list_ptr l p ≡ after_free l p n
unfolding free_list_ptr
free-after_free l p n e =
    let there : ((l.memory p).alloc_number == 0) ≡ false = ground (arith, e) in
    let index : (l.memory p).alloc_number - 1 ≡ n = omega (arith, e) in rw (there, index) refl

beyond : (items : List (Option ℕ)) (i : ℕ) → length items ≤ i → get_elem? items i ≡ none
beyond [] i h = refl
beyond (x ∷ items) zero h = absurd (omega arith)
beyond (x ∷ items) (suc i) h = beyond items i (omega arith)

-- The handle of an item with no number leads behind the list.
outside_lem :
    (l : FreeListPtr) (p : ℕ) (b : Bool)
    → IsWellFormed l
    → (l.memory p).alloc_number ≡ 0
    → get_item l (handle_of l p b) ≡ none
unfolding get_item handle_of get_index
outside_lem l p b w e =
    rw
      (
        e,
        get_num-make_value 0 (l.memory p).generation b,
        beyond l.items (2 ^ 32 - 1) (omega (arith, w.small)),
      )
      refl

-- A slot that was emptied.
emptied :
    (l : FreeListPtr) (p n : ℕ) (b : Bool)
    → (l.memory p).alloc_number ≡ n + 1
    → IsWellFormed l
    → get_item (after_free l p n) (handle_of l p b) ≡ none
unfolding get_item handle_of
emptied l p n b e w =
    let bound = get_elem?-bound l.items n (some p) (w.kept p n e) in
    rw
      (
        e,
        get_index-make_value n (l.memory p).generation b (omega (arith, bound, w.small)),
        get_elem?-set_self l.items n none bound,
      )
      refl

-- On a well-formed list, for an item in it or not: `freeListPtr` leaves a well-formed list, the handles
-- of the item lead nowhere, and each handle of any other item in the list leads to that.
pub free_list_ptr-IsFreed :
    (l : FreeListPtr) (p : ℕ) → IsWellFormed l → IsFreed l p (free_list_ptr l p)
unfolding free_list_ptr
free_list_ptr-IsFreed l p w = elim (number_cases (l.memory p).alloc_number) [
  | inl e ↦
      let gone : ((l.memory p).alloc_number == 0) ≡ true = ground (arith, e) in
      rw gone (record {
        well_formed = w;
        not_found = λ b. outside_lem l p b w e;
        others = λ q b k n. get_item-handle_of l q b w n;
      })
  | inr (n, e) ↦
      let good = after_free-IsWellFormed l p n e w in
      subst (IsFreed l p) (sym (free-after_free l p n e)) (record {
        well_formed = good;
        not_found = λ b. emptied l p n b e w;
        others = λ q b k m.
            get_item-unwritten l (after_free l p n) q b good
              (write_other l.memory p q (cleared (l.memory p)) k) m;
      })
]

-- The slot of the item that was freed last is taken next, and the handle is made of the slot and of
-- the new item's own generation.
reused :
    (l : FreeListPtr) (p q n : ℕ) (c : Bool)
    → (l.memory p).alloc_number ≡ n + 1
    → (l.memory q).alloc_number ≡ 0
    → ((l.memory q).generation + 1) % 2 ^ generation_bits ≡ (l.memory p).generation
    → n + 1 < 2 ^ index_bits
    → handle_of (take_slot (after_free l p n) (n ∷ l.free_items) q) q c ≡ handle_of l p c
unfolding handle_of numbered
reused l p q n c e f g h =
    let other : q ≢ p = λ x. other_item l q p n f e (sym x) in
    let memory = write l.memory p (cleared (l.memory p)) in
    let small : (n + 1) % 2 ^ index_bits ≡ n + 1 = omega (arith, h) in
    ap (λ item. make_value item.alloc_number item.generation c)
      (write_self memory q (numbered (memory q) n)
        ∙ ap (λ item. numbered item n) (write_other l.memory p q _ other))
    ∙ rw (small, g, e) refl

-- On a well-formed list with a number left, for an item in it and one outside of it whose generation,
-- counted on, is that of the first: after the first is freed and the second put in, the old handles of
-- the first lead to the second.
pub alloc_list_handle-reuses :
    (l : FreeListPtr) (p q : ℕ) (b c : Bool)
    → IsWellFormed l
    → HasRoom l
    → 0 < (l.memory p).alloc_number
    → (l.memory q).alloc_number ≡ 0
    → ((l.memory q).generation + 1) % 2 ^ generation_bits ≡ (l.memory p).generation
    → get_item (alloc_list_handle (free_list_ptr l p) q b).0 (handle_of l p c) ≡ some q
unfolding alloc_list_handle
alloc_list_handle-reuses l p q b c w r h f g = elim (number_cases (l.memory p).alloc_number) [
  | inl e ↦ absurd (omega (arith, h, e))
  | inr (n, e) ↦
      let u = after_free l p n in
      let bound = get_elem?-bound l.items n (some p) (w.kept p n e) in
      let good = after_free-IsWellFormed l p n e w in
      let other : q ≢ p = λ x. other_item l q p n f e (sym x) in
      let outside : (u.memory q).alloc_number ≡ 0 = unwritten l p q _ other ∙ f in
      let new : ((u.memory q).alloc_number == 0) ≡ true = ground (arith, outside) in
      let room : HasRoom u = rw (length-set l.items n none) r in
      let v = take_slot u (n ∷ l.free_items) q in
      let fine = take_slot-IsWellFormed u q (n ∷ l.free_items) outside good.vacant good room in
      rw (free-after_free l p n e, new)
        (ap (get_item v) (sym (reused l p q n c e f g (omega (arith, bound, w.small))))
          ∙ get_item-handle_of v q c fine
              (numbered_lem u q room good (n ∷ l.free_items) good.vacant))
]
