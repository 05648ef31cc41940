-- ===== src/FreeList/Handles.antt =====
-- engine/core/freeListHandleHelpers.h: what a handle leads to.
use korkscript.Prelude.{
  Bool, List, [], ap, arith, false, inl, inr, length, none, refl, some, suc, sym, true, zero, ℕ,
  ◌%◌, ◌+◌, ◌<◌, ◌==◌, ◌^◌, ◌∙◌, ◌∷◌, ◌≡◌, ◌≢◌, ◌⊎◌,
}
use korkscript.FreeList.{
  FreeListPtr, alloc_list_handle, generation_bits, get_gen, get_index, get_item, get_num, handle_of,
  index_bits, make_value, numbered, take_slot, with_generation,
}
use korkscript.FreeList.Invariant.{
  AreVacant, HasRoom, IsWellFormed, get_elem?-bound, take_slot-IsWellFormed, write_other,
  write_self,
}

-- The parts of a value.
pub get_num-make_value :
    (num gen : ℕ) (b : Bool) → get_num (make_value num gen b) ≡ num % 2 ^ index_bits
unfolding get_num make_value
get_num-make_value num gen false = omega arith
get_num-make_value num gen true = omega arith

pub get_gen-make_value :
    (num gen : ℕ) (b : Bool) → get_gen (make_value num gen b) ≡ gen % 2 ^ generation_bits
unfolding get_gen make_value
get_gen-make_value num gen false = omega arith
get_gen-make_value num gen true = omega arith

pub get_index-make_value :
    (n gen : ℕ) (b : Bool) → n + 1 < 2 ^ index_bits → get_index (make_value (n + 1) gen b) ≡ n
unfolding get_index
get_index-make_value n gen b h = omega (arith, get_num-make_value (n + 1) gen b)

pub number_cases : (n : ℕ) → (n ≡ 0) ⊎ ((k : ℕ) × (n ≡ k + 1))
number_cases zero = inl refl
number_cases (suc k) = inr (k, omega arith)

-- A slot with an item of the handle's generation.
found :
    (l : FreeListPtr) (q gen : ℕ)
    → (l.memory q).generation ≡ gen
    → with_generation l gen (some (some q)) ≡ some q
found l q gen e =
    let same : ((l.memory q).generation == gen) ≡ true = ground (arith, e) in rw same refl

-- The handle of an item in the list leads to the item.
pub get_item-handle_of :
    (l : FreeListPtr) (q : ℕ) (b : Bool)
    → IsWellFormed l
    → 0 < (l.memory q).alloc_number
    → get_item l (handle_of l q b) ≡ some q
unfolding get_item handle_of
get_item-handle_of l q b w h = elim (number_cases (l.memory q).alloc_number) [
  | inl e ↦ absurd (omega (arith, h, e))
  | inr (n, e) ↦
      let place = w.kept q n e in
      let bound = get_elem?-bound l.items n (some q) place in
      rw
        (
          e,
          get_index-make_value n (l.memory q).generation b (omega (arith, bound, w.small)),
          place,
          get_gen-make_value (n + 1) (l.memory q).generation b,
        )
        (found l q _ (omega (arith, w.generations q)))
]

-- The number of an item in a slot is not 0.
pub numbered_lem :
    (l : FreeListPtr) (p : ℕ)
    → HasRoom l
    → IsWellFormed l
    → (free : List ℕ) → AreVacant l.items free
    → 0 < ((take_slot l free p).memory p).alloc_number
unfolding numbered
numbered_lem l p r w [] v =
    rw (write_self l.memory p (numbered (l.memory p) (length l.items))) (omega (arith, r))
numbered_lem l p r w (i ∷ rest) v =
    rw (write_self l.memory p (numbered (l.memory p) i))
      (omega (arith, r, get_elem?-bound l.items i none v.0))

-- What an allocation does to a list: its own handle works, and those of other items do as before.
pub record Allocated (l : FreeListPtr) (p : ℕ) (r : FreeListPtr × ℕ) : Type 0 where
  pub well_formed : IsWellFormed r.0
  pub found_again : get_item r.0 r.1 ≡ some p
  pub others :
      (q : ℕ) (b : Bool)
      → q ≢ p
      → 0 < (l.memory q).alloc_number
      → get_item r.0 (handle_of l q b) ≡ some q

pub take_slot_other :
    (l : FreeListPtr) (p q : ℕ) (free : List ℕ) → q ≢ p → (take_slot l free p).memory q ≡ l.memory q
take_slot_other l p q [] k = write_other l.memory p q _ k
take_slot_other l p q (i ∷ rest) k = write_other l.memory p q _ k

-- A handle is made of what the memory holds of its item.
pub handle_of-same :
    (l u : FreeListPtr) (q : ℕ) (b : Bool)
    → u.memory q ≡ l.memory q
    → handle_of u q b ≡ handle_of l q b
unfolding handle_of
handle_of-same l u q b e = ap (λ item. make_value item.alloc_number item.generation b) e

-- An item that was not written keeps its handle and its place.
pub get_item-unwritten :
    (l u : FreeListPtr) (q : ℕ) (b : Bool)
    → IsWellFormed u
    → u.memory q ≡ l.memory q
    → 0 < (l.memory q).alloc_number
    → get_item u (handle_of l q b) ≡ some q
get_item-unwritten l u q b w e n =
    ap (get_item u) (sym (handle_of-same l u q b e))
    ∙ get_item-handle_of u q b w (omega (arith, n, ap (λ item. item.alloc_number) e))

taken-Allocated :
    (l : FreeListPtr) (p : ℕ) (b : Bool)
    → (l.memory p).alloc_number ≡ 0
    → IsWellFormed l
    → HasRoom l
    → Allocated l p (take_slot l l.free_items p, handle_of (take_slot l l.free_items p) p b)
taken-Allocated l p b h w r =
    let u = take_slot l l.free_items p in
    let good = take_slot-IsWellFormed l p l.free_items h w.vacant w r in
    record {
      well_formed = good;
      found_again = get_item-handle_of u p b good (numbered_lem l p r w l.free_items w.vacant);
      others = λ q c k n. get_item-unwritten l u q c good (take_slot_other l p q l.free_items k) n;
    }

-- On a well-formed list with a number left: `allocListHandle` leaves a well-formed list, its handle,
-- strong or not, leads to the item, and each handle of any other item in the list leads to that.
pub alloc_list_handle-Allocated :
    (l : FreeListPtr) (p : ℕ) (is_strong : Bool)
    → IsWellFormed l
    → HasRoom l
    → Allocated l p (alloc_list_handle l p is_strong)
unfolding alloc_list_handle
alloc_list_handle-Allocated l p is_strong w r = elim (number_cases (l.memory p).alloc_number) [
  | inl e ↦
      let new : ((l.memory p).alloc_number == 0) ≡ true = ground (arith, e) in
      rw new (taken-Allocated l p is_strong e w r)
  | inr (k, e) ↦
      let there : ((l.memory p).alloc_number == 0) ≡ false = ground (arith, e) in
      rw there (record {
        well_formed = w;
        found_again = get_item-handle_of l p is_strong w (omega (arith, e));
        others = λ q c d n. get_item-handle_of l q c w n;
      })
]
