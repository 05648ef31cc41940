-- ===== src/FreeList/Invariant.antt =====
-- engine/core/freeListHandleHelpers.h: what the list and the numbers of its items have to do with each
-- other.
use korkscript.Prelude.{
  Bool-cases, List, Option, [], ap, arith, false, get_elem?, get_elem?-append, get_elem?-length,
  get_elem?-set_ne, get_elem?-set_self, inl, inr, length, length-append, length-set, none, refl,
  set, some, suc, sym, true, zero, ℕ, ◌++◌, ◌+◌, ◌-◌, ◌<◌, ◌==◌, ◌^◌, ◌∙◌, ◌∷◌, ◌≡◌, ◌≢◌,
}
use korkscript.FreeList.{FreeListPtr, Item, generation_bits, index_bits, numbered, take_slot, write}

abbrev pub IsOutside : ℕ → List ℕ → Type 0
IsOutside i [] = Unit
IsOutside i (j ∷ rest) = (i ≢ j) × IsOutside i rest

-- The slots are empty, and none stands there twice.
abbrev pub AreVacant : List (Option ℕ) → List ℕ → Type 0
AreVacant items [] = Unit
AreVacant items (i ∷ rest) =
    (get_elem? items i ≡ some none) × IsOutside i rest × AreVacant items rest

pub record IsWellFormed (l : FreeListPtr) : Type 0 where
  pub held : (p i : ℕ) → get_elem? l.items i ≡ some (some p) → (l.memory p).alloc_number ≡ i + 1
  pub kept : (p i : ℕ) → (l.memory p).alloc_number ≡ i + 1 → get_elem? l.items i ≡ some (some p)
  pub vacant : AreVacant l.items l.free_items
  pub generations : (p : ℕ) → (l.memory p).generation < 2 ^ generation_bits
  pub small : length l.items < 2 ^ index_bits

-- There is a number left for one more item.
abbrev pub HasRoom : FreeListPtr → Type 0
HasRoom l = length l.items < 2 ^ index_bits - 1

pub write_self : (memory : ℕ → Item) (p : ℕ) (v : Item) → write memory p v p ≡ v
write_self memory p v = ground arith

pub write_other : (memory : ℕ → Item) (p q : ℕ) (v : Item) → q ≢ p → write memory p v q ≡ memory q
write_other memory p q v h = ground arith

pub not_same : (p q : ℕ) → (q == p) ≡ false → q ≢ p
not_same p q h = ground arith

pub same_number : (p q : ℕ) → (q == p) ≡ true → q ≡ p
same_number p q h = ground arith

pub AreVacant-set :
    (items : List (Option ℕ)) (i : ℕ) (v : Option ℕ) (rest : List ℕ)
    → IsOutside i rest
    → AreVacant items rest
    → AreVacant (set items i v) rest
AreVacant-set items i v [] h k = tt
AreVacant-set items i v (j ∷ rest) h k =
    (get_elem?-set_ne items v h.0 ∙ k.0, k.1, AreVacant-set items i v rest h.1 k.2)

AreVacant-append :
    (items : List (Option ℕ)) (v : Option ℕ) (rest : List ℕ)
    → AreVacant items rest
    → AreVacant (items ++ v ∷ []) rest
AreVacant-append items v [] k = tt
AreVacant-append items v (j ∷ rest) k =
    (get_elem?-append items (v ∷ []) j none k.0, k.1, AreVacant-append items v rest k.2)

-- A slot that is full is not among the vacant ones.
pub full-IsOutside :
    (items : List (Option ℕ)) (i p : ℕ) (rest : List ℕ)
    → get_elem? items i ≡ some (some p)
    → AreVacant items rest
    → IsOutside i rest
full-IsOutside items i p [] e k = tt
full-IsOutside items i p (j ∷ rest) e k =
    (λ q. ground (arith, e, k.0, ap (get_elem? items) q), full-IsOutside items i p rest e k.2)

pub get_elem?-bound :
    (items : List (Option ℕ)) (i : ℕ) (v : Option ℕ) → get_elem? items i ≡ some v → i < length items
get_elem?-bound [] i v h = absurd (ground arith)
get_elem?-bound (x ∷ items) zero v h = omega arith
get_elem?-bound (x ∷ items) (suc i) v h = omega (arith, get_elem?-bound items i v h)

get_elem?-append_other :
    (items : List (Option ℕ)) (v : Option ℕ) (j : ℕ)
    → j ≢ length items
    → get_elem? (items ++ v ∷ []) j ≡ get_elem? items j
get_elem?-append_other [] v zero h = absurd (h refl)
get_elem?-append_other [] v (suc j) h = refl
get_elem?-append_other (x ∷ items) v zero h = refl
get_elem?-append_other (x ∷ items) v (suc j) h =
    get_elem?-append_other items v j (λ e. h (ap suc e))

-- An item that is put into a slot where there was none.
record IsPut (l : FreeListPtr) (p i : ℕ) (items : List (Option ℕ)) (free : List ℕ) : Type 0 where
  outside : (l.memory p).alloc_number ≡ 0
  put_in : get_elem? items i ≡ some (some p)
  others : (j : ℕ) → j ≢ i → get_elem? items j ≡ get_elem? l.items j
  was_empty : (q : ℕ) → get_elem? l.items i ≢ some (some q)
  small : i + 1 < 2 ^ index_bits
  fits : length items < 2 ^ index_bits
  left : AreVacant items free

abbrev after_put : FreeListPtr → ℕ → ℕ → List (Option ℕ) → List ℕ → FreeListPtr
after_put l p i items free = record {
  items = items;
  free_items = free;
  memory = write l.memory p (numbered (l.memory p) i);
}

-- What the memory holds after an item was written.
written :
    (l : FreeListPtr) (p i q : ℕ)
    → i + 1 < 2 ^ index_bits
    → q ≡ p
    → (write l.memory p (numbered (l.memory p) i) q).alloc_number ≡ i + 1
unfolding numbered
written l p i q h e =
    ap (λ x. (write l.memory p (numbered (l.memory p) i) x).alloc_number) e
    ∙ ap (λ v. v.alloc_number) (write_self l.memory p (numbered (l.memory p) i))
    ∙ omega (arith, h)

pub unwritten :
    (l : FreeListPtr) (p q : ℕ) (v : Item)
    → q ≢ p
    → (write l.memory p v q).alloc_number ≡ (l.memory q).alloc_number
unwritten l p q v h = ap (λ x. x.alloc_number) (write_other l.memory p q v h)

-- Items with different numbers are different.
pub other_item :
    (l : FreeListPtr) (p q n : ℕ)
    → (l.memory p).alloc_number ≡ 0
    → (l.memory q).alloc_number ≡ n + 1
    → q ≢ p
other_item l p q n h k e = omega (arith, h, k, ap (λ x. (l.memory x).alloc_number) e)

put_held :
    (l : FreeListPtr) (p i : ℕ) (items : List (Option ℕ)) (free : List ℕ)
    → IsPut l p i items free
    → IsWellFormed l
    → (q j : ℕ) → get_elem? items j ≡ some (some q)
    → (write l.memory p (numbered (l.memory p) i) q).alloc_number ≡ j + 1
put_held l p i items free h w q j e = elim (Bool-cases (j == i)) [
  | inl k ↦
      let same_slot : j ≡ i = same_number i j k in
      let same_item : q ≡ p = ground (arith, e, h.put_in, ap (get_elem? items) same_slot) in
      written l p i q h.small same_item ∙ ap (λ x. x + 1) (sym same_slot)
  | inr k ↦
      let old = w.held q j (sym (h.others j (not_same i j k)) ∙ e) in
      unwritten l p q _ (other_item l p q j h.outside old) ∙ old
]

put_kept :
    (l : FreeListPtr) (p i : ℕ) (items : List (Option ℕ)) (free : List ℕ)
    → IsPut l p i items free
    → IsWellFormed l
    → (q j : ℕ) → (write l.memory p (numbered (l.memory p) i) q).alloc_number ≡ j + 1
    → get_elem? items j ≡ some (some q)
put_kept l p i items free h w q j e = elim (Bool-cases (q == p)) [
  | inl k ↦
      let same_item : q ≡ p = same_number p q k in
      let same_slot : j ≡ i = omega (arith, e, written l p i q h.small same_item) in
      ap (get_elem? items) same_slot ∙ h.put_in ∙ ap (λ x. some (some x)) (sym same_item)
  | inr k ↦
      let old = w.kept q j (sym (unwritten l p q _ (not_same p q k)) ∙ e) in
      h.others j (λ x. h.was_empty q (sym (ap (get_elem? l.items) x) ∙ old)) ∙ old
]

put_generations :
    (l : FreeListPtr) (p i : ℕ)
    → IsWellFormed l
    → (q : ℕ) → (write l.memory p (numbered (l.memory p) i) q).generation < 2 ^ generation_bits
unfolding numbered
put_generations l p i w q = elim (Bool-cases (q == p)) [
  | inl k ↦ rw k (omega arith)
  | inr k ↦ rw k (w.generations q)
]

put-IsWellFormed :
    (l : FreeListPtr) (p i : ℕ) (items : List (Option ℕ)) (free : List ℕ)
    → IsPut l p i items free
    → IsWellFormed l
    → IsWellFormed (after_put l p i items free)
put-IsWellFormed l p i items free h w = record {
  held = put_held l p i items free h w;
  kept = put_kept l p i items free h w;
  vacant = h.left;
  generations = put_generations l p i w;
  small = h.fits;
}

-- Both ways to a slot.
pub take_slot-IsWellFormed :
    (l : FreeListPtr) (p : ℕ) (free : List ℕ)
    → (l.memory p).alloc_number ≡ 0
    → AreVacant l.items free
    → IsWellFormed l
    → HasRoom l
    → IsWellFormed (take_slot l free p)
take_slot-IsWellFormed l p [] h v w r =
    put-IsWellFormed l p (length l.items) (l.items ++ some p ∷ []) []
      (record {
        outside = h;
        put_in = get_elem?-length l.items (some p);
        others = λ j k. get_elem?-append_other l.items (some p) j k;
        was_empty = λ q k. omega (arith, get_elem?-bound l.items (length l.items) (some q) k);
        small = omega (arith, r);
        fits = omega (arith, r, length-append l.items (some p ∷ []));
        left = tt;
      })
      w
take_slot-IsWellFormed l p (i ∷ rest) h v w r =
    let bound = get_elem?-bound l.items i none v.0 in
    put-IsWellFormed l p i (set l.items i (some p)) rest
      (record {
        outside = h;
        put_in = get_elem?-set_self l.items i (some p) bound;
        others = λ j k. get_elem?-set_ne l.items (some p) (λ x. k (sym x));
        was_empty = λ q k. ground (arith, k, v.0);
        small = omega (arith, r, bound);
        fits = omega (arith, r, length-set l.items i (some p));
        left = AreVacant-set l.items i (some p) rest v.1 v.2;
      })
      w
