-- ===== src/FreeList.antt =====
-- engine/core/freeListHandleHelpers.h: `FreeListPtr` with handles of `Basic32`, as the virtual machine
-- keeps its fibers. An item is named by its address; a bit field lies in a `U32` from the low end on.
pub mod Invariant
pub mod Handles
pub mod Freed
mod Tests
use korkscript.Prelude.{
  Bool, List, Option, [], false, get_elem?, if◌then◌else◌, length, none, set, some, ℕ, ◌%◌, ◌*◌,
  ◌++◌, ◌+◌, ◌-◌, ◌/◌, ◌==◌, ◌^◌, ◌∷◌,
}

-- `Basic32`
abbrev pub index_bits : ℕ
index_bits = 24

abbrev pub generation_bits : ℕ
generation_bits = 7

unfoldable pub make_value : ℕ → ℕ → Bool → ℕ
make_value num gen is_heavy =
    num % 2 ^ index_bits + gen % 2 ^ generation_bits * 2 ^ 24 + (if is_heavy then 2 ^ 31 else 0)

unfoldable pub get_num : ℕ → ℕ
get_num value = value % 2 ^ index_bits

unfoldable pub get_gen : ℕ → ℕ
get_gen value = value / 2 ^ 24 % 2 ^ generation_bits

unfoldable pub is_heavy_ref : ℕ → Bool
is_heavy_ref value = value / 2 ^ 31 % 2 == 1

-- The number 0 gives the last index there is.
unfoldable pub get_index : ℕ → ℕ
get_index value = (get_num value + (2 ^ 32 - 1)) % 2 ^ 32

unfoldable pub get_weak_value : ℕ → ℕ
get_weak_value value = make_value (get_num value) (get_gen value) false

-- `mAllocNumber` and `mGeneration`, of 24 and of 7 bits.
pub record Item : Type 0 where
  pub alloc_number : ℕ
  pub generation : ℕ

-- The items of the list and those outside of it are in memory. The last free slot stands first.
pub record FreeListPtr : Type 0 where
  pub items : List (Option ℕ)
  pub free_items : List ℕ
  pub memory : ℕ → Item

abbrev pub write : (ℕ → Item) → ℕ → Item → ℕ → Item
write memory p v q = if q == p then v else memory q

-- The item takes a slot: its number is one more, and its generation goes up.
unfoldable pub numbered : Item → ℕ → Item
numbered item index = record {
  alloc_number = (index + 1) % 2 ^ index_bits;
  generation = (item.generation + 1) % 2 ^ generation_bits;
}

unfoldable pub handle_of : FreeListPtr → ℕ → Bool → ℕ
handle_of l p is_heavy =
    let item = l.memory p in make_value item.alloc_number item.generation is_heavy

abbrev pub take_slot : FreeListPtr → List ℕ → ℕ → FreeListPtr
take_slot l [] p = record {
  items = l.items ++ some p ∷ [];
  free_items = [];
  memory = write l.memory p (numbered (l.memory p) (length l.items));
}
take_slot l (index ∷ rest) p = record {
  items = set l.items index (some p);
  free_items = rest;
  memory = write l.memory p (numbered (l.memory p) index);
}

-- An item that is in the list stays where it is.
unfoldable pub alloc_list_handle : FreeListPtr → ℕ → Bool → FreeListPtr × ℕ
alloc_list_handle l p is_strong =
    let u = if (l.memory p).alloc_number == 0 then take_slot l l.free_items p else l in
    (u, handle_of u p is_strong)

-- `resolveHandlePtr`
abbrev pub with_generation : FreeListPtr → ℕ → Option (Option ℕ) → Option ℕ
with_generation l gen (some (some p)) = if (l.memory p).generation == gen then some p else none
with_generation l gen _ = none

unfoldable pub get_item : FreeListPtr → ℕ → Option ℕ
get_item l value = with_generation l (get_gen value) (get_elem? l.items (get_index value))

unfoldable pub free_list_ptr : FreeListPtr → ℕ → FreeListPtr
free_list_ptr l p =
    let number = (l.memory p).alloc_number in
    if number == 0 then l else record {
      items = set l.items (number - 1) none;
      free_items = (number - 1) ∷ l.free_items;
      memory = write l.memory p (record (l.memory p) { alloc_number = 0 });
    }

-- `clear` takes all numbers back; the generations stay.
abbrev pub forget : List (Option ℕ) → (ℕ → Item) → ℕ → Item
forget [] memory = memory
forget (none ∷ items) memory = forget items memory
forget (some p ∷ items) memory =
    forget items (write memory p (record (memory p) { alloc_number = 0 }))

unfoldable pub clear_all : FreeListPtr → FreeListPtr
clear_all l = record { items = []; free_items = []; memory = forget l.items l.memory }

-- `forEach`: the items that are in the list, in order.
abbrev pub members : (ℕ → Item) → List (Option ℕ) → List ℕ
members memory [] = []
members memory (none ∷ items) = members memory items
members memory (some p ∷ items) =
    let rest = members memory items in if (memory p).alloc_number == 0 then rest else p ∷ rest

unfoldable pub for_each : FreeListPtr → List ℕ
for_each l = members l.memory l.items
