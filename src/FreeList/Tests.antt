-- ===== src/FreeList/Tests.antt =====
-- engine/core/freeListHandleHelpers.h: runs.
use korkscript.Prelude.{[], arith, false, refl, some, true, ◌*◌, ◌+◌, ◌^◌, ◌∷◌, ◌≡◌}
use korkscript.FreeList.{
  FreeListPtr, alloc_list_handle, for_each, free_list_ptr, get_item, handle_of, make_value,
  numbered,
}
use korkscript.FreeList.Freed.{IsFreed, alloc_list_handle-reuses, free_list_ptr-IsFreed}
use korkscript.FreeList.Handles.{Allocated, alloc_list_handle-Allocated}
use korkscript.FreeList.Invariant.{HasRoom, IsWellFormed}

abbrev no_items : FreeListPtr
no_items = record {
  items = [];
  free_items = [];
  memory = λ p. record { alloc_number = 0; generation = 0 };
}

no_items-IsWellFormed : IsWellFormed no_items
no_items-IsWellFormed = record {
  held = λ p i h. absurd (ground (arith, h));
  kept = λ p i h. absurd (omega (arith, h));
  vacant = tt;
  generations = λ p. omega arith;
  small = omega arith;
}

-- The items at 7 and 8 are in the list.
abbrev one_item : FreeListPtr
one_item = (alloc_list_handle no_items 7 true).0

abbrev two_items : FreeListPtr
two_items = (alloc_list_handle one_item 8 true).0

alloc_list_handle-Allocated_example : Allocated no_items 7 (alloc_list_handle no_items 7 true)
alloc_list_handle-Allocated_example =
    alloc_list_handle-Allocated no_items 7 true no_items-IsWellFormed (omega arith)

one_item-IsWellFormed : IsWellFormed one_item
one_item-IsWellFormed =
    (alloc_list_handle-Allocated no_items 7 true no_items-IsWellFormed (omega arith)).well_formed

one_item-HasRoom : HasRoom one_item
unfolding alloc_list_handle
one_item-HasRoom = omega arith

two_items-IsWellFormed : IsWellFormed two_items
two_items-IsWellFormed =
    (alloc_list_handle-Allocated one_item 8 true one_item-IsWellFormed one_item-HasRoom).well_formed

free_list_ptr-IsFreed_example : IsFreed two_items 7 (free_list_ptr two_items 7)
free_list_ptr-IsFreed_example = free_list_ptr-IsFreed two_items 7 two_items-IsWellFormed

-- The test of the source: the second item comes back into its slot with the next generation.
second_again : (alloc_list_handle (free_list_ptr two_items 8) 8 true).1 ≡ 2 ^ 31 + 2 * 2 ^ 24 + 2
unfolding alloc_list_handle free_list_ptr handle_of make_value numbered
second_again = refl

seen : for_each (free_list_ptr two_items 7) ≡ 8 ∷ []
unfolding alloc_list_handle free_list_ptr for_each numbered
seen = refl

-- The handle of the item at 7 leads to the item at 9.
alloc_list_handle-reuses_example :
    get_item (alloc_list_handle (free_list_ptr one_item 7) 9 true).0 (handle_of one_item 7 false)
    ≡ some 9
unfolding alloc_list_handle numbered
alloc_list_handle-reuses_example =
    alloc_list_handle-reuses one_item 7 9 true false one_item-IsWellFormed one_item-HasRoom
      (omega arith) refl refl
