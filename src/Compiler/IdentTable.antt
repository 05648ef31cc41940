-- ===== src/Compiler/IdentTable.antt =====
-- engine/console/compiler.cc: `CompilerIdentTable`, the identifiers of a code block with the
-- positions that name them, and the two functions that translate an identifier to a word and back.
-- An identifier is its C string; its place is that of its text in the global string table.
pub mod Linked
pub mod Names
pub mod Append
use korkscript.Prelude.{
  Bool, Bytes, List, Option, [], false, find_first, get_elem?, if◌then◌else◌, map, none, some, suc,
  true, zero, ℕ, ◌++◌, ◌+◌, ◌==◌, ◌∷◌,
}
use korkscript.Compiler.StringTable.{CString, CompilerStringTable, add}

pub record FullEntry : Type 0 where
  pub offset : ℕ
  pub num_instances : ℕ
  -- The positions, newest first.
  pub patch : List ℕ
  pub ste_name : Bytes

-- `tail` points to the last entry of `list` or is null.
pub record CompilerIdentTable : Type 0 where
  pub list : List FullEntry
  pub has_tail : Bool
  pub num_ident_strings : ℕ

-- The table with the global string table that it adds to.
pub record Tables : Type 0 where
  pub idents : CompilerIdentTable
  pub strings : CompilerStringTable

unfoldable pub reset : CompilerIdentTable
reset = record { list = []; has_tail = false; num_ident_strings = 0 }

-- The walk that compares offsets: the index of the entry.
unfoldable pub find_index : List FullEntry → ℕ → Option ℕ
find_index es index = find_first (λ e. e.offset == index) es

-- A new entry behind the tail; without a tail it becomes the whole list.
unfoldable pub link : CompilerIdentTable → FullEntry → CompilerIdentTable
link t e = record {
  list = if t.has_tail then t.list ++ e ∷ [] else e ∷ [];
  has_tail = true;
  num_ident_strings = t.num_ident_strings + 1;
}

-- One more position for the entry at an index.
unfoldable pub add_patch : List FullEntry → ℕ → ℕ → List FullEntry
add_patch [] k ip = []
add_patch (e ∷ es) zero ip =
    record e { patch = ip ∷ e.patch; num_instances = e.num_instances + 1 } ∷ es
add_patch (e ∷ es) (suc k) ip = e ∷ add_patch es k ip

-- `addNoAddress` behind the string table, with the index that the walk found.
abbrev pub no_address_at : CompilerIdentTable → CString → ℕ → Option ℕ → CompilerIdentTable × ℕ
no_address_at t ste index (some k) = (t, k)
no_address_at t ste index none = (
  link t (record { offset = index; num_instances = 0; patch = []; ste_name = ste.text }),
  t.num_ident_strings,
)

-- `add` behind the string table, with the index that the walk found.
abbrev pub address_at : CompilerIdentTable → CString → ℕ → ℕ → Option ℕ → CompilerIdentTable × ℕ
address_at t ste ip index (some k) = (record t { list = add_patch t.list k ip }, k)
address_at t ste ip index none = (
  link t (record { offset = index; num_instances = 1; patch = ip ∷ []; ste_name = ste.text }),
  t.num_ident_strings,
)

-- Both begin with a call of the string table's `add`, which compares without case.
abbrev pub indexed :
    (ℕ → CompilerIdentTable × ℕ) → Option (CompilerStringTable × ℕ) → Option (Tables × ℕ)
indexed f none = none
indexed f (some (strings, index)) =
    some (record { idents = (f index).0; strings = strings }, (f index).1)

unfoldable pub with_index : Tables → CString → (ℕ → CompilerIdentTable × ℕ) → Option (Tables × ℕ)
with_index t ste f = indexed f (add t.strings ste false false)

unfoldable pub add_no_address : Tables → CString → Option (Tables × ℕ)
add_no_address t ste =
    with_index t ste (λ index. no_address_at t.idents ste index (find_index t.idents.list index))

unfoldable pub add_ident : Tables → CString → ℕ → Option (Tables × ℕ)
add_ident t ste ip =
    with_index t ste (λ index. address_at t.idents ste ip index (find_index t.idents.list index))

-- What `write` sends: the count, then each entry with its positions.
unfoldable pub write_entries : List FullEntry → List ℕ
write_entries [] = []
write_entries (e ∷ es) = e.offset ∷ e.num_instances ∷ e.patch ++ write_entries es

unfoldable pub write : CompilerIdentTable → List ℕ
write t = t.num_ident_strings ∷ write_entries t.list

-- The arrays of `build`, as far as they are filled.
pub record Built : Type 0 where
  pub strings : List Bytes
  pub string_offsets : List ℕ
  pub num_strings : ℕ

unfoldable pub build : CompilerIdentTable → Built
build t = record {
  strings = map (λ e. e.ste_name) t.list;
  string_offsets = map (λ e. e.offset) t.list;
  num_strings = t.num_ident_strings;
}

-- `append`, whose argument is not used again by its callers; an empty table takes over the other's
-- list but keeps its own null tail. `none` is the access through a null tail.
abbrev pub append_lists :
    CompilerIdentTable
    → CompilerIdentTable
    → List FullEntry
    → List FullEntry
    → Option (CompilerIdentTable × ℕ)
append_lists t other es [] = some (t, t.num_ident_strings)
append_lists t other [] (f ∷ fs) =
    some (record t { list = f ∷ fs; num_ident_strings = other.num_ident_strings }, 0)
append_lists t other (e ∷ es) (f ∷ fs) =
    if t.has_tail
    then some (
      record {
        list = (e ∷ es) ++ f ∷ fs;
        has_tail = other.has_tail;
        num_ident_strings = t.num_ident_strings + other.num_ident_strings;
      },
      t.num_ident_strings,
    )
    else none

unfoldable pub append : CompilerIdentTable → CompilerIdentTable → Option (CompilerIdentTable × ℕ)
append t other = append_lists t other t.list other.list

-- The index that a word stands for is one below it.
abbrev pub word_of : Option (Tables × ℕ) → Option (Tables × ℕ)
word_of none = none
word_of (some (u, k)) = some (u, suc k)

-- `compileSTEtoCode`: the first of the two words; `none` as an identifier is the null pointer.
unfoldable pub compile_ste_to_code : Tables → Option CString → ℕ → Option (Tables × ℕ)
compile_ste_to_code t none ip = some (t, 0)
compile_ste_to_code t (some ste) ip = word_of (add_ident t ste ip)

-- `CodeToSTE`: the entry of a list that a word names; `none` is null.
unfoldable pub code_to_ste {ℓ} : {A : Type ℓ} → List A → ℕ → Option A
code_to_ste list zero = none
code_to_ste list (suc k) = get_elem? list k
