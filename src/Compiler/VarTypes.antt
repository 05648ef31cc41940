-- ===== src/Compiler/VarTypes.antt =====
-- engine/console/compiler.cc: the types of variables that the parser notes in `Resources`, by
-- scope. A table is its entries, newest first; an entry is named by its place from the end, which
-- never changes, in the way of the pointer that the parser keeps.
pub mod Contexts
use korkscript.Prelude.{
  Bool, Bytes, List, Option, [], equal, find_first, get_or, if◌then◌else◌, none, replicate, set,
  some, ℕ, ◌+◌, ◌-◌, ◌==◌, ◌∷◌,
}

pub record VarTypeTableEntry : Type 0 where
  pub name : Bytes
  pub type_name : Option Bytes
  -- `none` is -1.
  pub type_id : Option ℕ

abbrev pub VarTypeTable : Type 0
VarTypeTable = List VarTypeTableEntry

abbrev pub var_type_stack_size : ℕ
var_type_stack_size = 3

pub record VarScopes : Type 0 where
  pub global_var_types : VarTypeTable
  pub local_var_types : List VarTypeTable
  pub cur_local_var_stack_pos : ℕ

-- The variable part of `resetTables`.
unfoldable pub reset_var_types : VarScopes
reset_var_types = record {
  global_var_types = [];
  local_var_types = replicate var_type_stack_size [];
  cur_local_var_stack_pos = 0;
}

unfoldable pub push_local_var_context : VarScopes → VarScopes
push_local_var_context s =
    if s.cur_local_var_stack_pos == var_type_stack_size - 1
    then s
    else record s { cur_local_var_stack_pos = s.cur_local_var_stack_pos + 1 }

unfoldable pub pop_local_var_context : VarScopes → VarScopes
pop_local_var_context s =
    let pos = s.cur_local_var_stack_pos - 1 in
    record s { local_var_types = set s.local_var_types pos []; cur_local_var_stack_pos = pos }

unfoldable pub has_name : Bytes → VarTypeTableEntry → Bool
has_name name e = equal e.name name

-- `lookupVar`: a name without an entry gets one at the front. Names are interned, so that equal texts
-- are equal pointers.
unfoldable pub lookup_var : VarTypeTable → Bytes → VarTypeTable
lookup_var table name = elim (find_first (has_name name) table) [
  | some k ↦ table
  | none ↦ record { name = name; type_name = none; type_id = none } ∷ table
]

-- The type that a declaration gives the first entry of a name.
unfoldable pub set_type : VarTypeTable → Bytes → Bytes × Option ℕ → VarTypeTable
set_type [] name ty = []
set_type (e ∷ es) name ty =
    let rest = set_type es name ty in
    if has_name name e then record e { type_name = some ty.0; type_id = ty.1 } ∷ es else e ∷ rest

abbrev pub with_type : VarTypeTable → Bytes → Option (Bytes × Option ℕ) → VarTypeTable
with_type table name none = table
with_type table name (some ty) = set_type table name ty

unfoldable pub noted : Bytes → Option (Bytes × Option ℕ) → VarTypeTable → VarTypeTable
noted name ty table = with_type (lookup_var table name) name ty

-- A name with a sigil of the globals.
unfoldable pub is_global : Bytes → Bool
is_global name = get_or name 0 0 == b'$'

-- The table of the innermost context, which lies below the stack's top.
unfoldable pub note_local : VarScopes → (VarTypeTable → VarTypeTable) → VarScopes
note_local s f =
    let pos = s.cur_local_var_stack_pos - 1 in
    record s { local_var_types = set s.local_var_types pos (f (get_or s.local_var_types pos [])) }

-- `getVarInfo`, with the type's name and the number that `precompileType` gave it, if there is one.
-- `none` is the failed assertion "Bad variable type stack".
unfoldable pub get_var_info : VarScopes → Bytes → Option (Bytes × Option ℕ) → Option VarScopes
get_var_info s name ty =
    if is_global name
    then some (record s { global_var_types = noted name ty s.global_var_types })
    else if s.cur_local_var_stack_pos == 0
    then none
    else some (note_local s (noted name ty))
