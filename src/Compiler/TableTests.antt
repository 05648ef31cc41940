-- ===== src/Compiler/TableTests.antt =====
-- engine/console/compiler.cc: the tables of identifiers, numbers and variables on small inputs.
use korkscript.Prelude.{
  Bytes, [], arith, codes, equal, equal_fold, false, find_first, refl, replicate, some, true, u32,
  ℕ, ◌++◌, ◌==◌, ◌∷◌, ◌≡◌, ◌≢◌,
}
use korkscript.Compiler.FloatTable.{AddsFloat, CompilerFloatTable, add_float, add_float-AddsFloat}
use korkscript.Compiler.IdentTable.{
  CompilerIdentTable, FullEntry, Tables, add_ident, append, compile_ste_to_code, find_index, link,
  with_index,
}
use korkscript.Compiler.IdentTable.Append.{Appended, append-Appended, link-append}
use korkscript.Compiler.IdentTable.Linked.{IsLinked}
use korkscript.Compiler.IdentTable.Names.{code_to_ste-compile_ste_to_code, same, text_of}
use korkscript.Compiler.StringTable.{
  CString, Entry, add, append_entry, c_memory, entry_len, find_entry, read_bytes,
}
use korkscript.Compiler.StringTable.Layout.{Fits, IsText}
use korkscript.Compiler.VarTypes.{
  VarScopes, get_var_info, has_name, is_global, lookup_var, note_local, noted,
  pop_local_var_context, push_local_var_context, set_type,
}
use korkscript.Compiler.VarTypes.Contexts.{
  HasRoom, look_up_all, pop_local_var_context-push_local_var_context,
}

abbrev foo : CString
foo = record { text = codes "Foo"; behind = [] }

abbrev foo_entry : Entry
foo_entry = record { string = codes "Foo" ++ 0 ∷ []; start = 0; len = 4; tag = false }

abbrev no_idents : Tables
no_idents = record {
  idents = record { list = []; has_tail = false; num_ident_strings = 0 };
  strings = record { total_len = 0; list = [] };
}

-- "Foo" named at position 9.
abbrev foo_ident : FullEntry
foo_ident = record { offset = 0; num_instances = 1; patch = 9 ∷ []; ste_name = codes "Foo" }

abbrev foo_idents : CompilerIdentTable
foo_idents = record { list = foo_ident ∷ []; has_tail = true; num_ident_strings = 1 }

abbrev foo_tables : Tables
foo_tables = record {
  idents = foo_idents;
  strings = record { total_len = 4; list = foo_entry ∷ [] };
}

no_idents-IsLinked : IsLinked no_idents.idents
no_idents-IsLinked = record { counted = refl; tailed = refl }

foo_idents-IsLinked : IsLinked foo_idents
foo_idents-IsLinked = record { counted = refl; tailed = refl }

foo-IsText : IsText foo.text
foo-IsText = omega arith

foo-Fits : Fits no_idents.strings foo false
unfolding entry_len
foo-Fits = omega arith

compile_ste_to_code-foo : compile_ste_to_code no_idents (some foo) 9 ≡ some (foo_tables, 1)
unfolding compile_ste_to_code add_ident with_index find_index find_first link add find_entry
    append_entry entry_len read_bytes c_memory u32
compile_ste_to_code-foo = refl

code_to_ste-compile_ste_to_code_example :
    (s : Bytes) × (text_of foo_tables (replicate 4 255) 1 ≡ some s) × (equal_fold s foo.text ≡ true)
code_to_ste-compile_ste_to_code_example =
    code_to_ste-compile_ste_to_code no_idents foo_tables foo_tables foo 9 1 (replicate 4 255) refl
      no_idents-IsLinked foo-IsText foo-Fits compile_ste_to_code-foo same refl

append-Appended_example : Appended foo_idents foo_idents (append foo_idents foo_idents)
append-Appended_example =
    append-Appended foo_idents foo_idents foo_idents-IsLinked foo_idents-IsLinked

abbrev taken_over : CompilerIdentTable
taken_over = record { list = foo_ident ∷ []; has_tail = false; num_ident_strings = 1 }

append-foo_idents : append no_idents.idents foo_idents ≡ some (taken_over, 0)
unfolding append
append-foo_idents = refl

foo_idents-non_empty : foo_idents.list ≢ []
foo_idents-non_empty e = ground arith

link-append_example :
    ((link taken_over foo_ident).list ≡ foo_ident ∷ [])
    × ((link taken_over foo_ident).num_ident_strings ≡ 2)
link-append_example =
    link-append no_idents.idents foo_idents taken_over 0 foo_ident no_idents-IsLinked refl
      foo_idents-non_empty append-foo_idents

abbrev one_number : CompilerFloatTable ℕ
one_number = record { count = 1; list = 7 ∷ [] }

add_float-AddsFloat_example :
    let r = add_float (λ x y. x == y) one_number 7 in AddsFloat (λ x y. x == y) one_number r.0 7 r.1
add_float-AddsFloat_example = add_float-AddsFloat (λ x y. x == y) one_number 7 refl

abbrev no_vars : VarScopes
no_vars = record {
  global_var_types = [];
  local_var_types = [] ∷ [] ∷ [] ∷ [];
  cur_local_var_stack_pos = 0;
}

abbrev in_context : VarScopes
in_context = record {
  global_var_types = [];
  local_var_types =
      (record { name = codes "%x"; type_name = some (codes "int"); type_id = some 3 } ∷ [])
      ∷ []
      ∷ []
      ∷ [];
  cur_local_var_stack_pos = 1;
}

no_vars-HasRoom : HasRoom no_vars
no_vars-HasRoom = record { room = omega arith; clear = refl }

look_up_all-no_vars :
    look_up_all (push_local_var_context no_vars) ((codes "%x", some (codes "int", some 3)) ∷ [])
    ≡ some in_context
unfolding push_local_var_context get_var_info is_global note_local noted lookup_var has_name
    find_first set_type equal
look_up_all-no_vars = refl

pop_local_var_context-push_local_var_context_example :
    ((pop_local_var_context in_context).local_var_types ≡ no_vars.local_var_types)
    × ((pop_local_var_context in_context).cur_local_var_stack_pos ≡ 0)
pop_local_var_context-push_local_var_context_example =
    pop_local_var_context-push_local_var_context no_vars in_context
      ((codes "%x", some (codes "int", some 3)) ∷ []) no_vars-HasRoom look_up_all-no_vars
