-- ===== src/Compiler/Tests.antt =====
-- engine/console/compiler.cc: the string table and the code stream on small inputs.
use korkscript.Prelude.{
  List, [], arith, codes, drop, equal, false, get_elem?, length, refl, replicate, some, true, u32,
  ◌++◌, ◌∷◌, ◌≡◌,
}
use korkscript.Compiler.CodeStream.{
  CodeStream, PatchEntry, add_break_line, alloc_code, break, code_stream, emit, emit_code_stream,
  emit_fix, emit_words, fix_all, fix_code, fix_loop, fixed_ip, get_num_line_breaks, patch,
  pop_fix_scope, push_fix_scope,
}
use korkscript.Compiler.CodeStream.Fixes.{close_loop, close_loop-targets}
use korkscript.Compiler.CodeStream.Patches.{emit_code_stream-patched, in_pairs}
use korkscript.Compiler.CodeStream.Reach.{
  Reach, Reach-IsWellFormed, breaks_line, emits, emits_fix, fixes_loop, fresh, next, pops_fix,
  pushes_fix,
}
use korkscript.Compiler.CodeStream.Steps.{IsWellFormed}
use korkscript.Compiler.StringTable.{
  CString, CompilerStringTable, Entry, add, append_entry, c_memory, c_text, entry_len, find_entry,
  read_bytes, reset, same_text,
}
use korkscript.Compiler.StringTable.Build.{text_at}
use korkscript.Compiler.StringTable.Layout.{Fits, IsLaidOut, IsText, add-IsLaidOut}
use korkscript.Compiler.StringTable.Stable.{grown, text_at-add, unchanged}

abbrev bye : CString
bye = record { text = codes "bye"; behind = [] }

abbrev hi : CString
hi = record { text = codes "Hi"; behind = codes "!" }

abbrev hi_entry : Entry
hi_entry = record { string = codes "Hi" ++ 0 ∷ []; start = 0; len = 3; tag = false }

abbrev bye_entry : Entry
bye_entry = record { string = codes "bye" ++ 0 ∷ []; start = 3; len = 4; tag = false }

abbrev one_text : CompilerStringTable
one_text = record { total_len = 3; list = hi_entry ∷ [] }

abbrev two_texts : CompilerStringTable
two_texts = record { total_len = 7; list = hi_entry ∷ bye_entry ∷ [] }

reset-IsLaidOut : IsLaidOut reset
unfolding reset
reset-IsLaidOut = refl

hi-IsText : IsText hi.text
hi-IsText = omega arith

bye-IsText : IsText bye.text
bye-IsText = omega arith

hi-Fits : Fits reset hi false
unfolding reset entry_len
hi-Fits = omega arith

bye-Fits : Fits one_text bye false
unfolding entry_len
bye-Fits = omega arith

add-hi : add reset hi false false ≡ some (one_text, 0)
unfolding add reset find_entry append_entry entry_len read_bytes c_memory u32
add-hi = refl

add-bye : add one_text bye true false ≡ some (two_texts, 3)
unfolding add find_entry same_text append_entry entry_len read_bytes c_memory u32 c_text equal
    mathlib.Core.Bool.xor
add-bye = refl

-- A table that grew by one text still gives the first one back.
text_at-add_example : same_text false (text_at two_texts (replicate 7 255) 0) hi.text ≡ true
text_at-add_example =
    text_at-add reset one_text two_texts hi false false 0 (replicate 7 255) reset-IsLaidOut
      hi-IsText hi-Fits add-hi (grown bye true false 3 unchanged bye-Fits add-bye) refl

add-IsLaidOut_example : IsLaidOut two_texts
add-IsLaidOut_example =
    add-IsLaidOut one_text two_texts bye true false
      (add-IsLaidOut reset one_text hi false false reset-IsLaidOut hi-Fits add-hi) bye-Fits add-bye

-- A loop with a break: the scope, the jump with its fix, and the end.
abbrev opened : CodeStream
opened = push_fix_scope code_stream true

abbrev jumped : CodeStream
jumped = (emit_fix (emit opened 7).0 break).0

abbrev loop_patches : List PatchEntry
loop_patches = record { addr = 1; value = 2 } ∷ []

abbrev looped : CodeStream
looped = record {
  code = record { words = 7 ∷ 1 ∷ [] } ∷ [];
  code_pos = 2;
  fix_list = [];
  fix_stack = [];
  fix_loop_stack = [];
  switch_scope_depth = 0;
  patch_list = loop_patches;
  return_type_stack = [];
  break_lines = [];
  num_func_calls = 0;
}

close_loop-targets_example : close_loop jumped 0 2 0 ≡ some looped
unfolding code_stream push_fix_scope emit emit_words alloc_code emit_fix fix_code fixed_ip
close_loop-targets_example = close_loop-targets jumped [] ((1, break) ∷ []) [] 0 2 0 refl refl

looped-Reach : Reach looped
unfolding code_stream push_fix_scope emit emit_words alloc_code emit_fix fix_code fix_loop fix_all
    patch fixed_ip pop_fix_scope
looped-Reach =
    next
      (next (next (next (next fresh (pushes_fix true)) (emits 7)) (emits_fix break)) (
        fixes_loop 0 2 0
          (record looped {
            fix_list = (1, break) ∷ [];
            fix_stack = 0 ∷ [];
            fix_loop_stack = true ∷ [];
          })
          refl))
      (pops_fix looped refl)

abbrev line_marked : CodeStream
line_marked = add_break_line looped 3 0

emit_code_stream-patched_example :
    let out = (emit_code_stream line_marked).1 in
    (out.size ≡ 2)
    × (length out.stream ≡ 4)
    × (get_elem? out.stream 1 ≡ some 2)
    × (out.num_calls ≡ some 1)
    × (in_pairs (drop out.size out.stream) ≡ (3, 0) ∷ [])
    × (out.asserted ≡ false)
unfolding get_num_line_breaks add_break_line
emit_code_stream-patched_example =
    emit_code_stream-patched line_marked 1 (next looped-Reach (breaks_line 3 0)) (omega arith)
      (omega arith)

Reach-IsWellFormed_example : IsWellFormed looped
Reach-IsWellFormed_example = Reach-IsWellFormed looped-Reach
