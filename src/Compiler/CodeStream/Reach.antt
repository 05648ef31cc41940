-- ===== src/Compiler/CodeStream/Reach.antt =====
-- engine/console/compiler.h, `CodeStream`: the states that calls of its operations lead to.
use korkscript.Prelude.{Bool, List, Option, [], ap, arith, length, refl, some, ℕ, ◌<◌, ◌∷◌, ◌≡◌}
use korkscript.Compiler.CodeStream.{
  CodeData, CodeStream, FixType, add_break_line, add_func_call, code_stream, emit, emit_code_stream,
  emit_fix, emit_ste, fix_loop, oldest_block, patch, pop_fix_scope, pop_return_type,
  pop_switch_scope, push_fix_scope, push_return_type, push_switch_scope, reset,
}
use korkscript.Compiler.CodeStream.Blocks.{Fit, flat}
use korkscript.Compiler.CodeStream.Steps.{
  IsWellFormed, emit_fix-IsWellFormed, emit_words-IsWellFormed, fix_loop-IsWellFormed,
  patch-IsWellFormed, pop_fix_scope-IsWellFormed, push_fix_scope-IsWellFormed,
}

-- The other members of the stream are free.
unchanged :
    {s u : CodeStream}
    → IsWellFormed s
    → u.code ≡ s.code
    → u.code_pos ≡ s.code_pos
    → u.fix_list ≡ s.fix_list
    → u.patch_list ≡ s.patch_list
    → u.fix_stack ≡ s.fix_stack
    → u.fix_loop_stack ≡ s.fix_loop_stack
    → IsWellFormed u
unchanged v a b c d e f = record {
  counted = rw (a, b) v.counted;
  fit = rw a v.fit;
  fixes = rw (b, c) v.fixes;
  patches = rw (b, d) v.patches;
  scopes = rw (c, e) v.scopes;
  same_depth = rw (e, f) v.same_depth;
}

code_stream-IsWellFormed : IsWellFormed code_stream
unfolding code_stream
code_stream-IsWellFormed = record {
  counted = refl;
  fit = tt;
  fixes = tt;
  patches = tt;
  scopes = tt;
  same_depth = refl;
}

oldest_block-flat : (bs : List CodeData) → (flat (oldest_block bs) ≡ []) × Fit (oldest_block bs)
oldest_block-flat [] = (refl, tt)
oldest_block-flat (b ∷ bs) = (refl, (omega arith, tt))

-- A stream that was reset, where no patch was left.
reset-IsWellFormed : (s : CodeStream) → s.patch_list ≡ [] → IsWellFormed (reset s)
unfolding reset
reset-IsWellFormed s e = record {
  counted = ap length (oldest_block-flat s.code).0;
  fit = (oldest_block-flat s.code).1;
  fixes = tt;
  patches = rw e tt;
  scopes = tt;
  same_depth = refl;
}

-- One call of an operation, by its effect on the stream. A patch names a word that is there, and
-- `reset`, which forgets the words and keeps the patches, comes only where there are no patches.
pub data Step (s : CodeStream) : CodeStream → Type 0 where
  emits : (word : ℕ) → Step s (emit s word).0
  emits_ste : (index : ℕ) → Step s (emit_ste s index).0
  emits_fix : (type : FixType) → Step s (emit_fix s type).0
  patches : (addr word : ℕ) → addr < s.code_pos → Step s (patch s addr word)
  pushes_fix : (is_loop : Bool) → Step s (push_fix_scope s is_loop)
  pops_fix : (u : CodeStream) → pop_fix_scope s ≡ some u → Step s u
  fixes_loop : (start brk cont : ℕ) (u : CodeStream) → fix_loop s start brk cont ≡ some u → Step s u
  pushes_switch : Step s (push_switch_scope s)
  pops_switch : (u : CodeStream) → pop_switch_scope s ≡ some u → Step s u
  breaks_line : (line ip : ℕ) → Step s (add_break_line s line ip)
  pushes_return : (type : Option ℕ) → Step s (push_return_type s type)
  pops_return : Step s (pop_return_type s)
  calls : Step s (add_func_call s).0
  hands_out : Step s (emit_code_stream s).0
  resets : s.patch_list ≡ [] → Step s (reset s)

-- The streams that calls of the operations lead to from a fresh one.
pub data Reach : CodeStream → Type 0 where
  fresh : Reach code_stream
  next : {s u : CodeStream} → Reach s → Step s u → Reach u

Step-IsWellFormed : {s u : CodeStream} → Step s u → IsWellFormed s → IsWellFormed u
unfolding emit emit_ste push_switch_scope pop_switch_scope add_break_line push_return_type
    pop_return_type add_func_call emit_code_stream
Step-IsWellFormed {s} (emits word) v = emit_words-IsWellFormed s (word ∷ []) (omega arith) v
Step-IsWellFormed {s} (emits_ste index) v =
    emit_words-IsWellFormed s (index ∷ 0 ∷ []) (omega arith) v
Step-IsWellFormed {s} (emits_fix type) v = emit_fix-IsWellFormed s type v
Step-IsWellFormed {s} (patches addr word h) v = patch-IsWellFormed s addr word h v
Step-IsWellFormed {s} (pushes_fix is_loop) v = push_fix_scope-IsWellFormed s is_loop v
Step-IsWellFormed {s} (pops_fix u e) v = pop_fix_scope-IsWellFormed s u v e
Step-IsWellFormed {s} (fixes_loop start brk cont u e) v =
    fix_loop-IsWellFormed s u start brk cont v e
Step-IsWellFormed {s} pushes_switch v = unchanged v refl refl refl refl refl refl
Step-IsWellFormed {s} (pops_switch u e) v =
    unchanged v (ground arith) (ground arith) (ground arith) (ground arith) (ground arith)
      (ground arith)
Step-IsWellFormed {s} (breaks_line line ip) v = unchanged v refl refl refl refl refl refl
Step-IsWellFormed {s} (pushes_return type) v = unchanged v refl refl refl refl refl refl
Step-IsWellFormed {s} pops_return v = unchanged v refl refl refl refl refl refl
Step-IsWellFormed {s} calls v = unchanged v refl refl refl refl refl refl
Step-IsWellFormed {s} hands_out v = unchanged v refl refl refl refl refl refl
Step-IsWellFormed {s} (resets none_left) v = reset-IsWellFormed s none_left

-- From a fresh stream, after any calls of `emit` and the other emitting operations, of `patch` with
-- the address of a word that is there, of the operations on the scopes, the line breaks, the return
-- types and the call count, of `emitCodeStream`, and of `reset` where there are no patches: the
-- blocks hold exactly as many words as were counted, none holds more than its 16384 bytes, all
-- fixes and patches name words that are there, and the scopes nest within the fixes.
pub Reach-IsWellFormed : {s : CodeStream} → Reach s → IsWellFormed s
Reach-IsWellFormed fresh = code_stream-IsWellFormed
Reach-IsWellFormed (next r st) = Step-IsWellFormed st (Reach-IsWellFormed r)
