-- ===== src/Codegen/Tests.antt =====
-- engine/console/astNodes.cc: statements compiled.
use korkscript.Prelude.{List, Option, [], false, none, refl, some, true, ℕ, ◌∷◌, ◌≡◌}
use korkscript.Codegen.{Codegen, get_preferred_type, int_node}
use korkscript.Codegen.Balanced.{compile_stmt-Balanced}
use korkscript.Codegen.Branches.{Balanced}
use korkscript.Codegen.Nodes.{compile, int_code, load, patch_to, put, put_at, sign_extend}
use korkscript.Codegen.Sample.{empty, naturals}
use korkscript.Codegen.Stmts.{
  Stmt, break_stmt, compile_block, compile_stmt, continue_stmt, followed, if_else, if_else_code,
  jump_out_code, loop_code, loop_stmt, mark_line, no_more, put_fix, return_code, return_operand,
  return_stmt, return_type, test_code,
}
use korkscript.Compiler.CodeStream.{
  add_break_line, alloc_code, any, apply_patches, code_stream, dump_blocks, emit, emit_code_stream,
  emit_fix, emit_words, fix_all, fix_loop, fixed_ip, flat_pairs, get_return_type, in_loop, patch,
  pop_fix_scope, pop_switch_scope, push_fix_scope, push_switch_scope, tell,
}
use korkscript.Compiler.CodeStream.Fixes.{close_loop}

-- while (1) { if (0) break; else continue; return 7; }
abbrev looping : Stmt ℕ
looping = loop_stmt 3 false none (int_node 1) none (
    followed
      (if_else 4 true (int_node 0) (followed (break_stmt 4) no_more)
        (followed (continue_stmt 4) no_more))
      (followed (return_stmt 5 (int_node 7)) no_more))

abbrev compiled : Option (Codegen ℕ × ℕ)
compiled = compile_stmt naturals looping empty 0

abbrev words : Option (Codegen ℕ × ℕ) → List ℕ
words none = []
words (some (g, ip)) = (emit_code_stream g.stream).1.stream

-- The test leads out of the loop, `break` as well, and `continue` to the second test. Behind the code
-- stand the lines.
looping_code :
    words compiled
    ≡ 72 ∷ 1 ∷ 6 ∷ 21 ∷ 72 ∷ 0 ∷ 6 ∷ 12 ∷ 11 ∷ 21 ∷ 11 ∷ 14 ∷ 11 ∷ 17 ∷ 72 ∷ 7 ∷ 15 ∷ 72 ∷ 1 ∷ 8 ∷ 4
      ∷ 3 ∷ 0 ∷ 4 ∷ 4 ∷ 4 ∷ 8 ∷ 4 ∷ 12 ∷ 5 ∷ 14 ∷ []
unfolding compile_stmt compile_block loop_code if_else_code test_code jump_out_code return_code
    return_type return_operand put_fix mark_line compile emit_code_stream int_code load put put_at
    patch_to get_preferred_type sign_extend tell emit emit_words alloc_code patch code_stream
    dump_blocks apply_patches flat_pairs emit_fix add_break_line push_fix_scope pop_fix_scope
    in_loop fix_loop get_return_type pop_switch_scope any push_switch_scope close_loop fix_all
    fixed_ip
looping_code = refl

compile_stmt-Balanced_example : Balanced empty compiled
compile_stmt-Balanced_example =
    compile_stmt-Balanced naturals looping empty 0
      (tt, tt, tt, ((tt, (tt, tt), (tt, tt)), (tt, tt)))
