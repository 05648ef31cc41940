-- ===== src/Execution/Tests.antt =====
-- engine/console/astNodes.cc and compiledEval.cc: expressions compiled and run. The floats are
-- natural numbers here.
use korkscript.Prelude.{List, [], arith, find_first, refl, suc, zero, ℕ, ◌<◌, ◌^◌, ◌∷◌, ◌≡◌}
use korkscript.Codegen.{
  Codegen, ExprNode, can_be_typed, conditional, conversion_op, float_binary, float_node,
  float_operand, get_preferred_type, int_binary, int_node, int_operand, int_unary, op_and_then,
  pchar_excl, pchar_less, pchar_plus, req_float, req_uint, sub_type,
}
use korkscript.Codegen.Nodes.{
  add_number, arith_code, both_sides, compile, conditional_code, convert, emit_stack_conversion,
  float_binary_code, float_code, int_code, int_unary_code, load, logic_code, patch_to, put, put_at,
  sign_extend, unary_integer, unary_operand,
}
use korkscript.Codegen.Sample.{empty, naturals}
use korkscript.Compiler.CodeStream.{
  alloc_code, apply_patches, code_stream, dump_blocks, emit, emit_code_stream, emit_words,
  flat_pairs, patch, tell,
}
use korkscript.Compiler.CodeStream.Reach.{Reach, emits, fresh}
use korkscript.Compiler.FloatTable.{add_float, find_float}
use korkscript.Evaluator.{
  Machine, Outcome, Runs, faulted, float_overflowed, int_overflowed, finished, goes_on, run_opcode,
  step,
}
use korkscript.Execution.{IsNumeric, depth, eval}
use korkscript.Execution.Correct.{compile-Computes}
use korkscript.Execution.Does.{Does, machine}
use korkscript.Execution.Growth.{Grows, IsReady}
use korkscript.Execution.Literal.{AreExact}
use korkscript.Execution.Negation.{Stops, not_float-Stops}
use korkscript.Execution.Opcode.{push}
use korkscript.Execution.Overflow.{Faults, chain, chain-Faults, chain-Grows}
use korkscript.Execution.Program.{emitted-Agrees, run-compile}

abbrev AnyNumber : ℕ → Type 0
AnyNumber n = n < 2 ^ 32

naturals-AreExact : AreExact naturals AnyNumber
naturals-AreExact a b h k e = ground arith

empty-IsReady : IsReady AnyNumber empty
empty-IsReady = record { reach = fresh; counted = refl; literals = tt }

-- `2 < 1 + 3 && (0 ? 7 : 9)`
abbrev sample : ExprNode ℕ
sample =
    int_binary op_and_then
      (int_binary pchar_less (float_node 2) (float_binary pchar_plus (int_node 1) (float_node 3)))
      (conditional (int_node 0) (int_node 7) (int_node 9))

sample-IsNumeric : IsNumeric naturals AnyNumber sample req_uint
unfolding get_preferred_type sub_type sign_extend
sample-IsNumeric =
    ((omega arith, (omega arith, omega arith)), (omega arith, omega arith, omega arith))

sample_value : (eval naturals sample).0 ≡ 9
unfolding eval get_preferred_type sign_extend
sample_value = refl

sample_depth : depth sample ≡ 3
unfolding depth
sample_depth = refl

sample_code :
    (emit_code_stream (compile naturals sample empty 0 req_uint).0.stream).1.stream
    ≡ 73 ∷ 0 ∷ 73 ∷ 1 ∷ 33 ∷ 73 ∷ 2 ∷ 19 ∷ 9 ∷ 20 ∷ 72 ∷ 0 ∷ 6 ∷ 18 ∷ 72 ∷ 7 ∷ 11 ∷ 20 ∷ 72 ∷ 9 ∷ []
unfolding compile emit_code_stream conditional_code float_binary_code both_sides logic_code
    arith_code int_unary_code unary_integer unary_operand int_code float_code load add_number
    add_float find_float find_first put put_at patch_to convert emit_stack_conversion conversion_op
    float_operand int_operand sub_type can_be_typed get_preferred_type sign_extend tell emit
    emit_words alloc_code patch code_stream dump_blocks apply_patches flat_pairs
sample_code = refl

-- The evaluator, round by round.
run : ℕ → List ℕ → List ℕ → Machine ℕ → Outcome ℕ
run zero code table m = goes_on m
run (suc n) code table m = elim (step naturals code table m) [
  | goes_on o ↦ run n code table o
  | finished ↦ finished
  | int_overflowed ↦ int_overflowed
  | float_overflowed ↦ float_overflowed
  | faulted ↦ faulted
]

abbrev sample_words : List ℕ
sample_words =
    73 ∷ 0 ∷ 73 ∷ 1 ∷ 33 ∷ 73 ∷ 2 ∷ 19 ∷ 9 ∷ 20 ∷ 72 ∷ 0 ∷ 6 ∷ 18 ∷ 72 ∷ 7 ∷ 11 ∷ 20 ∷ 72 ∷ 9 ∷ []

sample_runs :
    run 9 sample_words (3 ∷ 1 ∷ 2 ∷ []) (machine 0 ([], [])) ≡ goes_on (machine 20 (9 ∷ [], []))
unfolding run step run_opcode
sample_runs = refl

run-compile_example :
    Runs naturals
      (emit_code_stream (compile naturals sample empty 0 req_uint).0.stream).1.stream
      (korkscript.Compiler.FloatTable.build (compile naturals sample empty 0 req_uint).0.floats)
      (machine 0 ([], []))
      (machine
        (compile naturals sample empty 0 req_uint).0.stream.code_pos
        (push req_uint (eval naturals sample) ([], [])))
unfolding depth code_stream
run-compile_example =
    run-compile naturals AnyNumber sample req_uint empty 0 naturals-AreExact tt sample-IsNumeric
      (omega arith) empty-IsReady (omega arith)

compile-Computes_example :
    Does naturals AnyNumber empty
      (compile naturals sample empty 0 req_uint).0
      (5 ∷ [], 6 ∷ [])
      (push req_uint (eval naturals sample) (5 ∷ [], 6 ∷ []))
    × ((compile naturals sample empty 0 req_uint).1
        ≡ (compile naturals sample empty 0 req_uint).0.stream.code_pos)
unfolding depth
compile-Computes_example =
    compile-Computes naturals AnyNumber sample req_uint naturals-AreExact tt sample-IsNumeric empty
      0 (5 ∷ [], 6 ∷ []) empty-IsReady (omega arith, omega arith)

-- `!2.5`, asked for as a float: the last word is no opcode.
abbrev negated : List ℕ
negated = 73 ∷ 0 ∷ 27 ∷ 133 ∷ []

negated_code :
    (emit_code_stream
      (compile naturals (int_unary pchar_excl (float_node 2)) empty 0 req_float).0.stream).1.stream
    ≡ negated
unfolding compile emit_code_stream conditional_code float_binary_code both_sides logic_code
    arith_code int_unary_code unary_integer unary_operand int_code float_code load add_number
    add_float find_float find_first put put_at patch_to convert emit_stack_conversion conversion_op
    float_operand int_operand sub_type can_be_typed get_preferred_type sign_extend tell emit
    emit_words alloc_code patch code_stream dump_blocks apply_patches flat_pairs
negated_code = refl

abbrev negation : Codegen ℕ
negation = (compile naturals (int_unary pchar_excl (float_node 2)) empty 0 req_float).0

negation-Reach : Reach negation.stream
unfolding compile emit_code_stream conditional_code float_binary_code both_sides logic_code
    arith_code int_unary_code unary_integer unary_operand int_code float_code load add_number
    add_float find_float find_first put put_at patch_to convert emit_stack_conversion conversion_op
    float_operand int_operand sub_type can_be_typed get_preferred_type sign_extend tell emit
    emit_words alloc_code patch code_stream dump_blocks apply_patches flat_pairs
negation-Reach =
    Reach.next (Reach.next (Reach.next (Reach.next fresh (emits 73)) (emits 0)) (emits 27))
      (emits 133)

few_calls : negation.stream.num_func_calls < 1000
unfolding compile emit_code_stream conditional_code float_binary_code both_sides logic_code
    arith_code int_unary_code unary_integer unary_operand int_code float_code load add_number
    add_float find_float find_first put put_at patch_to convert emit_stack_conversion conversion_op
    float_operand int_operand sub_type can_be_typed get_preferred_type sign_extend tell emit
    emit_words alloc_code patch code_stream dump_blocks apply_patches flat_pairs
few_calls = omega arith

not_float-Stops_example :
    Stops naturals AnyNumber
      (emit_code_stream negation.stream).1.stream
      negation.floats.list
      (machine 0 ([], []))
unfolding get_preferred_type depth code_stream
not_float-Stops_example =
    not_float-Stops naturals AnyNumber (float_node 2) empty 0 ([], []) naturals-AreExact
      (omega arith) refl empty-IsReady (omega arith, omega arith)
      (emit_code_stream negation.stream).1.stream negation.floats.list
      (emitted-Agrees negation.stream 0 negation-Reach few_calls) (λ i x k. k)

-- A sum of 12 numbers.
abbrev twelve : Codegen ℕ
twelve = (compile naturals (chain 1 11) empty 0 req_float).0

twelve-Grows : Grows AnyNumber empty twelve
twelve-Grows = chain-Grows naturals AnyNumber 1 11 empty 0 (omega arith)

chain-Faults_example :
    Faults naturals AnyNumber
      (emit_code_stream twelve.stream).1.stream
      twelve.floats.list
      (machine 0 ([], []))
unfolding code_stream
chain-Faults_example =
    chain-Faults naturals AnyNumber 1 11 empty 0 ([], []) naturals-AreExact (omega arith)
      empty-IsReady (omega arith) (omega arith) (emit_code_stream twelve.stream).1.stream
      twelve.floats.list
      (emitted-Agrees twelve.stream 0 (twelve-Grows.ready empty-IsReady).reach
        (omega (arith, twelve-Grows.calls)))
      (λ i x k. k)

eleven_runs :
    run 21
      (emit_code_stream (compile naturals (chain 1 10) empty 0 req_float).0.stream).1.stream
      (1 ∷ [])
      (machine 0 ([], []))
    ≡ goes_on (machine 32 ([], 11 ∷ []))
unfolding run step run_opcode chain compile emit_code_stream conditional_code float_binary_code
    both_sides logic_code arith_code int_unary_code unary_integer unary_operand int_code float_code
    load add_number add_float find_float find_first put put_at patch_to convert
    emit_stack_conversion conversion_op float_operand int_operand sub_type can_be_typed
    get_preferred_type sign_extend tell emit emit_words alloc_code patch code_stream dump_blocks
    apply_patches flat_pairs
eleven_runs = refl
