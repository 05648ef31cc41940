-- ===== src/CodeBlock/Tests.antt =====
-- engine/console/codeBlock.cc: a small block in a stream.
use korkscript.Prelude.{[], arith, codes, refl, some, u32, ◌++◌, ◌∷◌, ◌≡◌}
use korkscript.CodeBlock.{CodeBlock, put_all, put_u32, put_word, read, write}
use korkscript.CodeBlock.Breaks.{break_list, fill_list}
use korkscript.CodeBlock.Pairs.{lines_of}
use korkscript.CodeBlock.RoundTrip.{IsStorable, read-write}

abbrev small : CodeBlock
small = record {
  global_strings = codes "echo" ++ 0 ∷ [];
  function_strings = [];
  global_floats = 4607182418800017408 ∷ [];
  function_floats = [];
  code = 3 ∷ 254 ∷ 255 ∷ 70000 ∷ [];
  line_breaks = 1 ∷ 1 ∷ [];
  breaks = [];
  ident_string_offsets = 0 ∷ [];
  num_function_calls = 0;
  start_type_strings = 1;
  num_type_strings = 0;
}

small-IsStorable : IsStorable small
small-IsStorable = record {
  global_size = omega arith;
  function_size = omega arith;
  global_float_count = omega arith;
  global_floats = omega arith;
  function_float_count = omega arith;
  function_floats = tt;
  code_size = omega arith;
  code = omega arith;
  pairs = refl;
  pair_count = omega arith;
  line_breaks = omega arith;
  placed = omega arith;
  ident_count = omega arith;
  idents = omega arith;
  calls = omega arith;
  start = omega arith;
  types = omega arith;
}

-- Line 1 comes back with the word of its position, 254 at 1.
read-write_example :
    read 0 (write small)
    ≡ some (
      record small { num_function_calls = 1; line_breaks = 510 ∷ 1 ∷ []; breaks = 0 ∷ 1 ∷ [] },
      [],
    )
unfolding lines_of break_list fill_list u32
read-write_example = read-write small small-IsStorable

-- A word from 0xFF on takes five bytes.
put_word_sizes :
    put_all put_word small.code ≡ 3 ∷ 254 ∷ 255 ∷ 255 ∷ 0 ∷ 0 ∷ 0 ∷ 255 ∷ 112 ∷ 17 ∷ 1 ∷ 0 ∷ []
unfolding put_all put_word put_u32
put_word_sizes = refl
