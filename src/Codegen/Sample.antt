-- ===== src/Codegen/Sample.antt =====
-- Numbers to run the compiler of engine/console/astNodes.cc with: the floats are natural numbers.
use korkscript.Prelude.{[], leb, ltb, ℕ, ◌%◌, ◌*◌, ◌+◌, ◌-◌, ◌/◌, ◌==◌, ◌^◌}
use korkscript.Codegen.{Codegen, Numbers}
use korkscript.Compiler.CodeStream.{code_stream}

abbrev pub naturals : Numbers ℕ
naturals = record {
  zero_float = 0;
  from_int = λ n. n;
  to_int = λ n. n;
  to_unsigned = λ n. n % 2 ^ 32;
  eq_float = ◌==◌;
  lt_float = ltb;
  le_float = leb;
  add_float = ◌+◌;
  sub_float = ◌-◌;
  mul_float = ◌*◌;
  div_float = ◌/◌;
  fmod = ◌%◌;
  neg_float = λ n. n;
  shift_right = λ a b. a / 2 ^ b;
  shift_left = λ a b. a * 2 ^ b;
  int_text = λ n. [];
  float_text = λ n. [];
}

abbrev pub empty : Codegen ℕ
empty = record {
  stream = code_stream;
  floats = record { count = 0; list = [] };
  strings = record { total_len = 0; list = [] };
}
