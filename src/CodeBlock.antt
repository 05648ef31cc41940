-- ===== src/CodeBlock.antt =====
-- engine/console/codeBlock.cc: a compiled block in a stream, as `CodeBlock::write` sends it and
-- `CodeBlock::read` takes it back. A stream is its bytes; numbers are little-endian
-- (engine/core/stream.h); an `F64` stands as its 64 bits.
pub mod Breaks
pub mod Pairs
pub mod Marked
pub mod RoundTrip
mod Tests
use korkscript.CodeBlock.Breaks.{break_list}
use korkscript.CodeBlock.Pairs.{lines_of, mark_pairs}
use korkscript.Prelude.{
  Bytes, List, Option, [], drop, if◌then◌else◌, leb, length, ltb, none, some, suc, take, zero, ℕ,
  ◌%◌, ◌*◌, ◌++◌, ◌+◌, ◌/◌, ◌==◌, ◌||◌, ◌∷◌,
}
use korkscript.Codegen.Nodes.{put}

pub record CodeBlock : Type 0 where
  pub global_strings : Bytes
  pub function_strings : Bytes
  pub global_floats : List ℕ
  pub function_floats : List ℕ
  pub code : List ℕ
  -- Line and position of each break; after `calcBreakList` the line stands with the opcode at the
  -- position.
  pub line_breaks : List ℕ
  pub breaks : List ℕ
  pub ident_string_offsets : List ℕ
  pub num_function_calls : ℕ
  pub start_type_strings : ℕ
  pub num_type_strings : ℕ

abbrev pub dso_version : ℕ
dso_version = 78

-- `Stream::write` of a `U32` and of an `F64`.
unfoldable pub put_u32 : ℕ → Bytes
put_u32 n = n % 256 ∷ n / 256 % 256 ∷ n / 65536 % 256 ∷ n / 16777216 % 256 ∷ []

unfoldable pub put_f64 : ℕ → Bytes
put_f64 n = put_u32 (n % 4294967296) ++ put_u32 (n / 4294967296)

-- A word of code: one byte below 0xFF, otherwise 0xFF and the word.
unfoldable pub put_word : ℕ → Bytes
put_word v = if ltb v 255 then v ∷ [] else 255 ∷ put_u32 v

unfoldable pub put_all : (ℕ → Bytes) → List ℕ → Bytes
put_all put [] = []
put_all put (x ∷ xs) = put x ++ put_all put xs

-- An identifier's offset, with no positions to patch.
unfoldable pub put_ident : ℕ → Bytes
put_ident offset = put_u32 offset ++ put_u32 0

-- Several writes, one behind the other.
abbrev pub sent : List Bytes → Bytes
sent [] = []
sent (bs ∷ rest) = bs ++ sent rest

unfoldable pub write : CodeBlock → Bytes
write b = sent (
    put_u32 dso_version
    ∷ put_u32 (length b.global_strings)
    ∷ b.global_strings
    ∷ put_u32 (length b.function_strings)
    ∷ b.function_strings
    ∷ put_u32 (length b.global_floats)
    ∷ put_all put_f64 b.global_floats
    ∷ put_u32 (length b.function_floats)
    ∷ put_all put_f64 b.function_floats
    ∷ put_u32 (length b.code)
    ∷ put_u32 (length b.line_breaks / 2)
    ∷ put_all put_word b.code
    ∷ put_all put_u32 b.line_breaks
    ∷ put_u32 (length b.ident_string_offsets)
    ∷ put_all put_ident b.ident_string_offsets
    ∷ put_u32 b.num_function_calls
    ∷ put_u32 b.start_type_strings
    ∷ put_u32 b.num_type_strings
    ∷ [])

-- What a read leaves of the stream; `none` is a stream that is too short or is refused, or one with
-- a break at a position outside of the code and the pairs, which the program reads all the same.
abbrev pub Read : Type 0 → Type 0
Read A = Option (A × Bytes)

abbrev pub and_then : {A B : Type 0} → Read A → (A → Bytes → Read B) → Read B
and_then none f = none
and_then (some (a, rest)) f = f a rest

unfoldable pub get_u8 : Bytes → Read ℕ
get_u8 [] = none
get_u8 (a ∷ st) = some (a, st)

unfoldable pub get_u32 : Bytes → Read ℕ
get_u32 (a ∷ b ∷ c ∷ d ∷ st) = some (a + 256 * b + 65536 * c + 16777216 * d, st)
get_u32 _ = none

unfoldable pub get_f64 : Bytes → Read ℕ
get_f64 st =
    and_then (get_u32 st)
      (λ lo st. and_then (get_u32 st) (λ hi st. some (lo + 4294967296 * hi, st)))

unfoldable pub get_bytes : ℕ → Bytes → Read Bytes
get_bytes n st = if leb n (length st) then some (take n st, drop n st) else none

unfoldable pub get_many : ℕ → (Bytes → Read ℕ) → Bytes → Read (List ℕ)
get_many zero get st = some ([], st)
get_many (suc n) get st =
    and_then (get st) (λ x st. and_then (get_many n get st) (λ xs st. some (x ∷ xs, st)))

unfoldable pub get_word : Bytes → Read ℕ
get_word st = and_then (get_u8 st) (λ b st. if b == 255 then get_u32 st else some (b, st))

-- An identifier's offset; the positions behind it are not used any more.
unfoldable pub get_ident : Bytes → Read ℕ
get_ident st = and_then (get_u32 st) (λ offset st.
    and_then (get_u32 st)
      (λ count st. and_then (get_many count get_u32 st) (λ ips st. some (offset, st))))

-- A length and as many bytes or numbers.
unfoldable pub get_string : Bytes → Read Bytes
get_string st = and_then (get_u32 st) get_bytes

unfoldable pub get_list : (Bytes → Read ℕ) → Bytes → Read (List ℕ)
get_list get st = and_then (get_u32 st) (λ n st. get_many n get st)

-- The fields behind the identifiers, which version 77 does not have.
unfoldable pub get_calls : ℕ → Bytes → Read (ℕ × ℕ × ℕ)
get_calls version st =
    let newer = and_then (get_u32 st) (λ calls st. and_then (get_u32 st) (λ start st.
      and_then (get_u32 st) (λ n st. some ((if calls == 0 then 1 else calls, start, n), st)))) in
    if ltb 77 version then newer else some ((1, 0, 0), st)

-- `calcBreakList`, without the debugger's part in it: the compressed lines, and the pairs with the
-- opcodes of their positions.
abbrev pub with_marks : CodeBlock → Option (List ℕ) → Option CodeBlock
with_marks b none = none
with_marks b (some words) = some (record b {
  code = take (length b.code) words;
  line_breaks = drop (length b.code) words;
  breaks = break_list (lines_of b.line_breaks);
})

unfoldable pub calc_break_list : ℕ → CodeBlock → Option CodeBlock
calc_break_list pairs b = with_marks b (mark_pairs pairs (length b.code) (b.code ++ b.line_breaks))

abbrev pub with_rest : Option CodeBlock → Bytes → Read CodeBlock
with_rest none st = none
with_rest (some b) st = some (b, st)

-- The end of `read`, for the number of pairs that was read; `linkTypes` is left out.
unfoldable pub end_read : ℕ → CodeBlock → Bytes → Read CodeBlock
end_read pairs b st = if pairs == 0 then some (b, st) else with_rest (calc_break_list pairs b) st

unfoldable pub get_block : ℕ → Bytes → Read CodeBlock
get_block version st = and_then (get_string st) (λ globals st.
    and_then (get_string st) (λ locals st. and_then (get_list get_f64 st) (λ global_floats st.
      and_then (get_list get_f64 st) (λ function_floats st. and_then (get_u32 st) (λ code_size st.
        and_then (get_u32 st) (λ pairs st. and_then (get_many code_size get_word st) (λ code st.
          and_then (get_many (pairs * 2) get_u32 st) (λ breaks st.
            and_then (get_list get_ident st) (λ idents st.
              and_then (get_calls version st) (λ calls st.
                end_read pairs
                  (record {
                    global_strings = globals;
                    function_strings = locals;
                    global_floats = global_floats;
                    function_floats = function_floats;
                    code = code;
                    line_breaks = breaks;
                    breaks = [];
                    ident_string_offsets = idents;
                    num_function_calls = calls.0;
                    start_type_strings = calls.1;
                    num_type_strings = calls.2;
                  })
                  st))))))))))

-- `read`; the version is the stream's first word when none is given (0).
unfoldable pub read : ℕ → Bytes → Read CodeBlock
read read_version st =
    if read_version == 0
    then and_then (get_u32 st)
        (λ version st. if version == dso_version then get_block version st else none)
    else if ltb read_version 77 || ltb dso_version read_version
    then none
    else get_block read_version st
