-- ===== src/CodeBlock/RoundTrip.antt =====
-- engine/console/codeBlock.cc: lemmas on `write` and `read` of a code block.
use korkscript.Prelude.{
  Bool-cases, Bytes, List, [], ap, append-nil, append_assoc, arith, drop, false, if◌then◌else◌, inl,
  inr, leb, length, length-append, ltb, refl, some, sym, take, true, ℕ, ◌%◌, ◌*◌, ◌++◌, ◌+◌, ◌/◌,
  ◌<◌, ◌==◌, ◌^◌, ◌∙◌, ◌∷◌, ◌≡◌,
}
use korkscript.CodeBlock.{
  CodeBlock, Read, calc_break_list, dso_version, end_read, get_block, get_bytes, get_calls, get_f64,
  get_ident, get_list, get_many, get_string, get_u32, get_u8, get_word, put_all, put_f64, put_ident,
  put_u32, put_word, read, sent, write,
}
use korkscript.CodeBlock.Breaks.{break_list, fill_list}
use korkscript.CodeBlock.Marked.{ArePlaced, mark_pairs-with_opcodes, with_opcodes}
use korkscript.CodeBlock.Pairs.{lines_of, mark_pairs}

get_u32-put_u32 : (n : ℕ) (rest : Bytes) → n < 2 ^ 32 → get_u32 (put_u32 n ++ rest) ≡ some (n, rest)
unfolding get_u32 put_u32
get_u32-put_u32 n rest h =
    let back : n % 256
          + 256 * (n / 256 % 256)
          + 65536 * (n / 65536 % 256)
          + 16777216 * (n / 16777216 % 256)
        ≡ n =
      omega arith in
    rw back refl

get_f64-put_f64 : (n : ℕ) (rest : Bytes) → n < 2 ^ 64 → get_f64 (put_f64 n ++ rest) ≡ some (n, rest)
unfolding get_f64 put_f64
get_f64-put_f64 n rest h =
    let lo = n % 4294967296 in
    let hi = n / 4294967296 in
    let back : lo + 4294967296 * hi ≡ n = omega arith in
    rw
      (
        append_assoc (put_u32 lo) (put_u32 hi) rest,
        get_u32-put_u32 lo (put_u32 hi ++ rest) (omega arith),
        get_u32-put_u32 hi rest (omega arith),
        back,
      )
      refl

get_word-put_word :
    (v : ℕ) (rest : Bytes) → v < 2 ^ 32 → get_word (put_word v ++ rest) ≡ some (v, rest)
unfolding get_word put_word get_u8
get_word-put_word v rest h = elim (Bool-cases (ltb v 255)) [
  | inl e ↦ let small : (v == 255) ≡ false = ground arith in rw (e, small) refl
  | inr e ↦ rw e (get_u32-put_u32 v rest h)
]

get_ident-put_ident :
    (n : ℕ) (rest : Bytes) → n < 2 ^ 32 → get_ident (put_ident n ++ rest) ≡ some (n, rest)
unfolding get_ident put_ident get_many
get_ident-put_ident n rest h =
    rw
      (
        append_assoc (put_u32 n) (put_u32 0) rest,
        get_u32-put_u32 n (put_u32 0 ++ rest) h,
        get_u32-put_u32 0 rest (omega arith),
      )
      refl

-- All numbers of a list are below a bound.
abbrev pub AllBelow : ℕ → List ℕ → Type 0
AllBelow m [] = Unit
AllBelow m (x ∷ xs) = (x < m) × AllBelow m xs

get_many-put_all :
    (m : ℕ) (get : Bytes → Read ℕ) (put : ℕ → Bytes)
    → ((n : ℕ) (rest : Bytes) → n < m → get (put n ++ rest) ≡ some (n, rest))
    → (xs : List ℕ) (rest : Bytes) → AllBelow m xs
    → get_many (length xs) get (put_all put xs ++ rest) ≡ some (xs, rest)
unfolding get_many put_all
get_many-put_all m get put one [] rest h = refl
get_many-put_all m get put one (x ∷ xs) rest h =
    rw
      (
        append_assoc (put x) (put_all put xs) rest,
        one x (put_all put xs ++ rest) h.0,
        get_many-put_all m get put one xs rest h.1,
      )
      refl

get_list-put_all :
    (m : ℕ) (get : Bytes → Read ℕ) (put : ℕ → Bytes)
    → ((n : ℕ) (rest : Bytes) → n < m → get (put n ++ rest) ≡ some (n, rest))
    → (xs : List ℕ) (rest : Bytes) → length xs < 2 ^ 32
    → AllBelow m xs
    → get_list get (put_u32 (length xs) ++ (put_all put xs ++ rest)) ≡ some (xs, rest)
unfolding get_list
get_list-put_all m get put one xs rest n h =
    rw (get_u32-put_u32 (length xs) (put_all put xs ++ rest) n)
      (get_many-put_all m get put one xs rest h)

take-append : (xs ys : Bytes) → take (length xs) (xs ++ ys) ≡ xs
take-append [] ys = refl
take-append (x ∷ xs) ys = ap (λ zs. x ∷ zs) (take-append xs ys)

drop-append : (xs ys : Bytes) → drop (length xs) (xs ++ ys) ≡ ys
drop-append [] ys = refl
drop-append (x ∷ xs) ys = drop-append xs ys

get_string_lem :
    (s rest : Bytes)
    → length s < 2 ^ 32
    → get_string (put_u32 (length s) ++ (s ++ rest)) ≡ some (s, rest)
unfolding get_string get_bytes
get_string_lem s rest h =
    let fits : leb (length s) (length (s ++ rest)) ≡ true = ground (arith, length-append s rest) in
    rw (get_u32-put_u32 (length s) (s ++ rest) h, fits, take-append s rest, drop-append s rest) refl

-- A block whose numbers fit their types, and whose break list is made of pairs with
-- positions in the code.
pub record IsStorable (b : CodeBlock) : Type 0 where
  pub global_size : length b.global_strings < 2 ^ 32
  pub function_size : length b.function_strings < 2 ^ 32
  pub global_float_count : length b.global_floats < 2 ^ 32
  pub global_floats : AllBelow (2 ^ 64) b.global_floats
  pub function_float_count : length b.function_floats < 2 ^ 32
  pub function_floats : AllBelow (2 ^ 64) b.function_floats
  pub code_size : length b.code < 2 ^ 32
  pub code : AllBelow (2 ^ 32) b.code
  pub pairs : length b.line_breaks ≡ length b.line_breaks / 2 * 2
  pub pair_count : length b.line_breaks / 2 < 2 ^ 32
  pub line_breaks : AllBelow (2 ^ 32) b.line_breaks
  pub placed : ArePlaced (length b.code) b.line_breaks
  pub ident_count : length b.ident_string_offsets < 2 ^ 32
  pub idents : AllBelow (2 ^ 32) b.ident_string_offsets
  pub calls : b.num_function_calls < 2 ^ 32
  pub start : b.start_type_strings < 2 ^ 32
  pub types : b.num_type_strings < 2 ^ 32

get_calls_lem :
    (b : CodeBlock)
    → IsStorable b
    → get_calls dso_version (
        sent (
          put_u32 b.num_function_calls
          ∷ put_u32 b.start_type_strings
          ∷ put_u32 b.num_type_strings
          ∷ []))
      ≡ some (
        (
          if b.num_function_calls == 0 then 1 else b.num_function_calls,
          b.start_type_strings,
          b.num_type_strings,
        ),
        [],
      )
unfolding get_calls
get_calls_lem b v =
    let last = put_u32 b.num_type_strings ++ [] in
    rw
      (
        get_u32-put_u32 b.num_function_calls (put_u32 b.start_type_strings ++ last) v.calls,
        get_u32-put_u32 b.start_type_strings last v.start,
        get_u32-put_u32 b.num_type_strings [] v.types,
      )
      refl

-- A block without breaks.
no_pairs :
    (b : CodeBlock) (xs : List ℕ)
    → b.line_breaks ≡ xs
    → length b.line_breaks ≡ 0
    → Path (Read CodeBlock) (some (record b { breaks = [] }, [])) (
        some (
          record b {
            line_breaks = with_opcodes b.code b.line_breaks;
            breaks = break_list (lines_of b.line_breaks);
          },
          [],
        ))
unfolding break_list fill_list lines_of
no_pairs b [] q z =
    ap (λ zs. some (record b { line_breaks = zs; breaks = [] }, [])) q
    ∙ sym (
        ap
          (λ zs. some (
            record b { line_breaks = with_opcodes b.code zs; breaks = break_list (lines_of zs) },
            [],
          ))
          q)
no_pairs b (x ∷ xs) q z = absurd (omega (arith, ap length q))

-- The end of `read` on a block whose breaks are in its code.
end_read_lem :
    (b : CodeBlock)
    → length b.line_breaks ≡ length b.line_breaks / 2 * 2
    → ArePlaced (length b.code) b.line_breaks
    → end_read (length b.line_breaks / 2) (record b { breaks = [] }) []
      ≡ some (
        record b {
          line_breaks = with_opcodes b.code b.line_breaks;
          breaks = break_list (lines_of b.line_breaks);
        },
        [],
      )
unfolding end_read calc_break_list
end_read_lem b even placed = elim (Bool-cases (length b.line_breaks / 2 == 0)) [
  | inl e ↦
      let none_read : length b.line_breaks / 2 ≡ 0 = ground arith in
      rw e (no_pairs b b.line_breaks refl (omega arith))
  | inr e ↦
      let ws =
        ap (λ zs. mark_pairs (length b.line_breaks / 2) (length zs) (zs ++ b.line_breaks))
          (sym (append-nil b.code))
        ∙ mark_pairs-with_opcodes (length b.line_breaks / 2) b.code [] b.line_breaks even placed
        ∙ ap (λ zs. some (zs ++ with_opcodes b.code b.line_breaks)) (append-nil b.code) in
      rw
        (
          e,
          ws,
          take-append b.code (with_opcodes b.code b.line_breaks),
          drop-append b.code (with_opcodes b.code b.line_breaks),
        )
        refl
]

-- A block that is written and read back is the same block, but for three things: a call count of 0
-- comes back as 1, the lines of the breaks come back compressed, and each line in the pairs comes
-- back shifted by 8 bits with the opcode at its position put into the bits that are free.
pub read-write :
    (b : CodeBlock)
    → IsStorable b
    → read 0 (write b)
      ≡ some (
        record b {
          num_function_calls = if b.num_function_calls == 0 then 1 else b.num_function_calls;
          line_breaks = with_opcodes b.code b.line_breaks;
          breaks = break_list (lines_of b.line_breaks);
        },
        [],
      )
unfolding read write get_block
read-write b v =
    let tail8 = sent (
      put_u32 b.num_function_calls
      ∷ put_u32 b.start_type_strings
      ∷ put_u32 b.num_type_strings
      ∷ []) in
    let tail7 =
      put_u32 (length b.ident_string_offsets)
      ++ (put_all put_ident b.ident_string_offsets ++ tail8) in
    let tail6 = put_all put_u32 b.line_breaks ++ tail7 in
    let tail5 = put_all put_word b.code ++ tail6 in
    let tail4 = put_u32 (length b.code) ++ (put_u32 (length b.line_breaks / 2) ++ tail5) in
    let tail3 =
      put_u32 (length b.function_floats) ++ (put_all put_f64 b.function_floats ++ tail4) in
    let tail2 = put_u32 (length b.global_floats) ++ (put_all put_f64 b.global_floats ++ tail3) in
    let tail1 = put_u32 (length b.function_strings) ++ (b.function_strings ++ tail2) in
    let tail0 = put_u32 (length b.global_strings) ++ (b.global_strings ++ tail1) in
    rw
      (
        get_u32-put_u32 dso_version tail0 (omega arith),
        get_string_lem b.global_strings tail1 v.global_size,
        get_string_lem b.function_strings tail2 v.function_size,
        get_list-put_all (2 ^ 64) get_f64 put_f64 get_f64-put_f64 b.global_floats tail3
            v.global_float_count v.global_floats,
        get_list-put_all (2 ^ 64) get_f64 put_f64 get_f64-put_f64 b.function_floats tail4
            v.function_float_count v.function_floats,
        get_u32-put_u32 (length b.code) (put_u32 (length b.line_breaks / 2) ++ tail5) v.code_size,
        get_u32-put_u32 (length b.line_breaks / 2) tail5 v.pair_count,
        get_many-put_all (2 ^ 32) get_word put_word get_word-put_word b.code tail6 v.code,
        ← v.pairs,
        get_many-put_all (2 ^ 32) get_u32 put_u32 get_u32-put_u32 b.line_breaks tail7 v.line_breaks,
        get_list-put_all (2 ^ 32) get_ident put_ident get_ident-put_ident b.ident_string_offsets
            tail8 v.ident_count v.idents,
        get_calls_lem b v,
      )
      (end_read_lem
        (record b {
          num_function_calls = if b.num_function_calls == 0 then 1 else b.num_function_calls;
        })
        v.pairs v.placed)
