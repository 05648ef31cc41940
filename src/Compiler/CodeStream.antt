-- ===== src/Compiler/CodeStream.antt =====
-- engine/console/compiler.h and compiler.cc: `CodeStream`, which collects the words of a code block,
-- the jumps to be fixed and the line breaks. A word is a `U32`; positions do not wrap.
pub mod Blocks
pub mod Steps
pub mod Reach
pub mod Patches
pub mod Fixes
use korkscript.Prelude.{
  Bool, List, Option, [], drop, false, if◌then◌else◌, length, ltb, min, none, reverse, set, some,
  tail, take, true, ℕ, ◌*◌, ◌++◌, ◌+◌, ◌-◌, ◌||◌, ◌∷◌,
}

pub data FixType : Type 0 where
  loop_block_start break continue : FixType

pub record PatchEntry : Type 0 where
  pub addr : ℕ
  pub value : ℕ

-- A block of at most `BlockSize` bytes, by the words that its callers stored in it.
pub record CodeData : Type 0 where
  pub words : List ℕ

-- `mFixList` holds an address and a type for each fix. The list from `mCode` on is kept newest
-- first, so that `mCodeHead` is its head.
pub record CodeStream : Type 0 where
  pub code : List CodeData
  pub code_pos : ℕ
  pub fix_list : List (ℕ × FixType)
  pub fix_stack : List ℕ
  pub fix_loop_stack : List Bool
  pub switch_scope_depth : ℕ
  pub patch_list : List PatchEntry
  -- A type that is not known, -1, is `none`.
  pub return_type_stack : List (Option ℕ)
  pub break_lines : List (ℕ × ℕ)
  pub num_func_calls : ℕ

unfoldable pub code_stream : CodeStream
code_stream = record {
  code = [];
  code_pos = 0;
  fix_list = [];
  fix_stack = [];
  fix_loop_stack = [];
  switch_scope_depth = 0;
  patch_list = [];
  return_type_stack = [];
  break_lines = [];
  num_func_calls = 0;
}

abbrev pub block_size : ℕ
block_size = 16384

abbrev pub max_calls : ℕ
max_calls = 65535

-- `allocCode(4 * length ws)`, with the words that the caller stores in the space: into the newest
-- block if more bytes are left there than are asked for, otherwise into a new block.
unfoldable pub alloc_code : List CodeData → List ℕ → List CodeData
alloc_code [] ws = record { words = ws } ∷ []
alloc_code (b ∷ bs) ws =
    if ltb (4 * length ws) (block_size - 4 * length b.words)
    then record { words = b.words ++ ws } ∷ bs
    else record { words = ws } ∷ b ∷ bs

-- The words in a new position; the result is where they begin.
unfoldable pub emit_words : CodeStream → List ℕ → CodeStream × ℕ
emit_words s ws =
    (record s { code = alloc_code s.code ws; code_pos = s.code_pos + length ws }, s.code_pos)

unfoldable pub emit : CodeStream → ℕ → CodeStream × ℕ
emit s word = emit_words s (word ∷ [])

unfoldable pub patch : CodeStream → ℕ → ℕ → CodeStream
patch s addr word = record s {
  patch_list = s.patch_list ++ record { addr = addr; value = word } ∷ [];
}

-- `emitSTE`: two words, the first of which `STEtoCode` sets to the given index.
unfoldable pub emit_ste : CodeStream → ℕ → CodeStream × ℕ
emit_ste s index = emit_words s (index ∷ 0 ∷ [])

unfoldable pub tell : CodeStream → ℕ
tell s = s.code_pos

unfoldable pub any : List Bool → Bool
any [] = false
any (b ∷ bs) = b || any bs

unfoldable pub in_loop : CodeStream → Bool
in_loop s = any s.fix_loop_stack

unfoldable pub in_switch : CodeStream → Bool
in_switch s = ltb 0 s.switch_scope_depth

unfoldable pub fix_code : FixType → ℕ
fix_code loop_block_start = 0
fix_code break = 1
fix_code continue = 2

-- A word that is to be patched when the loop is complete.
unfoldable pub emit_fix : CodeStream → FixType → CodeStream × ℕ
emit_fix s type =
    let (u, pos) = emit_words s (fix_code type ∷ []) in
    (record u { fix_list = s.fix_list ++ (pos, type) ∷ [] }, pos)

-- The stacks have their tops at the head.
unfoldable pub push_fix_scope : CodeStream → Bool → CodeStream
push_fix_scope s is_loop = record s {
  fix_stack = length s.fix_list ∷ s.fix_stack;
  fix_loop_stack = is_loop ∷ s.fix_loop_stack;
}

unfoldable pub push_switch_scope : CodeStream → CodeStream
push_switch_scope s = record s { switch_scope_depth = s.switch_scope_depth + 1 }

-- `none` is the failed assertion "Fix stack mismatch".
abbrev pub pop_fix_to : CodeStream → List ℕ → Option CodeStream
pop_fix_to s [] = none
pop_fix_to s (n ∷ ns) = some (record s {
  fix_list = take n s.fix_list;
  fix_stack = ns;
  fix_loop_stack = tail s.fix_loop_stack;
})

unfoldable pub pop_fix_scope : CodeStream → Option CodeStream
pop_fix_scope s = pop_fix_to s s.fix_stack

-- `none` is the failed assertion "Switch stack mismatch".
unfoldable pub pop_switch_scope : CodeStream → Option CodeStream
pop_switch_scope s =
    if ltb 0 s.switch_scope_depth
    then some (record s { switch_scope_depth = s.switch_scope_depth - 1 })
    else none

-- The target of a fix.
unfoldable pub fixed_ip : ℕ → ℕ → ℕ → FixType → ℕ
fixed_ip start brk cont loop_block_start = start
fixed_ip start brk cont break = brk
fixed_ip start brk cont continue = cont

-- The loop of `fixLoop` over the fixes of the innermost scope.
unfoldable pub fix_all : CodeStream → ℕ → ℕ → ℕ → List (ℕ × FixType) → CodeStream
fix_all s start brk cont [] = s
fix_all s start brk cont ((addr, type) ∷ fixes) =
    fix_all (patch s addr (fixed_ip start brk cont type)) start brk cont fixes

abbrev pub fix_from : CodeStream → ℕ → ℕ → ℕ → List ℕ → Option CodeStream
fix_from s start brk cont [] = none
fix_from s start brk cont (n ∷ ns) = some (fix_all s start brk cont (drop n s.fix_list))

-- `none` is the failed assertion "Fix stack mismatch".
unfoldable pub fix_loop : CodeStream → ℕ → ℕ → ℕ → Option CodeStream
fix_loop s start brk cont = fix_from s start brk cont s.fix_stack

unfoldable pub add_break_line : CodeStream → ℕ → ℕ → CodeStream
add_break_line s line ip = record s { break_lines = s.break_lines ++ (line, ip) ∷ [] }

unfoldable pub get_num_line_breaks : CodeStream → ℕ
get_num_line_breaks s = length s.break_lines

unfoldable pub push_return_type : CodeStream → Option ℕ → CodeStream
push_return_type s type = record s { return_type_stack = type ∷ s.return_type_stack }

unfoldable pub pop_return_type : CodeStream → CodeStream
pop_return_type s = record s { return_type_stack = tail s.return_type_stack }

abbrev pub top_type : List (Option ℕ) → Option ℕ
top_type [] = none
top_type (t ∷ ts) = t

-- `none` is -1.
unfoldable pub get_return_type : CodeStream → Option ℕ
get_return_type s = top_type s.return_type_stack

-- The number of a call; 0 when there are too many.
unfoldable pub add_func_call : CodeStream → CodeStream × ℕ
add_func_call s =
    let cn = s.num_func_calls + 1 in
    (record s { num_func_calls = cn }, if ltb max_calls cn then 0 else cn)

-- `memcpy` of the blocks, oldest first, until `n` words are copied.
unfoldable pub dump_blocks : ℕ → List CodeData → List ℕ
dump_blocks n [] = []
dump_blocks n (b ∷ bs) = let k = min (length b.words) n in take k b.words ++ dump_blocks (n - k) bs

-- `(*stream)[e.addr] = e.value` for each patch, in order.
unfoldable pub apply_patches : List PatchEntry → List ℕ → List ℕ
apply_patches [] stream = stream
apply_patches (e ∷ es) stream = apply_patches es (set stream e.addr e.value)

unfoldable pub flat_pairs : List (ℕ × ℕ) → List ℕ
flat_pairs [] = []
flat_pairs ((a, b) ∷ ps) = a ∷ b ∷ flat_pairs ps

-- The outputs of `emitCodeStream`: above 1000 calls its assertion fails (`asserted`), and where the
-- program goes on all the same, it returns early, with no call count and with the patches not applied.
pub record Emitted : Type 0 where
  pub size : ℕ
  pub stream : List ℕ
  pub num_calls : Option ℕ
  pub asserted : Bool

unfoldable pub emit_code_stream : CodeStream → CodeStream × Emitted
emit_code_stream s =
    let raw = dump_blocks s.code_pos (reverse s.code) ++ flat_pairs s.break_lines in
    let calls = s.num_func_calls + 1 in
    (
      record s { num_func_calls = calls },
      if ltb 1000 calls
          then record { size = s.code_pos; stream = raw; num_calls = none; asserted = true }
          else record {
            size = s.code_pos;
            stream = apply_patches s.patch_list raw;
            num_calls = some calls;
            asserted = false;
          },
    )

-- The oldest block stays, empty.
abbrev pub oldest_block : List CodeData → List CodeData
oldest_block [] = []
oldest_block (b ∷ bs) = record { words = [] } ∷ []

-- `reset`: the patches, the switch depth, the return types and the call count stay as they are.
unfoldable pub reset : CodeStream → CodeStream
reset s = record s {
  code = oldest_block s.code;
  code_pos = 0;
  fix_list = [];
  fix_stack = [];
  fix_loop_stack = [];
  break_lines = [];
}
