-- ===== src/Compiler/StringTable.antt =====
-- engine/console/compiler.cc: `CompilerStringTable`. Every text of a code block gets a place in one
-- buffer; equal texts share it.
pub mod Layout
pub mod Build
pub mod Stable
use korkscript.Prelude.{
  Bool, Bytes, List, Option, [], equal, equal_fold, flat_map, if◌then◌else◌, leb, length, ltb, none,
  put_bytes, some, take, u32, xor, ℕ, ◌&&◌, ◌++◌, ◌+◌, ◌==◌, ◌∷◌,
}

-- A C string in memory: its text, and the bytes that happen to lie behind the terminator.
pub record CString : Type 0 where
  pub text : Bytes
  pub behind : Bytes

pub record Entry : Type 0 where
  pub string : Bytes
  pub start : ℕ
  pub len : ℕ
  pub tag : Bool

pub record CompilerStringTable : Type 0 where
  pub total_len : ℕ
  pub list : List Entry

-- The bytes up to the first zero.
unfoldable pub c_text : Bytes → Bytes
c_text [] = []
c_text (c ∷ cs) = if c == 0 then [] else c ∷ c_text cs

-- `reset`, which the constructor amounts to.
unfoldable pub reset : CompilerStringTable
reset = record { total_len = 0; list = [] }

unfoldable pub same_text : Bool → Bytes → Bytes → Bool
same_text case_sens a b = if case_sens then equal a b else equal_fold a b

-- The walk of `add` over the entries with the same tag.
unfoldable pub find_entry : List Entry → Bytes → Bool → Bool → Option Entry
find_entry [] str case_sens tag = none
find_entry (e ∷ es) str case_sens tag =
    if xor e.tag tag
    then find_entry es str case_sens tag
    else if same_text case_sens (c_text e.string) str
    then some e
    else find_entry es str case_sens tag

-- `memcpy(dst, src, n)`; reading beyond the memory that is there is a fault.
unfoldable pub read_bytes : ℕ → Bytes → Option Bytes
read_bytes n mem = if leb n (length mem) then some (take n mem) else none

unfoldable pub c_memory : CString → Bytes
c_memory s = s.text ++ 0 ∷ s.behind

-- The length of a new entry: a numeric tag needs 7 bytes.
unfoldable pub entry_len : Bytes → Bool → ℕ
entry_len str tag = let len = length str + 1 in if tag && ltb len 7 then 7 else len

-- The new entry, at the end of the list; `none` is a read beyond the argument.
unfoldable pub append_entry :
    CompilerStringTable → CString → Bool → Option (CompilerStringTable × ℕ)
append_entry t s tag =
    let len = entry_len s.text tag in
    elim (read_bytes len (c_memory s)) [
      | none ↦ none
      | some bytes ↦ some (
        record {
          total_len = u32 (t.total_len + len);
          list =
              t.list ++ record { string = bytes; start = t.total_len; len = len; tag = tag } ∷ [];
        },
        t.total_len,
      )
    ]

abbrev pub add_found :
    CompilerStringTable → CString → Bool → Option Entry → Option (CompilerStringTable × ℕ)
add_found t s tag (some e) = some (t, e.start)
add_found t s tag none = append_entry t s tag

unfoldable pub add : CompilerStringTable → CString → Bool → Bool → Option (CompilerStringTable × ℕ)
add t s case_sens tag = add_found t s tag (find_entry t.list s.text case_sens tag)

-- The loop of `build` over the buffer that was allocated: `strcpy` stores the text and its
-- terminator.
unfoldable pub build_loop : List Entry → Bytes → Bytes
build_loop [] buf = buf
build_loop (e ∷ es) buf = build_loop es (put_bytes (c_text e.string ++ 0 ∷ []) e.start buf)

-- `build`, into a fresh array whose contents are not set.
unfoldable pub build : CompilerStringTable → Bytes → Bytes
build t fresh = build_loop t.list fresh

-- The bytes that `write` sends behind the total length.
unfoldable pub write : CompilerStringTable → ℕ × Bytes
write t = (t.total_len, flat_map (λ e. e.string) t.list)
