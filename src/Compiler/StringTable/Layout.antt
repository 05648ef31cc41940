-- ===== src/Compiler/StringTable/Layout.antt =====
-- engine/console/compiler.cc, `CompilerStringTable`: the layout of its entries.
use korkscript.Prelude.{
  Bool, Bytes, List, Option, [], ap, arith, length, length-take, none, refl, some, suc, sym, take,
  u32_lem, zero, ℕ, ◌++◌, ◌+◌, ◌<◌, ◌^◌, ◌∙◌, ◌∷◌, ◌≡◌, ◌≤◌,
}
use korkscript.Compiler.StringTable.{
  CString, CompilerStringTable, Entry, add, add_found, append_entry, c_memory, c_text, entry_len,
  find_entry, read_bytes,
}

-- One entry: all its bytes are there, and its text ends within them.
pub record EntryIsValid (e : Entry) : Type 0 where
  pub all_bytes : length e.string ≡ e.len
  pub ends : length (c_text e.string) < e.len

abbrev pub LaidOut : ℕ → List Entry → ℕ → Type 0
LaidOut pos [] n = pos ≡ n
LaidOut pos (e ∷ es) n = (e.start ≡ pos) × EntryIsValid e × LaidOut (pos + e.len) es n

abbrev pub IsLaidOut : CompilerStringTable → Type 0
IsLaidOut t = LaidOut 0 t.list t.total_len

pub LaidOut-le : (pos : ℕ) (es : List Entry) (n : ℕ) → LaidOut pos es n → pos ≤ n
LaidOut-le pos [] n h = omega arith
LaidOut-le pos (e ∷ es) n h = omega (arith, LaidOut-le (pos + e.len) es n h.2)

-- A text without zeros.
abbrev pub IsText : Bytes → Type 0
IsText [] = Unit
IsText (c ∷ cs) = (0 < c) × IsText cs

-- Reading a C string back gives its text, if enough bytes were copied.
pub c_text-take :
    (n : ℕ) (s rest : Bytes) → IsText s → length s < n → c_text (take n (s ++ 0 ∷ rest)) ≡ s
unfolding c_text
c_text-take zero s rest t h = absurd (omega arith)
c_text-take (suc n) [] rest t h = refl
c_text-take (suc n) (c ∷ s) rest t h = ground (arith, c_text-take n s rest t.1)

c_text-length-take :
    (n : ℕ) (s rest : Bytes) → length s < n → length (c_text (take n (s ++ 0 ∷ rest))) < n
unfolding c_text
c_text-length-take zero s rest h = absurd (omega arith)
c_text-length-take (suc n) [] rest h = omega arith
c_text-length-take (suc n) (c ∷ s) rest h = ground (arith, c_text-length-take n s rest)

pub entry_len-bound : (s : Bytes) (tag : Bool) → length s < entry_len s tag
unfolding entry_len
entry_len-bound s tag = ground arith

abbrev pub new_entry : CompilerStringTable → CString → Bool → Entry
new_entry t s tag = record {
  string = take (entry_len s.text tag) (c_memory s);
  start = t.total_len;
  len = entry_len s.text tag;
  tag = tag;
}

new_entry-EntryIsValid :
    (t : CompilerStringTable) (s : CString) (tag : Bool)
    → entry_len s.text tag ≤ length (c_memory s)
    → EntryIsValid (new_entry t s tag)
unfolding c_memory
new_entry-EntryIsValid t s tag h = record {
  all_bytes = length-take (entry_len s.text tag) (c_memory s) ∙ omega arith;
  ends = c_text-length-take (entry_len s.text tag) s.text s.behind (entry_len-bound s.text tag);
}

LaidOut-concat :
    (pos : ℕ) (es : List Entry) (n : ℕ) (e : Entry)
    → LaidOut pos es n
    → e.start ≡ n
    → EntryIsValid e
    → LaidOut pos (es ++ e ∷ []) (n + e.len)
LaidOut-concat pos [] n e h s v = (s ∙ sym h, v, ap (λ (k : ℕ). k + e.len) h)
LaidOut-concat pos (x ∷ es) n e h s v = (h.0, h.1, LaidOut-concat (pos + x.len) es n e h.2 s v)

-- The table's bytes stay below 2^32 with this text added.
abbrev pub Fits : CompilerStringTable → CString → Bool → Type 0
Fits t s tag = t.total_len + entry_len s.text tag < 2 ^ 32

-- What `append_entry` does when it does not fault.
pub append_entry_lem :
    (t u : CompilerStringTable) (s : CString) (tag : Bool) {o : ℕ}
    → Fits t s tag
    → append_entry t s tag ≡ some (u, o)
    → (entry_len s.text tag ≤ length (c_memory s))
      × (u.list ≡ t.list ++ new_entry t s tag ∷ [])
      × (u.total_len ≡ t.total_len + entry_len s.text tag)
      × (o ≡ t.total_len)
unfolding append_entry read_bytes
append_entry_lem t u s tag f h = ground (arith, u32_lem (t.total_len + entry_len s.text tag))

pub append_entry-IsLaidOut :
    (t u : CompilerStringTable) (s : CString) (tag : Bool) {o : ℕ}
    → IsLaidOut t
    → Fits t s tag
    → append_entry t s tag ≡ some (u, o)
    → IsLaidOut u
append_entry-IsLaidOut t u s tag v f h =
    let (room, list, total, _) = append_entry_lem t u s tag f h in
    rw (list, total)
      (LaidOut-concat 0 t.list t.total_len (new_entry t s tag) v refl
        (new_entry-EntryIsValid t s tag room))

-- `add` keeps the layout, whether it finds the text or appends it.
pub add-IsLaidOut :
    (t u : CompilerStringTable) (s : CString) (case_sens tag : Bool) {o : ℕ}
    → IsLaidOut t
    → Fits t s tag
    → add t s case_sens tag ≡ some (u, o)
    → IsLaidOut u
unfolding add
add-IsLaidOut t u s case_sens tag v f = found (find_entry t.list s.text case_sens tag)
  where
    found : (r : Option Entry) {o : ℕ} → add_found t s tag r ≡ some (u, o) → IsLaidOut u
    found none h = append_entry-IsLaidOut t u s tag v f h
    found (some e) h = ground arith
