-- ===== src/Compiler/StringTable/Build.antt =====
-- engine/console/compiler.cc, `CompilerStringTable`: lemmas on the buffer that `build` makes.
use korkscript.Prelude.{
  Bool, Bytes, Holds, Holds-put_bytes, List, Option, [], arith, drop, drop_cons, equal, equal_fold,
  false, inl, inr, length, length-append, length-put_bytes, none, put_bytes, put_bytes-Holds, refl,
  some, true, ℕ, ◌++◌, ◌+◌, ◌∷◌, ◌≡◌, ◌≤◌, ◌⊎◌,
}
use korkscript.Compiler.StringTable.{
  CString, CompilerStringTable, Entry, add, add_found, build, build_loop, c_memory, c_text,
  entry_len, find_entry, same_text,
}
use korkscript.Compiler.StringTable.Layout.{
  Fits, IsLaidOut, IsText, LaidOut, LaidOut-le, append_entry_lem, c_text-take, entry_len-bound,
  new_entry,
}

-- The terminated text of an entry.
abbrev terminated : Entry → Bytes
terminated e = c_text e.string ++ 0 ∷ []

length-terminated : (e : Entry) → length (terminated e) ≡ length (c_text e.string) + 1
length-terminated e = length-append (c_text e.string) (0 ∷ [])

build_loop-Holds_before :
    (es : List Entry) (pos n j : ℕ) (bs buf : Bytes)
    → LaidOut pos es n
    → j + length bs ≤ pos
    → Holds buf j bs
    → Holds (build_loop es buf) j bs
unfolding build_loop
build_loop-Holds_before [] pos n j bs buf l h k = k
build_loop-Holds_before (e ∷ es) pos n j bs buf l h k =
    build_loop-Holds_before es (pos + e.len) n j bs (put_bytes (terminated e) e.start buf) l.2
      (omega arith) (Holds-put_bytes bs (terminated e) e.start j buf (omega arith) k)

-- Every entry's text is in the buffer.
abbrev Written : Bytes → List Entry → Type 0
Written buf [] = Unit
Written buf (e ∷ es) = Holds buf e.start (terminated e) × Written buf es

build_loop-Written :
    (es : List Entry) (pos n : ℕ) (buf : Bytes)
    → LaidOut pos es n
    → n ≤ length buf
    → Written (build_loop es buf) es
unfolding build_loop
build_loop-Written [] pos n buf l h = tt
build_loop-Written (e ∷ es) pos n buf l h =
    let next = put_bytes (terminated e) e.start buf in
    let room : e.start + length (terminated e) ≤ pos + e.len =
      omega (arith, length-terminated e, l.1.ends, l.0) in
    let fits : e.start + length (terminated e) ≤ length buf =
      omega (arith, room, LaidOut-le (pos + e.len) es n l.2) in
    (
      build_loop-Holds_before es (pos + e.len) n e.start (terminated e) next l.2 room
          (put_bytes-Holds (terminated e) e.start buf fits),
      build_loop-Written es (pos + e.len) n next l.2
          (omega (arith, length-put_bytes (terminated e) e.start buf)),
    )

-- A terminated text that the buffer holds is read back.
pub c_text-Holds :
    (s buf : Bytes) (i : ℕ) → IsText s → Holds buf i (s ++ 0 ∷ []) → c_text (drop i buf) ≡ s
unfolding c_text
c_text-Holds [] buf i t h = rw (drop_cons i 0 buf h.0, c_text)
c_text-Holds (c ∷ s) buf i t h =
    ground (arith, drop_cons i c buf h.0, c_text-Holds s buf (i + 1) t.1 h.1)

c_text-IsText : (s : Bytes) → IsText (c_text s)
unfolding c_text
c_text-IsText [] = tt
c_text-IsText (c ∷ s) = ground (arith, c_text-IsText s)

-- The text at an offset of the built buffer.
abbrev pub text_at : CompilerStringTable → Bytes → ℕ → Bytes
text_at t fresh o = c_text (drop o (build t fresh))

-- Some entry of the list starts at this offset with this text.
abbrev pub HasText : List Entry → ℕ → Bytes → Type 0
HasText [] o s = ⊥
HasText (e ∷ es) o s = ((e.start ≡ o) × (c_text e.string ≡ s)) ⊎ HasText es o s

Written-HasText :
    (es : List Entry) (o : ℕ) (s buf : Bytes)
    → Written buf es
    → HasText es o s
    → c_text (drop o buf) ≡ s
Written-HasText (e ∷ es) o s buf w (inl (p, q)) =
    rw (← p, ← q) (c_text-Holds (c_text e.string) buf e.start (c_text-IsText e.string) w.0)
Written-HasText (e ∷ es) o s buf w (inr h) = Written-HasText es o s buf w.1 h
Written-HasText [] o s buf w h = elim h [ ]

pub text_at-HasText :
    (t : CompilerStringTable) (fresh : Bytes) (o : ℕ) (s : Bytes)
    → IsLaidOut t
    → t.total_len ≤ length fresh
    → HasText t.list o s
    → text_at t fresh o ≡ s
unfolding build
text_at-HasText t fresh o s v h k =
    Written-HasText t.list o s _ (build_loop-Written t.list 0 t.total_len fresh v h) k

pub HasText-append :
    (es fs : List Entry) (o : ℕ) (s : Bytes) → HasText es o s → HasText (es ++ fs) o s
HasText-append [] fs o s h = elim h [ ]
HasText-append (e ∷ es) fs o s (inl h) = inl h
HasText-append (e ∷ es) fs o s (inr h) = inr (HasText-append es fs o s h)

HasText-concat :
    (es : List Entry) (e : Entry) (s : Bytes)
    → c_text e.string ≡ s
    → HasText (es ++ e ∷ []) e.start s
HasText-concat [] e s h = inl (refl, h)
HasText-concat (x ∷ es) e s h = inr (HasText-concat es e s h)

-- What the walk finds is an entry with an equal text.
find_entry_lem :
    (es : List Entry) (str : Bytes) (case_sens tag : Bool) {e : Entry}
    → find_entry es str case_sens tag ≡ some e
    → HasText es e.start (c_text e.string) × (same_text case_sens (c_text e.string) str ≡ true)
unfolding find_entry
find_entry_lem [] str case_sens tag h = absurd (ground arith)
find_entry_lem (x ∷ es) str case_sens tag {e} h =
    ground (arith, find_entry_lem es str case_sens tag {e = e})

equal_refl : (s : Bytes) → equal s s ≡ true
unfolding equal
equal_refl [] = refl
equal_refl (c ∷ s) = ground (arith, equal_refl s)

equal_fold_refl : (s : Bytes) → equal_fold s s ≡ true
unfolding equal_fold
equal_fold_refl [] = refl
equal_fold_refl (c ∷ s) = ground (arith, equal_fold_refl s)

same_text_refl : (case_sens : Bool) (s : Bytes) → same_text case_sens s s ≡ true
unfolding same_text
same_text_refl true s = equal_refl s
same_text_refl false s = equal_fold_refl s

-- What `add` returns is the offset of an entry whose text is equal to the argument's.
pub add-HasText :
    (t u : CompilerStringTable) (s : CString) (case_sens tag : Bool) (o : ℕ)
    → IsText s.text
    → Fits t s tag
    → add t s case_sens tag ≡ some (u, o)
    → (str : Bytes) × HasText u.list o str × (same_text case_sens str s.text ≡ true)
unfolding add
add-HasText t u s case_sens tag o text f h = found (find_entry t.list s.text case_sens tag) refl h
  where
    found :
        (r : Option Entry)
        → find_entry t.list s.text case_sens tag ≡ r
        → add_found t s tag r ≡ some (u, o)
        → (str : Bytes) × HasText u.list o str × (same_text case_sens str s.text ≡ true)
    found none e k =
        let (room, list, total, off) = append_entry_lem t u s tag f k in
        let reads =
          c_text-take (entry_len s.text tag) s.text s.behind text (entry_len-bound s.text tag) in
        (
          s.text,
          rw (list, off)
              (HasText-concat t.list (new_entry t s tag) s.text (unfold c_memory in reads)),
          same_text_refl case_sens s.text,
        )
    found (some e) q k =
        let (has, same) = find_entry_lem t.list s.text case_sens tag q in
        let table : t ≡ u = ground arith in
        let place : e.start ≡ o = ground arith in (c_text e.string, rw (← table, ← place) has, same)
