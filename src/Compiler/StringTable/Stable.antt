-- ===== src/Compiler/StringTable/Stable.antt =====
-- engine/console/compiler.cc, `CompilerStringTable`: offsets and later additions.
use korkscript.Prelude.{Bool, Bytes, Option, arith, length, none, some, true, ℕ, ◌≡◌}
use korkscript.Compiler.StringTable.{
  CString, CompilerStringTable, Entry, add, add_found, find_entry, same_text,
}
use korkscript.Compiler.StringTable.Build.{
  HasText, HasText-append, add-HasText, text_at, text_at-HasText,
}
use korkscript.Compiler.StringTable.Layout.{
  Fits, IsLaidOut, IsText, add-IsLaidOut, append_entry_lem,
}

-- The tables that further calls of `add` may lead to.
pub data Grows (t : CompilerStringTable) : CompilerStringTable → Type 0 where
  unchanged : Grows t t
  grown :
      {u w : CompilerStringTable} (s : CString) (case_sens tag : Bool) (o : ℕ)
      → Grows t u
      → Fits u s tag
      → add u s case_sens tag ≡ some (w, o)
      → Grows t w

add_keeps_text :
    (t u : CompilerStringTable) (s : CString) (case_sens tag : Bool) (o i : ℕ) (str : Bytes)
    → Fits t s tag
    → add t s case_sens tag ≡ some (u, o)
    → HasText t.list i str
    → HasText u.list i str
unfolding add
add_keeps_text t u s case_sens tag o i str f h k = found (find_entry t.list s.text case_sens tag) h
  where
    found : (r : Option Entry) → add_found t s tag r ≡ some (u, o) → HasText u.list i str
    found none e =
        let (room, list, total, off) = append_entry_lem t u s tag f e in
        rw list (HasText-append t.list _ i str k)
    found (some x) e = let table : t ≡ u = ground arith in rw (← table) k

Grows-IsLaidOut : {t u : CompilerStringTable} → IsLaidOut t → Grows t u → IsLaidOut u
Grows-IsLaidOut v unchanged = v
Grows-IsLaidOut v (grown {u} {w} s case_sens tag o g f e) =
    add-IsLaidOut u w s case_sens tag (Grows-IsLaidOut v g) f e

Grows-HasText :
    {t u : CompilerStringTable} (i : ℕ) (str : Bytes)
    → HasText t.list i str
    → Grows t u
    → HasText u.list i str
Grows-HasText i str k unchanged = k
Grows-HasText i str k (grown {u} {w} s case_sens tag o g f e) =
    add_keeps_text u w s case_sens tag o i str f e (Grows-HasText i str k g)

-- The offset that `add` returned for a text still leads to an equal text in the buffer that `build`
-- makes after any further calls of `add`, as long as the table stays below 2^32 bytes. The texts are
-- equal up to the case of letters where the call did not ask for exact comparison.
pub text_at-add :
    (t u w : CompilerStringTable) (s : CString) (case_sens tag : Bool) (o : ℕ) (fresh : Bytes)
    → IsLaidOut t
    → IsText s.text
    → Fits t s tag
    → add t s case_sens tag ≡ some (u, o)
    → Grows u w
    → length fresh ≡ w.total_len
    → same_text case_sens (text_at w fresh o) s.text ≡ true
text_at-add t u w s case_sens tag o fresh v text f h g n =
    let (str, has, same_as) = add-HasText t u s case_sens tag o text f h in
    let laid = Grows-IsLaidOut (add-IsLaidOut t u s case_sens tag v f h) g in
    rw (text_at-HasText w fresh o str laid (omega arith) (Grows-HasText o str has g)) same_as
