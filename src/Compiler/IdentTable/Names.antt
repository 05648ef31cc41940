-- ===== src/Compiler/IdentTable/Names.antt =====
-- engine/console/compiler.cc, `compileSTEtoCode` and `CodeToSTE`: from a word to its text.
use korkscript.Prelude.{
  Bool, Bytes, Option, ap, arith, equal_fold, false, get_elem?, length, none, refl, some,
  some-injective, subst, suc, sym, true, ℕ, ◌∙◌, ◌≡◌,
}
use korkscript.Compiler.IdentTable.{
  CompilerIdentTable, Tables, add_ident, add_no_address, build, code_to_ste, compile_ste_to_code,
  indexed, with_index, word_of,
}
use korkscript.Compiler.IdentTable.Linked.{
  AddsIdent, IsLinked, address_at-AddsIdent, no_address_at-AddsIdent, offsets,
}
use korkscript.Compiler.StringTable.{CString, CompilerStringTable, add, same_text}
use korkscript.Compiler.StringTable.Build.{text_at}
use korkscript.Compiler.StringTable.Layout.{Fits, IsLaidOut, IsText}
use korkscript.Compiler.StringTable.Stable.{Grows, grown, text_at-add, unchanged}

with_index_lem :
    (t u : Tables) (ste : CString) (f : ℕ → CompilerIdentTable × ℕ) (k : ℕ)
    → with_index t ste f ≡ some (u, k)
    → (index : ℕ) × (add t.strings ste false false ≡ some (u.strings, index))
      × (u.idents ≡ (f index).0)
      × (k ≡ (f index).1)
unfolding with_index
with_index_lem t u ste f k h = split (add t.strings ste false false) refl h
  where
    split :
        (r : Option (CompilerStringTable × ℕ))
        → add t.strings ste false false ≡ r
        → indexed f r ≡ some (u, k)
        → (index : ℕ) × (add t.strings ste false false ≡ some (u.strings, index))
          × (u.idents ≡ (f index).0)
          × (k ≡ (f index).1)
    split none e q = absurd (ground arith)
    split (some (strings, index)) e q =
        let p = some-injective _ _ q in
        (
          index,
          e ∙ ap (λ z. some (z.0.strings, index)) p,
          sym (ap (λ z. z.0.idents) p),
          sym (ap (λ z. z.1) p),
        )

-- The tables that further calls may lead to; the string table may also be added to by itself.
pub data Extends (t : Tables) : Tables → Type 0 where
  same : Extends t t
  adds :
      {u w : Tables} (ste : CString) (ip k : ℕ)
      → Extends t u
      → Fits u.strings ste false
      → add_ident u ste ip ≡ some (w, k)
      → Extends t w
  adds_no_address :
      {u w : Tables} (ste : CString) (k : ℕ)
      → Extends t u
      → Fits u.strings ste false
      → add_no_address u ste ≡ some (w, k)
      → Extends t w
  adds_string :
      {u : Tables} (s : CString) (case_sens tag : Bool) (strings : CompilerStringTable) (o : ℕ)
      → Extends t u
      → Fits u.strings s tag
      → add u.strings s case_sens tag ≡ some (strings, o)
      → Extends t (record u { strings = strings })

-- One addition: its place, and what it does to both tables.
pub record OneIdent (t u : Tables) (ste : CString) (k : ℕ) : Type 0 where
  pub index : ℕ
  pub placed : add t.strings ste false false ≡ some (u.strings, index)
  pub added : AddsIdent t.idents u.idents index k

add_ident-OneIdent :
    (t u : Tables) (ste : CString) (ip k : ℕ)
    → IsLinked t.idents
    → add_ident t ste ip ≡ some (u, k)
    → OneIdent t u ste k
unfolding add_ident
add_ident-OneIdent t u ste ip k v h =
    let (index, placed, idents, place) = with_index_lem t u ste _ k h in
    record {
      index = index;
      placed = placed;
      added = rw (idents, place) (address_at-AddsIdent t.idents ste ip index v);
    }

add_no_address-OneIdent :
    (t u : Tables) (ste : CString) (k : ℕ)
    → IsLinked t.idents
    → add_no_address t ste ≡ some (u, k)
    → OneIdent t u ste k
unfolding add_no_address
add_no_address-OneIdent t u ste k v h =
    let (index, placed, idents, place) = with_index_lem t u ste _ k h in
    record {
      index = index;
      placed = placed;
      added = rw (idents, place) (no_address_at-AddsIdent t.idents ste index v);
    }

Extends-IsLinked : {t u : Tables} → IsLinked t.idents → Extends t u → IsLinked u.idents
Extends-IsLinked v same = v
Extends-IsLinked v (adds {u} {w} ste ip k x f e) =
    (add_ident-OneIdent u w ste ip k (Extends-IsLinked v x) e).added.linked
Extends-IsLinked v (adds_no_address {u} {w} ste k x f e) =
    (add_no_address-OneIdent u w ste k (Extends-IsLinked v x) e).added.linked
Extends-IsLinked v (adds_string s c g strings o x f e) = Extends-IsLinked v x

Extends-kept :
    {t u : Tables} (i o : ℕ)
    → IsLinked t.idents
    → Extends t u
    → get_elem? (offsets t.idents.list) i ≡ some o
    → get_elem? (offsets u.idents.list) i ≡ some o
Extends-kept i o v same h = h
Extends-kept i o v (adds {u} {w} ste ip k x f e) h =
    (add_ident-OneIdent u w ste ip k (Extends-IsLinked v x) e).added.kept i o
      (Extends-kept i o v x h)
Extends-kept i o v (adds_no_address {u} {w} ste k x f e) h =
    (add_no_address-OneIdent u w ste k (Extends-IsLinked v x) e).added.kept i o
      (Extends-kept i o v x h)
Extends-kept i o v (adds_string s c g strings p x f e) h = Extends-kept i o v x h

Extends-Grows : {t u : Tables} → IsLinked t.idents → Extends t u → Grows t.strings u.strings
Extends-Grows v same = unchanged
Extends-Grows v (adds {u} {w} ste ip k x f e) =
    let one = add_ident-OneIdent u w ste ip k (Extends-IsLinked v x) e in
    grown ste false false one.index (Extends-Grows v x) f one.placed
Extends-Grows v (adds_no_address {u} {w} ste k x f e) =
    let one = add_no_address-OneIdent u w ste k (Extends-IsLinked v x) e in
    grown ste false false one.index (Extends-Grows v x) f one.placed
Extends-Grows v (adds_string s c g strings p x f e) = grown s c g p (Extends-Grows v x) f e

abbrev pub placed_text : CompilerStringTable → Bytes → Option ℕ → Option Bytes
placed_text t fresh none = none
placed_text t fresh (some o) = some (text_at t fresh o)

-- The text that a word leads to by way of the built tables.
abbrev pub text_of : Tables → Bytes → ℕ → Option Bytes
text_of t fresh word =
    placed_text t.strings fresh (code_to_ste (build t.idents).string_offsets word)

-- The word that `compileSTEtoCode` gave for an identifier leads, by way of `CodeToSTE` on the offsets
-- that `build` makes and of the string buffer, to a text that is equal to the identifier up to the
-- case of letters, after any further additions to both tables, as long as the string table stays
-- below 2^32 bytes.
pub code_to_ste-compile_ste_to_code :
    (t u w : Tables) (ste : CString) (ip word : ℕ) (fresh : Bytes)
    → IsLaidOut t.strings
    → IsLinked t.idents
    → IsText ste.text
    → Fits t.strings ste false
    → compile_ste_to_code t (some ste) ip ≡ some (u, word)
    → Extends u w
    → length fresh ≡ w.strings.total_len
    → (s : Bytes) × (text_of w fresh word ≡ some s) × (equal_fold s ste.text ≡ true)
unfolding compile_ste_to_code code_to_ste build same_text
code_to_ste-compile_ste_to_code t u w ste ip word fresh laid v text fits h x n =
    split (add_ident t ste ip) refl h
  where
    split :
        (r : Option (Tables × ℕ))
        → add_ident t ste ip ≡ r
        → word_of r ≡ some (u, word)
        → (s : Bytes) × (text_of w fresh word ≡ some s) × (equal_fold s ste.text ≡ true)
    split none e q = absurd (ground arith)
    split (some (u', k)) e q =
        let one = add_ident-OneIdent t u' ste ip k v e in
        let ext = subst (λ z. Extends z w) (sym (ap (λ z. z.0) (some-injective _ _ q))) x in
        let next_word : suc k ≡ word = ap (λ z. z.1) (some-injective _ _ q) in
        let offset = Extends-kept k one.index one.added.linked ext one.added.found in
        (
          text_at w.strings fresh one.index,
          rw (← next_word) (ap (placed_text w.strings fresh) offset),
          text_at-add t.strings u'.strings w.strings ste false false one.index fresh laid text fits
              one.placed (Extends-Grows one.added.linked ext) n,
        )
