-- ===== src/Compiler/IdentTable/Linked.antt =====
-- engine/console/compiler.cc, `CompilerIdentTable`: its invariant, and the indices of its
-- entries.
use korkscript.Prelude.{
  Bool, List, Option, Passing, [], ap, arith, false, find_first-Passing, get_elem?,
  get_elem?-append, get_elem?-length, if◌then◌else◌, length, length-append, length-map, map,
  map-append, none, passing, refl, some, suc, sym, true, zero, ℕ, ◌++◌, ◌==◌, ◌∙◌, ◌∷◌, ◌≡◌,
}
use korkscript.Compiler.IdentTable.{
  CompilerIdentTable, FullEntry, add_patch, address_at, find_index, link, no_address_at,
}
use korkscript.Compiler.StringTable.{CString}

abbrev pub non_empty : List FullEntry → Bool
non_empty [] = false
non_empty (e ∷ es) = true

pub record IsLinked (t : CompilerIdentTable) : Type 0 where
  pub counted : t.num_ident_strings ≡ length t.list
  pub tailed : t.has_tail ≡ non_empty t.list

abbrev pub offsets : List FullEntry → List ℕ
offsets es = map (λ e. e.offset) es

-- What the addition of an identifier with this place comes to.
pub record AddsIdent (t u : CompilerIdentTable) (index k : ℕ) : Type 0 where
  pub linked : IsLinked u
  pub kept :
      (i o : ℕ) → get_elem? (offsets t.list) i ≡ some o → get_elem? (offsets u.list) i ≡ some o
  pub found : get_elem? (offsets u.list) k ≡ some index

link-list :
    (t : CompilerIdentTable) (e : FullEntry) → IsLinked t → (link t e).list ≡ t.list ++ e ∷ []
unfolding link
link-list t e v = by_list t.list v.tailed
  where
    by_list :
        (es : List FullEntry)
        → t.has_tail ≡ non_empty es
        → (if t.has_tail then es ++ e ∷ [] else e ∷ []) ≡ es ++ e ∷ []
    by_list [] h = rw h refl
    by_list (x ∷ es) h = rw h refl

non_empty-append : (es : List FullEntry) (e : FullEntry) → non_empty (es ++ e ∷ []) ≡ true
non_empty-append [] e = refl
non_empty-append (x ∷ es) e = refl

link-AddsIdent :
    (t : CompilerIdentTable) (e : FullEntry)
    → IsLinked t
    → AddsIdent t (link t e) e.offset t.num_ident_strings
link-AddsIdent t e v =
    let list = link-list t e v in
    let placed = ap offsets list ∙ map-append (λ x. x.offset) t.list (e ∷ []) in
    let last : t.num_ident_strings ≡ length (offsets t.list) =
      v.counted ∙ sym (length-map t.list (λ x. x.offset)) in
    record {
      linked = record {
        counted = rw list (unfold link in omega (arith, v.counted, length-append t.list (e ∷ [])));
        tailed = rw (list, non_empty-append t.list e) (unfold link in refl);
      };
      kept = λ i o h. rw placed (get_elem?-append (offsets t.list) (e.offset ∷ []) i o h);
      found = rw (placed, last) (get_elem?-length (offsets t.list) e.offset);
    }

offsets-add_patch : (es : List FullEntry) (k ip : ℕ) → offsets (add_patch es k ip) ≡ offsets es
unfolding add_patch
offsets-add_patch [] k ip = refl
offsets-add_patch (e ∷ es) zero ip = refl
offsets-add_patch (e ∷ es) (suc k) ip = ap (λ os. e.offset ∷ os) (offsets-add_patch es k ip)

non_empty-add_patch :
    (es : List FullEntry) (k ip : ℕ) → non_empty (add_patch es k ip) ≡ non_empty es
unfolding add_patch
non_empty-add_patch [] k ip = refl
non_empty-add_patch (e ∷ es) zero ip = refl
non_empty-add_patch (e ∷ es) (suc k) ip = refl

length-add_patch : (es : List FullEntry) (k ip : ℕ) → length (add_patch es k ip) ≡ length es
unfolding add_patch
length-add_patch [] k ip = refl
length-add_patch (e ∷ es) zero ip = refl
length-add_patch (e ∷ es) (suc k) ip = ap suc (length-add_patch es k ip)

offsets-Passing :
    (es : List FullEntry) (index k : ℕ)
    → Passing (λ e. e.offset == index) es k
    → get_elem? (offsets es) k ≡ some index
offsets-Passing [] index k (passing e h p) = absurd (ground arith)
offsets-Passing (x ∷ es) index zero (passing e h p) = ground (arith, h, p)
offsets-Passing (x ∷ es) index (suc k) (passing e h p) = offsets-Passing es index k (passing e h p)

-- Both ways of adding an identifier whose place the string table gave.
pub no_address_at-AddsIdent :
    (t : CompilerIdentTable) (ste : CString) (index : ℕ)
    → IsLinked t
    → let r = no_address_at t ste index (find_index t.list index) in AddsIdent t r.0 index r.1
unfolding find_index
no_address_at-AddsIdent t ste index v = at (find_index t.list index) refl
  where
    at :
        (r : Option ℕ)
        → find_index t.list index ≡ r
        → let q = no_address_at t ste index r in AddsIdent t q.0 index q.1
    at (some k) e = record {
      linked = v;
      kept = λ i o h. h;
      found =
          offsets-Passing t.list index k (find_first-Passing (λ x. x.offset == index) t.list k e);
    }
    at none e = link-AddsIdent t _ v

pub address_at-AddsIdent :
    (t : CompilerIdentTable) (ste : CString) (ip index : ℕ)
    → IsLinked t
    → let r = address_at t ste ip index (find_index t.list index) in AddsIdent t r.0 index r.1
unfolding find_index
address_at-AddsIdent t ste ip index v = at (find_index t.list index) refl
  where
    at :
        (r : Option ℕ)
        → find_index t.list index ≡ r
        → let q = address_at t ste ip index r in AddsIdent t q.0 index q.1
    at (some k) e =
        let same = offsets-add_patch t.list k ip in
        record {
          linked = record {
            counted = v.counted ∙ sym (length-add_patch t.list k ip);
            tailed = v.tailed ∙ sym (non_empty-add_patch t.list k ip);
          };
          kept = λ i o h. rw same h;
          found = rw same (
              offsets-Passing t.list index k
                (find_first-Passing (λ x. x.offset == index) t.list k e));
        }
    at none e = link-AddsIdent t _ v
