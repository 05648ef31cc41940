-- ===== src/Compiler/IdentTable/Append.antt =====
-- engine/console/compiler.cc, `CompilerIdentTable`: `append` of one table to another.
use korkscript.Prelude.{
  List, Option, [], ap, append-nil, arith, false, if◌then◌else◌, length, length-append, map-append,
  none, refl, some, some-injective, sym, true, ℕ, ◌++◌, ◌+◌, ◌∙◌, ◌∷◌, ◌≡◌, ◌≢◌,
}
use korkscript.Compiler.IdentTable.{CompilerIdentTable, FullEntry, append, append_lists, link}
use korkscript.Compiler.IdentTable.Linked.{IsLinked, non_empty, offsets}

-- What `append` comes to.
abbrev pub Appended :
    CompilerIdentTable → CompilerIdentTable → Option (CompilerIdentTable × ℕ) → Type 0
Appended t other none = ⊥
Appended t other (some (u, n)) =
    (offsets u.list ≡ offsets t.list ++ offsets other.list)
    × (u.num_ident_strings ≡ length u.list)
    × (n ≡ t.num_ident_strings)

-- For two linked tables `append` always comes back, with the identifiers of both tables in order
-- and counted, and returns the index at which those of the other begin.
pub append-Appended :
    (t other : CompilerIdentTable) → IsLinked t → IsLinked other → Appended t other (append t other)
unfolding append
append-Appended t other v w = by_lists t.list other.list refl refl
  where
    by_lists :
        (es fs : List FullEntry)
        → t.list ≡ es
        → other.list ≡ fs
        → Appended t other (append_lists t other es fs)
    by_lists es [] p q = (
      sym (append-nil (offsets t.list)) ∙ ap (λ zs. offsets t.list ++ offsets zs) (sym q),
      v.counted,
      refl,
    )
    by_lists [] (f ∷ fs) p q =
        let both = ap (λ zs. offsets zs ++ offsets other.list) p ∙ ap offsets q in
        (sym both, w.counted ∙ ap length q, sym (v.counted ∙ ap length p))
    by_lists (e ∷ es) (f ∷ fs) p q =
        let tailed : t.has_tail ≡ true = v.tailed ∙ ap non_empty p in
        let both =
          ap (λ zs. offsets zs ++ offsets other.list) p
          ∙ ap (λ zs. offsets (e ∷ es) ++ offsets zs) q
          ∙ sym (map-append (λ x. x.offset) (e ∷ es) (f ∷ fs)) in
        let count : t.num_ident_strings + other.num_ident_strings ≡ length ((e ∷ es) ++ f ∷ fs) =
          omega (
            arith,
            v.counted ∙ ap length p,
            w.counted ∙ ap length q,
            length-append (e ∷ es) (f ∷ fs),
          ) in
        rw tailed (sym both, count, refl)

-- When an empty table has taken over a list, the next new identifier drops all that was taken over,
-- although it is counted behind it.
pub link-append :
    (t other u : CompilerIdentTable) (n : ℕ) (e : FullEntry)
    → IsLinked t
    → t.list ≡ []
    → other.list ≢ []
    → append t other ≡ some (u, n)
    → ((link u e).list ≡ e ∷ []) × ((link u e).num_ident_strings ≡ other.num_ident_strings + 1)
unfolding append link
link-append t other u n e v p ne h =
    by_list other.list ne (ap (λ es. append_lists t other es other.list) (sym p) ∙ h)
  where
    by_list :
        (fs : List FullEntry)
        → fs ≢ []
        → append_lists t other [] fs ≡ some (u, n)
        → ((if u.has_tail then u.list ++ e ∷ [] else e ∷ []) ≡ e ∷ [])
          × (u.num_ident_strings + 1 ≡ other.num_ident_strings + 1)
    by_list [] k q = absurd (k refl)
    by_list (f ∷ fs) k q =
        let same = sym (ap (λ z. z.0) (some-injective _ _ q)) in
        let no_tail : u.has_tail ≡ false = ap (λ z. z.has_tail) same ∙ v.tailed ∙ ap non_empty p in
        rw no_tail (refl, ap (λ z. z.num_ident_strings + 1) same)
