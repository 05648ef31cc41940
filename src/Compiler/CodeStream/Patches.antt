-- ===== src/Compiler/CodeStream/Patches.antt =====
-- engine/console/compiler.cc: lemmas on what `emitCodeStream` hands out.
use korkscript.Prelude.{
  Bool-cases, List, Option, [], ap, arith, drop, false, get_elem?, get_elem?-append_left,
  get_elem?-set_ne, get_elem?-set_self, if◌then◌else◌, inl, inr, length, length-append, length-set,
  ltb, refl, set, some, subst, suc, sym, zero, ℕ, ◌*◌, ◌++◌, ◌+◌, ◌<◌, ◌==◌, ◌∙◌, ◌∷◌, ◌≡◌, ◌≤◌,
}
use korkscript.Compiler.CodeStream.{
  CodeStream, PatchEntry, apply_patches, emit_code_stream, flat_pairs, get_num_line_breaks,
}
use korkscript.Compiler.CodeStream.Blocks.{dump_blocks-flat, flat}
use korkscript.Compiler.CodeStream.Fixes.{drop-append}
use korkscript.Compiler.CodeStream.Reach.{Reach, Reach-IsWellFormed}
use korkscript.Compiler.CodeStream.Steps.{PatchesBelow}

length-apply_patches :
    (es : List PatchEntry) (xs : List ℕ) → length (apply_patches es xs) ≡ length xs
unfolding apply_patches
length-apply_patches [] xs = refl
length-apply_patches (e ∷ es) xs =
    length-apply_patches es (set xs e.addr e.value) ∙ length-set xs e.addr e.value

-- The value of the last patch of an address, or what is there without one.
abbrev pub patched : List PatchEntry → ℕ → Option ℕ → Option ℕ
patched [] i old = old
patched (e ∷ es) i old = patched es i (if e.addr == i then some e.value else old)

get_elem?-set :
    (xs : List ℕ) (i j v : ℕ)
    → i < length xs
    → get_elem? (set xs i v) j ≡ (if i == j then some v else get_elem? xs j)
get_elem?-set xs i j v h = elim (Bool-cases (i == j)) [
  | inl e ↦ let p : i ≡ j = ground arith in rw e (rw (← p) (get_elem?-set_self xs i v h))
  | inr e ↦ rw e (get_elem?-set_ne xs v (λ p. ground arith))
]

apply_patches-patched :
    (es : List PatchEntry) (xs : List ℕ) (i : ℕ)
    → PatchesBelow (length xs) es
    → get_elem? (apply_patches es xs) i ≡ patched es i (get_elem? xs i)
unfolding apply_patches
apply_patches-patched [] xs i h = refl
apply_patches-patched (e ∷ es) xs i h =
    apply_patches-patched es (set xs e.addr e.value) i (rw (length-set xs e.addr e.value) h.1)
    ∙ ap (patched es i) (get_elem?-set xs e.addr i e.value h.0)

length-flat_pairs : (ps : List (ℕ × ℕ)) → length (flat_pairs ps) ≡ 2 * length ps
unfolding flat_pairs
length-flat_pairs [] = omega arith
length-flat_pairs ((a, b) ∷ ps) = omega (arith, length-flat_pairs ps)

PatchesBelow-le : (m n : ℕ) (es : List PatchEntry) → m ≤ n → PatchesBelow m es → PatchesBelow n es
PatchesBelow-le m n [] h f = tt
PatchesBelow-le m n (e ∷ es) h f = (omega arith, PatchesBelow-le m n es h f.1)

-- The words read two at a time.
abbrev pub in_pairs : List ℕ → List (ℕ × ℕ)
in_pairs [] = []
in_pairs (a ∷ []) = []
in_pairs (a ∷ b ∷ ws) = (a, b) ∷ in_pairs ws

in_pairs-flat_pairs : (ps : List (ℕ × ℕ)) → in_pairs (flat_pairs ps) ≡ ps
unfolding flat_pairs
in_pairs-flat_pairs [] = refl
in_pairs-flat_pairs ((a, b) ∷ ps) = ap (λ qs. (a, b) ∷ qs) (in_pairs-flat_pairs ps)

set-append_left : (xs ys : List ℕ) (i v : ℕ) → i < length xs → set (xs ++ ys) i v ≡ set xs i v ++ ys
set-append_left [] ys i v h = absurd (omega arith)
set-append_left (x ∷ xs) ys zero v h = refl
set-append_left (x ∷ xs) ys (suc i) v h =
    ap (λ zs. x ∷ zs) (set-append_left xs ys i v (omega arith))

-- Patches of the words leave what stands behind them.
apply_patches-append :
    (es : List PatchEntry) (xs ys : List ℕ)
    → PatchesBelow (length xs) es
    → apply_patches es (xs ++ ys) ≡ apply_patches es xs ++ ys
unfolding apply_patches
apply_patches-append [] xs ys h = refl
apply_patches-append (e ∷ es) xs ys h =
    ap (apply_patches es) (set-append_left xs ys e.addr e.value h.0)
    ∙ apply_patches-append es (set xs e.addr e.value) ys (rw (length-set xs e.addr e.value) h.1)

drop_words :
    (n : ℕ) (es : List PatchEntry) (xs ys : List ℕ)
    → length xs ≡ n
    → PatchesBelow n es
    → drop n (apply_patches es (xs ++ ys)) ≡ ys
drop_words n es xs ys h f =
    let f' : PatchesBelow (length xs) es = subst (λ m. PatchesBelow m es) (sym h) f in
    let kept = length-apply_patches es xs in
    ap (drop n) (apply_patches-append es xs ys f')
    ∙ ap (λ m. drop m (apply_patches es xs ++ ys)) (sym (kept ∙ h))
    ∙ drop-append (apply_patches es xs) ys

-- With at most 999 calls counted, the assertion holds and the stream that a reachable state hands out
-- has the words and behind them, read two at a time, exactly the line and the position of each line
-- break in order; and each of its words is the last patch of its position or, without one, the word
-- that was emitted there.
pub emit_code_stream-patched :
    (s : CodeStream) (i : ℕ)
    → Reach s
    → s.num_func_calls < 1000
    → i < s.code_pos
    → let out = (emit_code_stream s).1 in
      (out.size ≡ s.code_pos)
      × (length out.stream ≡ s.code_pos + 2 * get_num_line_breaks s)
      × (get_elem? out.stream i ≡ patched s.patch_list i (get_elem? (flat s.code) i))
      × (out.num_calls ≡ some (s.num_func_calls + 1))
      × (in_pairs (drop out.size out.stream) ≡ s.break_lines)
      × (out.asserted ≡ false)
unfolding emit_code_stream get_num_line_breaks
emit_code_stream-patched s i r few inside =
    let v = Reach-IsWellFormed r in
    let raw = flat s.code ++ flat_pairs s.break_lines in
    let dump = dump_blocks-flat s.code_pos s.code v.counted in
    let total = length-append (flat s.code) (flat_pairs s.break_lines) in
    let some_left : ltb 1000 (s.num_func_calls + 1) ≡ false = ground arith in
    let fit : PatchesBelow (length raw) s.patch_list =
      PatchesBelow-le s.code_pos (length raw) s.patch_list (omega (arith, total, v.counted))
        v.patches in
    rw (some_left, dump)
      (
        refl,
        length-apply_patches s.patch_list raw
            ∙ omega (arith, total, v.counted, length-flat_pairs s.break_lines),
        apply_patches-patched s.patch_list raw i fit
            ∙ ap (patched s.patch_list i) (
                get_elem?-append_left (flat s.code) (flat_pairs s.break_lines) i
                  (omega (arith, v.counted))),
        refl,
        ap in_pairs (
              drop_words s.code_pos s.patch_list (flat s.code) (flat_pairs s.break_lines) v.counted
                v.patches)
            ∙ in_pairs-flat_pairs s.break_lines,
        refl,
      )
