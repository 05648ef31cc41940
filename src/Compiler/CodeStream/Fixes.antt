-- ===== src/Compiler/CodeStream/Fixes.antt =====
-- engine/console/astNodes.cc: how the nodes for loops close the scope of their fixes.
use korkscript.Prelude.{
  List, Option, [], ap, append-nil, append_assoc, drop, length, none, refl, some, tail, take, ℕ,
  ◌++◌, ◌∙◌, ◌∷◌, ◌≡◌,
}
use korkscript.Compiler.CodeStream.{
  CodeStream, FixType, PatchEntry, break, continue, fix_all, fix_from, fix_loop, fixed_ip,
  loop_block_start, patch, pop_fix_scope, pop_fix_to,
}

-- The end of `LoopStmtNode::compileStmt`: the jumps out of the loop are fixed, the scope is popped.
unfoldable pub close_loop : CodeStream → ℕ → ℕ → ℕ → Option CodeStream
close_loop s start brk cont = elim (fix_loop s start brk cont) [
  | none ↦ none
  | some u ↦ pop_fix_scope u
]

-- The patches that fixes call for: a jump back goes to the start of the loop's block, a `break` to
-- the break point and a `continue` to the continue point.
abbrev pub targets : ℕ → ℕ → ℕ → List (ℕ × FixType) → List PatchEntry
targets start brk cont [] = []
targets start brk cont ((addr, loop_block_start) ∷ fs) =
    record { addr = addr; value = start } ∷ targets start brk cont fs
targets start brk cont ((addr, break) ∷ fs) =
    record { addr = addr; value = brk } ∷ targets start brk cont fs
targets start brk cont ((addr, continue) ∷ fs) =
    record { addr = addr; value = cont } ∷ targets start brk cont fs

abbrev pub with_patches : CodeStream → List PatchEntry → CodeStream
with_patches s es = record s { patch_list = s.patch_list ++ es }

patched_behind :
    (s : CodeStream) (e : PatchEntry) (es : List PatchEntry)
    → with_patches (record s { patch_list = s.patch_list ++ e ∷ [] }) es ≡ with_patches s (e ∷ es)
patched_behind s e es =
    ap (λ ps. record s { patch_list = ps }) (append_assoc s.patch_list (e ∷ []) es)

fix_all-targets :
    (s : CodeStream) (start brk cont : ℕ) (fs : List (ℕ × FixType))
    → fix_all s start brk cont fs ≡ with_patches s (targets start brk cont fs)
unfolding fix_all patch fixed_ip
fix_all-targets s start brk cont [] = rw (append-nil s.patch_list) refl
fix_all-targets s start brk cont ((addr, loop_block_start) ∷ fs) =
    let e : PatchEntry = record { addr = addr; value = start } in
    fix_all-targets (record s { patch_list = s.patch_list ++ e ∷ [] }) start brk cont fs
    ∙ patched_behind s e (targets start brk cont fs)
fix_all-targets s start brk cont ((addr, break) ∷ fs) =
    let e : PatchEntry = record { addr = addr; value = brk } in
    fix_all-targets (record s { patch_list = s.patch_list ++ e ∷ [] }) start brk cont fs
    ∙ patched_behind s e (targets start brk cont fs)
fix_all-targets s start brk cont ((addr, continue) ∷ fs) =
    let e : PatchEntry = record { addr = addr; value = cont } in
    fix_all-targets (record s { patch_list = s.patch_list ++ e ∷ [] }) start brk cont fs
    ∙ patched_behind s e (targets start brk cont fs)

pub drop-append : {A : Type 0} (xs ys : List A) → drop (length xs) (xs ++ ys) ≡ ys
drop-append [] ys = refl
drop-append (x ∷ xs) ys = drop-append xs ys

take-append : {A : Type 0} (xs ys : List A) → take (length xs) (xs ++ ys) ≡ xs
take-append [] ys = refl
take-append (x ∷ xs) ys = ap (λ zs. x ∷ zs) (take-append xs ys)

fix_loop-targets :
    (s : CodeStream) (outer inner : List (ℕ × FixType)) (scopes : List ℕ) (start brk cont : ℕ)
    → s.fix_list ≡ outer ++ inner
    → s.fix_stack ≡ length outer ∷ scopes
    → fix_loop s start brk cont ≡ some (with_patches s (targets start brk cont inner))
unfolding fix_loop
fix_loop-targets s outer inner scopes start brk cont fixes stack =
    ap (fix_from s start brk cont) stack
    ∙ ap (λ fs. some (fix_all s start brk cont fs))
        (ap (drop (length outer)) fixes ∙ drop-append outer inner)
    ∙ ap some (fix_all-targets s start brk cont inner)

-- A loop that closes its scope patches exactly the jumps that were emitted since the scope was
-- opened, in order, a jump back to the start of the loop's block, a `break` to the break point and a
-- `continue` to the continue point, and gives the fixes and the scopes back as
-- they were outside the loop; the fixes of the loops around it wait for their own scopes.
pub close_loop-targets :
    (s : CodeStream) (outer inner : List (ℕ × FixType)) (scopes : List ℕ) (start brk cont : ℕ)
    → s.fix_list ≡ outer ++ inner
    → s.fix_stack ≡ length outer ∷ scopes
    → close_loop s start brk cont
      ≡ some (record s {
        patch_list = s.patch_list ++ targets start brk cont inner;
        fix_list = outer;
        fix_stack = scopes;
        fix_loop_stack = tail s.fix_loop_stack;
      })
unfolding pop_fix_scope close_loop
close_loop-targets s outer inner scopes start brk cont fixes stack =
    let u = with_patches s (targets start brk cont inner) in
    rw (fix_loop-targets s outer inner scopes start brk cont fixes stack, close_loop)
      (ap (pop_fix_to u) stack
        ∙ ap (λ fs. pop_fix_to (record u { fix_list = fs }) (length outer ∷ scopes)) fixes
        ∙ ap
            (λ fs. some (record u {
              fix_list = fs;
              fix_stack = scopes;
              fix_loop_stack = tail s.fix_loop_stack;
            }))
            (take-append outer inner))
