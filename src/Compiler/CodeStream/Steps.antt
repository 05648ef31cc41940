-- ===== src/Compiler/CodeStream/Steps.antt =====
-- engine/console/compiler.h, `CodeStream`: its invariant, operation by operation.
use korkscript.Prelude.{
  Bool, List, [], ap, arith, drop, length, length-append, length-take, refl, some, some-injective,
  subst, suc, tail, take, zero, ℕ, ◌++◌, ◌+◌, ◌-◌, ◌<◌, ◌∷◌, ◌≡◌, ◌≤◌,
}
use korkscript.Compiler.CodeStream.{
  CodeStream, FixType, PatchEntry, emit_fix, emit_words, fix_all, fix_code, fix_from, fix_loop,
  fixed_ip, patch, pop_fix_scope, pop_fix_to, push_fix_scope,
}
use korkscript.Compiler.CodeStream.Blocks.{Fit, Fit-alloc_code, flat, flat-alloc_code}

-- The scopes: each starts within the fixes, no deeper than the one inside it.
abbrev pub Scopes : ℕ → List ℕ → Type 0
Scopes n [] = Unit
Scopes n (m ∷ ms) = (m ≤ n) × Scopes m ms

abbrev pub FixesBelow : ℕ → List (ℕ × FixType) → Type 0
FixesBelow n [] = Unit
FixesBelow n ((addr, type) ∷ fs) = (addr < n) × FixesBelow n fs

abbrev pub PatchesBelow : ℕ → List PatchEntry → Type 0
PatchesBelow n [] = Unit
PatchesBelow n (e ∷ es) = (e.addr < n) × PatchesBelow n es

pub record IsWellFormed (s : CodeStream) : Type 0 where
  pub counted : length (flat s.code) ≡ s.code_pos
  pub fit : Fit s.code
  pub fixes : FixesBelow s.code_pos s.fix_list
  pub patches : PatchesBelow s.code_pos s.patch_list
  pub scopes : Scopes (length s.fix_list) s.fix_stack
  pub same_depth : length s.fix_loop_stack ≡ length s.fix_stack

FixesBelow-mono : (m n : ℕ) (fs : List (ℕ × FixType)) → m ≤ n → FixesBelow m fs → FixesBelow n fs
FixesBelow-mono m n [] h f = tt
FixesBelow-mono m n ((addr, type) ∷ fs) h f = (omega arith, FixesBelow-mono m n fs h f.1)

FixesBelow-concat :
    (n addr : ℕ) (type : FixType) (fs : List (ℕ × FixType))
    → addr < n
    → FixesBelow n fs
    → FixesBelow n (fs ++ (addr, type) ∷ [])
FixesBelow-concat n addr type [] h f = (h, tt)
FixesBelow-concat n addr type (x ∷ fs) h f = (f.0, FixesBelow-concat n addr type fs h f.1)

FixesBelow-take : (n k : ℕ) (fs : List (ℕ × FixType)) → FixesBelow n fs → FixesBelow n (take k fs)
FixesBelow-take n zero fs f = tt
FixesBelow-take n (suc k) [] f = tt
FixesBelow-take n (suc k) (x ∷ fs) f = (f.0, FixesBelow-take n k fs f.1)

FixesBelow-drop : (n k : ℕ) (fs : List (ℕ × FixType)) → FixesBelow n fs → FixesBelow n (drop k fs)
FixesBelow-drop n zero fs f = f
FixesBelow-drop n (suc k) [] f = tt
FixesBelow-drop n (suc k) (x ∷ fs) f = FixesBelow-drop n k fs f.1

PatchesBelow-mono : (m n : ℕ) (es : List PatchEntry) → m ≤ n → PatchesBelow m es → PatchesBelow n es
PatchesBelow-mono m n [] h f = tt
PatchesBelow-mono m n (e ∷ es) h f = (omega arith, PatchesBelow-mono m n es h f.1)

PatchesBelow-concat :
    (n : ℕ) (es : List PatchEntry) (e : PatchEntry)
    → PatchesBelow n es
    → e.addr < n
    → PatchesBelow n (es ++ e ∷ [])
PatchesBelow-concat n [] e f h = (h, tt)
PatchesBelow-concat n (x ∷ es) e f h = (f.0, PatchesBelow-concat n es e f.1 h)

Scopes-mono : (m n : ℕ) (ms : List ℕ) → m ≤ n → Scopes m ms → Scopes n ms
Scopes-mono m n [] h f = tt
Scopes-mono m n (k ∷ ms) h f = (omega arith, f.1)

pub emit_words-IsWellFormed :
    (s : CodeStream) (ws : List ℕ)
    → length ws ≤ 2
    → IsWellFormed s
    → IsWellFormed (emit_words s ws).0
unfolding emit_words
emit_words-IsWellFormed s ws h v = record {
  counted =
      rw (flat-alloc_code s.code ws) (omega (arith, length-append (flat s.code) ws, v.counted));
  fit = Fit-alloc_code s.code ws h v.fit;
  fixes = FixesBelow-mono s.code_pos (s.code_pos + length ws) s.fix_list (omega arith) v.fixes;
  patches =
      PatchesBelow-mono s.code_pos (s.code_pos + length ws) s.patch_list (omega arith) v.patches;
  scopes = v.scopes;
  same_depth = v.same_depth;
}

pub emit_fix-IsWellFormed :
    (s : CodeStream) (type : FixType) → IsWellFormed s → IsWellFormed (emit_fix s type).0
unfolding emit_fix emit_words
emit_fix-IsWellFormed s type v =
    let u = emit_words-IsWellFormed s (fix_code type ∷ []) (omega arith) v in
    record {
      counted = u.counted;
      fit = u.fit;
      fixes = FixesBelow-concat (s.code_pos + 1) s.code_pos type s.fix_list (omega arith) u.fixes;
      patches = u.patches;
      scopes =
          Scopes-mono (length s.fix_list) _ s.fix_stack
            (omega (arith, length-append s.fix_list ((s.code_pos, type) ∷ []))) v.scopes;
      same_depth = v.same_depth;
    }

pub patch-IsWellFormed :
    (s : CodeStream) (addr word : ℕ)
    → addr < s.code_pos
    → IsWellFormed s
    → IsWellFormed (patch s addr word)
unfolding patch
patch-IsWellFormed s addr word h v = record {
  counted = v.counted;
  fit = v.fit;
  fixes = v.fixes;
  patches = PatchesBelow-concat s.code_pos s.patch_list _ v.patches h;
  scopes = v.scopes;
  same_depth = v.same_depth;
}

pub push_fix_scope-IsWellFormed :
    (s : CodeStream) (is_loop : Bool) → IsWellFormed s → IsWellFormed (push_fix_scope s is_loop)
unfolding push_fix_scope
push_fix_scope-IsWellFormed s is_loop v = record {
  counted = v.counted;
  fit = v.fit;
  fixes = v.fixes;
  patches = v.patches;
  scopes = (omega arith, v.scopes);
  same_depth = ap suc v.same_depth;
}

length-tail : {A : Type 0} (xs : List A) → length (tail xs) ≡ length xs - 1
length-tail [] = omega arith
length-tail (x ∷ xs) = omega arith

pub pop_fix_scope-IsWellFormed :
    (s u : CodeStream) → IsWellFormed s → pop_fix_scope s ≡ some u → IsWellFormed u
unfolding pop_fix_scope
pop_fix_scope-IsWellFormed s u v h = popped s.fix_stack refl h
  where
    popped : (stack : List ℕ) → s.fix_stack ≡ stack → pop_fix_to s stack ≡ some u → IsWellFormed u
    popped [] e k = absurd (ground arith)
    popped (n ∷ ns) e k =
        let nested : Scopes (length s.fix_list) (n ∷ ns) =
          subst (Scopes (length s.fix_list)) e v.scopes in
        let depth = ap length e in
        let kept : n ≡ length (take n s.fix_list) =
          omega (arith, length-take n s.fix_list, nested) in
        subst IsWellFormed (some-injective _ _ k) (record {
          counted = v.counted;
          fit = v.fit;
          fixes = FixesBelow-take s.code_pos n s.fix_list v.fixes;
          patches = v.patches;
          scopes = subst (λ m. Scopes m ns) kept nested.1;
          same_depth = omega (arith, depth, length-tail s.fix_loop_stack, v.same_depth);
        })

fix_all-IsWellFormed :
    (s : CodeStream) (start brk cont : ℕ) (fs : List (ℕ × FixType))
    → FixesBelow s.code_pos fs
    → IsWellFormed s
    → IsWellFormed (fix_all s start brk cont fs)
unfolding fix_all patch
fix_all-IsWellFormed s start brk cont [] f v = v
fix_all-IsWellFormed s start brk cont ((addr, type) ∷ fs) f v =
    let target = fixed_ip start brk cont type in
    fix_all-IsWellFormed (patch s addr target) start brk cont fs f.1
      (patch-IsWellFormed s addr target f.0 v)

pub fix_loop-IsWellFormed :
    (s u : CodeStream) (start brk cont : ℕ)
    → IsWellFormed s
    → fix_loop s start brk cont ≡ some u
    → IsWellFormed u
unfolding fix_loop
fix_loop-IsWellFormed s u start brk cont v = fixed s.fix_stack
  where
    fixed : (stack : List ℕ) → fix_from s start brk cont stack ≡ some u → IsWellFormed u
    fixed [] k = absurd (ground arith)
    fixed (n ∷ ns) k = subst IsWellFormed (some-injective _ _ k) (
        fix_all-IsWellFormed s start brk cont (drop n s.fix_list)
          (FixesBelow-drop s.code_pos n s.fix_list v.fixes) v)
