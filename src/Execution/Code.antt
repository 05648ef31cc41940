-- ===== src/Execution/Code.antt =====
-- engine/console/astNodes.cc and compiler.cc: the words that code has in common with a stream, which
-- is patched as far as it was written.
use korkscript.Prelude.{
  List, Option, [], ap, arith, false, get_elem?, get_elem?-append_left, get_elem?-length,
  if◌then◌else◌, refl, some, sym, true, ℕ, ◌++◌, ◌+◌, ◌<◌, ◌==◌, ◌∙◌, ◌∷◌, ◌≡◌, ◌≤◌, ◌⊎◌,
}
use korkscript.Codegen.{Codegen}
use korkscript.Codegen.Nodes.{patch_to, put}
use korkscript.Compiler.CodeStream.{CodeStream, PatchEntry, emit, emit_words, patch}
use korkscript.Compiler.CodeStream.Blocks.{flat, flat-alloc_code}
use korkscript.Compiler.CodeStream.Patches.{patched}
use korkscript.Compiler.CodeStream.Reach.{Reach-IsWellFormed}
use korkscript.Compiler.CodeStream.Steps.{PatchesBelow}
use korkscript.Execution.Growth.{Grows, IsReady, PatchesFrom}

-- The word at a position is the one that the stream has there with its patches.
abbrev pub Shows : List ℕ → CodeStream → ℕ → Type 0
Shows code s i = get_elem? code i ≡ patched s.patch_list i (get_elem? (flat s.code) i)

-- The words from one position up to another.
abbrev pub Agrees : List ℕ → CodeStream → ℕ → ℕ → Type 0
Agrees code s a b = (i : ℕ) → a ≤ i → i < b → Shows code s i

patched-append :
    (xs ys : List PatchEntry) (i : ℕ) (old : Option ℕ)
    → patched (xs ++ ys) i old ≡ patched ys i (patched xs i old)
patched-append [] ys i old = refl
patched-append (x ∷ xs) ys i old =
    patched-append xs ys i (if x.addr == i then some x.value else old)

patched-from :
    (n : ℕ) (es : List PatchEntry) (i : ℕ) (old : Option ℕ)
    → PatchesFrom n es
    → i < n
    → patched es i old ≡ old
patched-from n [] i old h k = refl
patched-from n (e ∷ es) i old h k =
    let miss : (e.addr == i) ≡ false = ground arith in rw miss (patched-from n es i old h.1 k)

patched-below :
    (n : ℕ) (es : List PatchEntry) (old : Option ℕ) → PatchesBelow n es → patched es n old ≡ old
patched-below n [] old h = refl
patched-below n (e ∷ es) old h =
    let miss : (e.addr == n) ≡ false = ground arith in rw miss (patched-below n es old h.1)

module _ {F : Type 0} {lit : F → Type 0} where
  -- What is added later leaves the words that are there.
  Shows-before :
      {g u : Codegen F} (code : List ℕ) (i : ℕ)
      → IsReady lit g
      → Grows lit g u
      → i < g.stream.code_pos
      → Shows code u.stream i
      → Shows code g.stream i
  Shows-before {g} {u} code i r a h s =
      let old = patched g.stream.patch_list i (get_elem? (flat g.stream.code) i) in
      let inside = Reach-IsWellFormed r.reach in
      s
      ∙ ap (λ ps. patched ps i (get_elem? (flat u.stream.code) i)) a.list
      ∙ patched-append g.stream.patch_list a.more i _
      ∙ patched-from g.stream.code_pos a.more i _ a.later h
      ∙ ap (λ ws. patched g.stream.patch_list i (get_elem? ws i)) a.code
      ∙ ap (patched g.stream.patch_list i)
          (get_elem?-append_left (flat g.stream.code) a.words i (omega (arith, inside.counted)))

  pub Agrees-before :
      {g u : Codegen F} (code : List ℕ) (a b : ℕ)
      → IsReady lit g
      → Grows lit g u
      → b ≤ g.stream.code_pos
      → Agrees code u.stream a b
      → Agrees code g.stream a b
  Agrees-before {g} {u} code a b r grow le agree i h k =
      Shows-before code i r grow (omega arith) (agree i h k)

  -- A word that was just added.
  pub Agrees-put :
      (g : Codegen F) (code : List ℕ) (word a : ℕ)
      → IsReady lit g
      → a ≤ g.stream.code_pos
      → Agrees code (put g word).stream a (g.stream.code_pos + 1)
      → get_elem? code g.stream.code_pos ≡ some word
  unfolding put emit emit_words
  Agrees-put g code word a r le agree =
      let inside = Reach-IsWellFormed r.reach in
      agree g.stream.code_pos le (omega arith)
      ∙ patched-below g.stream.code_pos g.stream.patch_list _ inside.patches
      ∙ ap (λ ws. get_elem? ws g.stream.code_pos) (flat-alloc_code g.stream.code (word ∷ []))
      ∙ ap (λ i. get_elem? (flat g.stream.code ++ word ∷ []) i) (sym inside.counted)
      ∙ get_elem?-length (flat g.stream.code) word

module _ {F : Type 0} where
  -- A word that was just patched, and the others.
  pub Agrees-patched :
      (g : Codegen F) (code : List ℕ) (addr word a b : ℕ)
      → a ≤ addr
      → addr < b
      → Agrees code (patch_to g addr word).stream a b
      → get_elem? code addr ≡ some word
  unfolding patch_to patch
  Agrees-patched g code addr word a b h k agree =
      let old = get_elem? (flat g.stream.code) addr in
      let hit : (addr == addr) ≡ true = ground arith in
      agree addr h k ∙ patched-append g.stream.patch_list _ addr old ∙ rw hit refl

  pub Agrees-unpatched :
      (g : Codegen F) (code : List ℕ) (addr word a b : ℕ)
      → (b ≤ addr) ⊎ (addr < a)
      → Agrees code (patch_to g addr word).stream a b
      → Agrees code g.stream a b
  unfolding patch_to patch
  Agrees-unpatched g code addr word a b out agree i h k =
      let old = get_elem? (flat g.stream.code) i in
      let miss : (addr == i) ≡ false = ground arith in
      agree i h k ∙ patched-append g.stream.patch_list _ i old ∙ rw miss refl

-- A part of the range.
pub Agrees-within :
    (code : List ℕ) (s : CodeStream) (a b c d : ℕ)
    → a ≤ c
    → d ≤ b
    → Agrees code s a b
    → Agrees code s c d
Agrees-within code s a b c d h k agree i p q = agree i (omega arith) (omega arith)
