-- ===== src/Execution/Growth.antt =====
-- engine/console/astNodes.cc: what compiling does to the stream and to the table of numbers.
use korkscript.Prelude.{
  List, [], append-nil, append_assoc, arith, get_elem?, length, length-append, refl, some,
  some-injective, subst, suc, sym, zero, ℕ, ◌++◌, ◌+◌, ◌<◌, ◌∙◌, ◌∷◌, ◌≡◌, ◌≤◌,
}
use korkscript.Codegen.{Codegen}
use korkscript.Codegen.Nodes.{patch_to, put}
use korkscript.Compiler.CodeStream.{PatchEntry, emit, emit_words, patch}
use korkscript.Compiler.CodeStream.Blocks.{flat, flat-alloc_code}
use korkscript.Compiler.CodeStream.Reach.{Reach, emits, patches}
use korkscript.Compiler.FloatTable.{IsCounted}

module _ {A : Type 0} where
  abbrev pub All : (A → Type 0) → List A → Type 0
  All p [] = Unit
  All p (x ∷ xs) = p x × All p xs

  pub All-append : (p : A → Type 0) (xs : List A) (x : A) → All p xs → p x → All p (xs ++ x ∷ [])
  All-append p [] x h k = (k, tt)
  All-append p (y ∷ xs) x h k = (h.0, All-append p xs x h.1 k)

  pub All-get :
      (p : A → Type 0) (xs : List A) (i : ℕ) (x : A) → All p xs → get_elem? xs i ≡ some x → p x
  All-get p [] i x h e = absurd (ground arith)
  All-get p (y ∷ xs) zero x h e = subst p (some-injective _ _ e) h.0
  All-get p (y ∷ xs) (suc i) x h e = All-get p xs i x h.1 e

-- The patches name words from a position on.
abbrev pub PatchesFrom : ℕ → List PatchEntry → Type 0
PatchesFrom n [] = Unit
PatchesFrom n (e ∷ es) = (n ≤ e.addr) × PatchesFrom n es

PatchesFrom-append :
    (n m : ℕ) (xs ys : List PatchEntry)
    → n ≤ m
    → PatchesFrom n xs
    → PatchesFrom m ys
    → PatchesFrom n (xs ++ ys)
PatchesFrom-append n m [] [] le h k = tt
PatchesFrom-append n m [] (y ∷ ys) le h k = (omega arith, PatchesFrom-append n m [] ys le tt k.1)
PatchesFrom-append n m (x ∷ xs) ys le h k = (h.0, PatchesFrom-append n m xs ys le h.1 k)

module _ {F : Type 0} (lit : F → Type 0) where
  -- The stream is one that its operations lead to, and all numbers of the table pass.
  pub record IsReady (g : Codegen F) : Type 0 where
    pub reach : Reach g.stream
    pub counted : IsCounted g.floats
    pub literals : All lit g.floats.list

  -- Words were added at the end, only words from there on were patched, and the numbers that were
  -- in the table are where they were.
  pub record Grows (g u : Codegen F) : Type 0 where
    pub words : List ℕ
    pub more : List PatchEntry
    pub code : flat u.stream.code ≡ flat g.stream.code ++ words
    pub pos : u.stream.code_pos ≡ g.stream.code_pos + length words
    pub list : u.stream.patch_list ≡ g.stream.patch_list ++ more
    pub later : PatchesFrom g.stream.code_pos more
    pub calls : u.stream.num_func_calls ≡ g.stream.num_func_calls
    pub kept :
        (i : ℕ) (x : F) → get_elem? g.floats.list i ≡ some x → get_elem? u.floats.list i ≡ some x
    pub ready : IsReady g → IsReady u

  pub Grows-refl : (g : Codegen F) → Grows g g
  Grows-refl g = record {
    words = [];
    more = [];
    code = sym (append-nil _);
    pos = omega arith;
    list = sym (append-nil _);
    later = tt;
    calls = refl;
    kept = λ i x h. h;
    ready = λ r. r;
  }

  pub Grows-trans : {g u w : Codegen F} → Grows g u → Grows u w → Grows g w
  Grows-trans {g} {u} {w} a b = record {
    words = a.words ++ b.words;
    more = a.more ++ b.more;
    code = rw (b.code, a.code) (append_assoc (flat g.stream.code) a.words b.words);
    pos = omega (arith, a.pos, b.pos, length-append a.words b.words);
    list = rw (b.list, a.list) (append_assoc g.stream.patch_list a.more b.more);
    later =
        PatchesFrom-append g.stream.code_pos u.stream.code_pos a.more b.more (omega (arith, a.pos))
          a.later b.later;
    calls = b.calls ∙ a.calls;
    kept = λ i x h. b.kept i x (a.kept i x h);
    ready = λ r. b.ready (a.ready r);
  }

  pub Grows-le : {g u : Codegen F} → Grows g u → g.stream.code_pos ≤ u.stream.code_pos
  Grows-le a = omega (arith, a.pos)

  pub Grows-put : (g : Codegen F) (word : ℕ) → Grows g (put g word)
  unfolding put emit emit_words
  Grows-put g word = record {
    words = word ∷ [];
    more = [];
    code = flat-alloc_code g.stream.code (word ∷ []);
    pos = refl;
    list = sym (append-nil _);
    later = tt;
    calls = refl;
    kept = λ i x h. h;
    ready = λ r. record {
      reach = Reach.next r.reach (emits word);
      counted = r.counted;
      literals = r.literals;
    };
  }

  -- A word that was added is patched.
  pub Grows-patch :
      {g u : Codegen F} (addr word : ℕ)
      → Grows g u
      → g.stream.code_pos ≤ addr
      → addr < u.stream.code_pos
      → Grows g (patch_to u addr word)
  unfolding patch_to patch
  Grows-patch {g} {u} addr word a h k = record {
    words = a.words;
    more = a.more ++ record { addr = addr; value = word } ∷ [];
    code = a.code;
    pos = a.pos;
    list = rw a.list (append_assoc g.stream.patch_list a.more _);
    later =
        PatchesFrom-append g.stream.code_pos g.stream.code_pos a.more _ (omega arith) a.later
          (h, tt);
    calls = a.calls;
    kept = a.kept;
    ready = λ r. record {
      reach = Reach.next (a.ready r).reach (patches addr word k);
      counted = (a.ready r).counted;
      literals = (a.ready r).literals;
    };
  }
