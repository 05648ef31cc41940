-- ===== src/Compiler/CodeStream/Blocks.antt =====
-- engine/console/compiler.cc, `CodeStream`: lemmas on the words in the blocks.
use korkscript.Prelude.{
  Bool-cases, List, [], ap, append-nil, append_assoc, arith, inl, inr, length, length-append, ltb,
  min, refl, reverse, reverse-cons, suc, sym, take, zero, ℕ, ◌*◌, ◌++◌, ◌-◌, ◌∙◌, ◌∷◌, ◌≡◌, ◌≤◌,
}
use korkscript.Compiler.CodeStream.{CodeData, alloc_code, block_size, dump_blocks}

-- The words of the blocks, which are kept newest first.
abbrev pub flat : List CodeData → List ℕ
flat [] = []
flat (b ∷ bs) = flat bs ++ b.words

-- The words of blocks in the order of the copy.
abbrev joined : List CodeData → List ℕ
joined [] = []
joined (b ∷ bs) = b.words ++ joined bs

joined-append : (xs ys : List CodeData) → joined (xs ++ ys) ≡ joined xs ++ joined ys
joined-append [] ys = refl
joined-append (x ∷ xs) ys = simp (joined-append xs ys, append_assoc)

joined-reverse : (bs : List CodeData) → joined (reverse bs) ≡ flat bs
joined-reverse [] = refl
joined-reverse (b ∷ bs) =
    rw (reverse-cons b bs, joined-append (reverse bs) (b ∷ []), joined-reverse bs, append-nil)

-- No block holds more bytes than it has.
abbrev pub Fit : List CodeData → Type 0
Fit [] = Unit
Fit (b ∷ bs) = (4 * length b.words ≤ block_size) × Fit bs

pub flat-alloc_code : (bs : List CodeData) (ws : List ℕ) → flat (alloc_code bs ws) ≡ flat bs ++ ws
unfolding alloc_code
flat-alloc_code [] ws = refl
flat-alloc_code (b ∷ bs) ws =
    elim (Bool-cases (ltb (4 * length ws) (block_size - 4 * length b.words))) [
      | inl e ↦ rw e (rw append_assoc)
      | inr e ↦ rw e refl
    ]

-- The callers store at most two words.
pub Fit-alloc_code :
    (bs : List CodeData) (ws : List ℕ) → length ws ≤ 2 → Fit bs → Fit (alloc_code bs ws)
unfolding alloc_code
Fit-alloc_code [] ws h f = omega arith
Fit-alloc_code (b ∷ bs) ws h f = ground (arith, length-append b.words ws)

take_all : (n : ℕ) (xs : List ℕ) → length xs ≤ n → take n xs ≡ xs
take_all zero [] h = refl
take_all zero (x ∷ xs) h = absurd (omega arith)
take_all (suc n) [] h = refl
take_all (suc n) (x ∷ xs) h = ap (◌∷◌ x) (take_all n xs (omega arith))

dump_blocks-joined :
    (n : ℕ) (bs : List CodeData) → n ≡ length (joined bs) → dump_blocks n bs ≡ joined bs
unfolding dump_blocks
dump_blocks-joined n [] h = refl
dump_blocks-joined n (b ∷ bs) h =
    let split = length-append b.words (joined bs) in
    let k : min (length b.words) n ≡ length b.words = omega arith in
    rw (k, take_all (length b.words) b.words (omega arith))
      (ap (◌++◌ b.words) (dump_blocks-joined (n - length b.words) bs (omega arith)))

-- The copy puts the words of all blocks in order.
pub dump_blocks-flat :
    (n : ℕ) (bs : List CodeData) → length (flat bs) ≡ n → dump_blocks n (reverse bs) ≡ flat bs
dump_blocks-flat n bs h =
    dump_blocks-joined n (reverse bs) (sym h ∙ ap length (sym (joined-reverse bs)))
    ∙ joined-reverse bs
