-- ===== src/CodeBlock/Marked.antt =====
-- engine/console/codeBlock.cc, `calcBreakList`: what its last loop does to the pairs of a block.
use Prim.Native.Nat.{bit_or}
use korkscript.Prelude.{
  List, [], ap, append_assoc, arith, get_elem?, get_elem?-append_left, get_or, length,
  length-append, refl, set, some, suc, sym, u32, zero, ℕ, ◌*◌, ◌++◌, ◌+◌, ◌<◌, ◌^◌, ◌∙◌, ◌∷◌, ◌≡◌,
}
use korkscript.CodeBlock.Pairs.{mark_pair, mark_pairs}

-- Lines and positions in turn, and all positions are below a bound.
abbrev pub ArePlaced : ℕ → List ℕ → Type 0
ArePlaced m [] = Unit
ArePlaced m (line ∷ []) = ⊥
ArePlaced m (line ∷ ip ∷ rest) = (ip < m) × ArePlaced m rest

-- Each line with the opcode at its position.
abbrev pub with_opcodes : List ℕ → List ℕ → List ℕ
with_opcodes code [] = []
with_opcodes code (line ∷ []) = line ∷ []
with_opcodes code (line ∷ ip ∷ rest) =
    bit_or (u32 (line * 2 ^ 8)) (get_or code ip 0) ∷ ip ∷ with_opcodes code rest

get_elem?-here : (xs : List ℕ) (y : ℕ) (ys : List ℕ) → get_elem? (xs ++ y ∷ ys) (length xs) ≡ some y
get_elem?-here [] y ys = refl
get_elem?-here (x ∷ xs) y ys = get_elem?-here xs y ys

get_elem?-next :
    (xs : List ℕ) (y z : ℕ) (ys : List ℕ) → get_elem? (xs ++ y ∷ z ∷ ys) (suc (length xs)) ≡ some z
get_elem?-next [] y z ys = refl
get_elem?-next (x ∷ xs) y z ys = get_elem?-next xs y z ys

set-here : (xs : List ℕ) (y v : ℕ) (ys : List ℕ) → set (xs ++ y ∷ ys) (length xs) v ≡ xs ++ v ∷ ys
set-here [] y v ys = refl
set-here (x ∷ xs) y v ys = ap (λ zs. x ∷ zs) (set-here xs y v ys)

get_elem?-get_or : (xs : List ℕ) (i : ℕ) → i < length xs → get_elem? xs i ≡ some (get_or xs i 0)
get_elem?-get_or [] i h = absurd (omega arith)
get_elem?-get_or (x ∷ xs) zero h = refl
get_elem?-get_or (x ∷ xs) (suc i) h = get_elem?-get_or xs i (omega arith)

-- One pair behind the code and the pairs before.
mark_pair-behind :
    (code done rest : List ℕ) (line ip : ℕ)
    → ip < length code
    → mark_pair (length (code ++ done)) ((code ++ done) ++ line ∷ ip ∷ rest)
      ≡ some ((code ++ done) ++ bit_or (u32 (line * 2 ^ 8)) (get_or code ip 0) ∷ ip ∷ rest)
unfolding mark_pair
mark_pair-behind code done rest line ip h =
    let pre = code ++ done in
    let next : get_elem? (pre ++ line ∷ ip ∷ rest) (length pre + 1) ≡ some ip =
      ap (get_elem? (pre ++ line ∷ ip ∷ rest)) (omega arith) ∙ get_elem?-next pre line ip rest in
    let op : get_elem? (pre ++ line ∷ ip ∷ rest) ip ≡ some (get_or code ip 0) =
      get_elem?-append_left pre (line ∷ ip ∷ rest) ip (omega (arith, length-append code done))
      ∙ get_elem?-append_left code done ip h
      ∙ get_elem?-get_or code ip h in
    rw (get_elem?-here pre line (ip ∷ rest), next, op) (ap some (set-here pre line _ (ip ∷ rest)))

pub mark_pairs-with_opcodes :
    (n : ℕ) (code done rest : List ℕ)
    → length rest ≡ n * 2
    → ArePlaced (length code) rest
    → mark_pairs n (length (code ++ done)) ((code ++ done) ++ rest)
      ≡ some ((code ++ done) ++ with_opcodes code rest)
unfolding mark_pairs
mark_pairs-with_opcodes zero code done [] h p = refl
mark_pairs-with_opcodes zero code done (line ∷ rest) h p = absurd (omega arith)
mark_pairs-with_opcodes (suc n) code done [] h p = absurd (omega arith)
mark_pairs-with_opcodes (suc n) code done (line ∷ []) h p = absurd (omega arith)
mark_pairs-with_opcodes (suc n) code done (line ∷ ip ∷ rest) h p =
    let m = bit_or (u32 (line * 2 ^ 8)) (get_or code ip 0) in
    let more = done ++ m ∷ ip ∷ [] in
    let joined : (ys : List ℕ) → (code ++ more) ++ ys ≡ (code ++ done) ++ m ∷ ip ∷ ys = λ ys.
      ap (λ zs. zs ++ ys) (sym (append_assoc code done (m ∷ ip ∷ [])))
      ∙ append_assoc (code ++ done) (m ∷ ip ∷ []) ys in
    let longer : length (code ++ more) ≡ length (code ++ done) + 2 =
      omega (
        arith,
        length-append code more,
        length-append done (m ∷ ip ∷ []),
        length-append code done,
      ) in
    rw (mark_pair-behind code done rest line ip p.0) (
      ap (λ k. mark_pairs n k ((code ++ done) ++ m ∷ ip ∷ rest)) (sym longer)
      ∙ ap (mark_pairs n (length (code ++ more))) (sym (joined rest))
      ∙ mark_pairs-with_opcodes n code more rest (omega arith) p.1
      ∙ ap some (joined (with_opcodes code rest)))
