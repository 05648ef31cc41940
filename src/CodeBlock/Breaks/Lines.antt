-- ===== src/CodeBlock/Breaks/Lines.antt =====
-- engine/console/codeBlock.cc: the list of lines that `calcBreakList` makes, and what it stands for.
use korkscript.Prelude.{
  Bool-cases, List, [], ap, arith, false, inl, inr, length, ltb, refl, suc, true, u32, zero, ℕ,
  ◌++◌, ◌+◌, ◌<◌, ◌==◌, ◌^◌, ◌∙◌, ◌∷◌, ◌≡◌,
}
use korkscript.CodeBlock.Breaks.{
  break_list, break_list_size, count_list, fill_list, flush, gap_to, positive,
}

-- `count` lines in a row.
abbrev pub run_of : ℕ → ℕ → List ℕ
run_of start zero = []
run_of start (suc count) = start ∷ run_of (start + 1) count

-- Lines that are skipped and lines that follow each other, in turn. `follow` is one more than the last line.
abbrev pub expand : ℕ → List ℕ → List ℕ
expand follow [] = []
expand follow (gap ∷ []) = []
expand follow (gap ∷ count ∷ rest) =
    let start = u32 (follow + gap) in run_of start count ++ expand (start + count) rest

abbrev from_count : ℕ → List ℕ → List ℕ
from_count start [] = []
from_count start (count ∷ rest) = run_of start count ++ expand (start + count) rest

-- Lines count from 1, and are not so large that the next one is no `S32`.
abbrev pub AreLines : List ℕ → Type 0
AreLines [] = Unit
AreLines (n ∷ lines) = (0 < n) × (n + 1 < 2 ^ 31) × AreLines lines

expand-gap :
    (follow gap : ℕ) (rest : List ℕ)
    → expand follow (gap ∷ rest) ≡ from_count (u32 (follow + gap)) rest
expand-gap follow gap [] = refl
expand-gap follow gap (count ∷ rest) = refl

gap_lem : (n prev : ℕ) → n < 2 ^ 31 → prev < 2 ^ 31 → u32 (prev + 1 + gap_to n prev) ≡ n
unfolding u32
gap_lem n prev h k = omega arith

run_of-suc :
    (start k : ℕ) (rest : List ℕ)
    → run_of start (suc k) ++ rest ≡ run_of start k ++ (start + k) ∷ rest
run_of-suc start zero rest = ap (λ x. x ∷ rest) (omega arith)
run_of-suc start (suc k) rest =
    ap (λ x. start ∷ x)
      (run_of-suc (start + 1) k rest ∙ ap (λ x. run_of (start + 1) k ++ x ∷ rest) (omega arith))

flush-suc : (k : ℕ) (rest : List ℕ) → flush (suc k) rest ≡ suc k ∷ rest
flush-suc k rest = let e : (suc k == 0) ≡ false = ground arith in rw e refl

line_after : (n : ℕ) → n + 1 < 2 ^ 31 → u32 (n + 1) ≡ n + 1
unfolding u32
line_after n h = omega arith

positive_lem : (n : ℕ) → n + 1 < 2 ^ 31 → positive n ≡ n
positive_lem n h = let e : ltb n (2 ^ 31) ≡ true = ground (arith, h) in rw e refl

fill_same :
    (seq_count follow prev n : ℕ) (lines : List ℕ)
    → n + 1 < 2 ^ 31
    → (n == follow) ≡ true
    → fill_list seq_count follow prev (n ∷ lines) ≡ fill_list (seq_count + 1) (n + 1) n lines
unfolding fill_list
fill_same seq_count follow prev n lines h e = rw (e, line_after n h, positive_lem n h) refl

fill_new :
    (seq_count follow prev n : ℕ) (lines : List ℕ)
    → n + 1 < 2 ^ 31
    → (n == follow) ≡ false
    → fill_list seq_count follow prev (n ∷ lines)
      ≡ flush seq_count (gap_to n prev ∷ fill_list 1 (n + 1) n lines)
unfolding fill_list
fill_new seq_count follow prev n lines h e = rw (e, line_after n h, positive_lem n h) refl

plus_one : (start k : ℕ) → start + suc k ≡ start + k + 1
plus_one start k = omega arith

-- With a run of k + 1 lines to be written that began at `start`.
from_count-fill_list :
    (lines : List ℕ) (start k : ℕ)
    → start + k + 1 < 2 ^ 31
    → AreLines lines
    → from_count start (fill_list (suc k) (start + k + 1) (start + k) lines)
      ≡ run_of start (suc k) ++ lines
unfolding fill_list
from_count-fill_list [] start k h a = ap (from_count start) (flush-suc k [])
from_count-fill_list (n ∷ lines) start k h a = elim (Bool-cases (n == start + k + 1)) [
  | inl e ↦
      let q : n ≡ start + suc k = ground (arith, e) in
      let more : suc k + 1 ≡ suc (suc k) = omega arith in
      ap (from_count start) (fill_same (suc k) (start + k + 1) (start + k) n lines a.1 e)
      ∙ rw (more, q)
          (from_count-fill_list lines start (suc k) (omega (arith, a.1, q)) a.2
            ∙ run_of-suc start (suc k) lines)
  | inr e ↦
      let late : u32 (start + suc k + gap_to n (start + k)) ≡ n =
        ap (λ x. u32 (x + gap_to n (start + k))) (plus_one start k)
        ∙ gap_lem n (start + k) (omega (arith, a.1)) (omega (arith, h)) in
      let one : n ≡ n + 0 = omega arith in
      ap (from_count start)
        (fill_new (suc k) (start + k + 1) (start + k) n lines a.1 e ∙ flush-suc k _)
      ∙ ap (λ x. run_of start (suc k) ++ x)
          (expand-gap (start + suc k) (gap_to n (start + k)) (fill_list 1 (n + 1) n lines)
            ∙ ap (λ x. from_count x (fill_list 1 (n + 1) n lines)) late
            ∙ ap (λ x. from_count n (fill_list 1 (x + 1) x lines)) one
            ∙ from_count-fill_list lines n 0 (omega (arith, a.1)) a.2)
]

-- For lines from 1 on and below 2^31 - 1, in any order: the list that `calcBreakList` makes, read as lines
-- that are skipped and lines that follow each other, gives the lines back.
pub expand-break_list : (lines : List ℕ) → AreLines lines → expand 1 (break_list lines) ≡ lines
unfolding break_list fill_list
expand-break_list [] a = refl
expand-break_list (n ∷ lines) a =
    let new : (n == 0) ≡ false = ground (arith, a.0) in
    let one : n ≡ n + 0 = omega arith in
    ap (expand 1) (fill_new 0 0 0 n lines a.1 new)
    ∙ expand-gap 1 (gap_to n 0) (fill_list 1 (n + 1) n lines)
    ∙ ap (λ x. from_count x (fill_list 1 (n + 1) n lines))
        (gap_lem n 0 (omega (arith, a.1)) (omega arith))
    ∙ ap (λ x. from_count n (fill_list 1 (x + 1) x lines)) one
    ∙ from_count-fill_list lines n 0 (omega (arith, a.1)) a.2

count_list-fill_list :
    (lines : List ℕ) (seq_count follow prev size : ℕ)
    → count_list seq_count follow lines size ≡ size + length (fill_list seq_count follow prev lines)
unfolding count_list fill_list
count_list-fill_list [] seq_count follow prev size = elim (Bool-cases (seq_count == 0)) [
  | inl e ↦ rw e (omega arith)
  | inr e ↦ rw e (omega arith)
]
count_list-fill_list (n ∷ lines) seq_count follow prev size = elim (Bool-cases (n == follow)) [
  | inl e ↦ rw e (count_list-fill_list lines (seq_count + 1) (u32 (n + 1)) (positive n) size)
  | inr e ↦ elim (Bool-cases (seq_count == 0)) [
    | inl z ↦
        rw (e, z)
          (omega (arith, count_list-fill_list lines 1 (u32 (n + 1)) (positive n) (size + 1)))
    | inr z ↦
        rw (e, z)
          (omega (arith, count_list-fill_list lines 1 (u32 (n + 1)) (positive n) (size + 1 + 1)))
  ]
]

-- For any lines: the first pass of `calcBreakList` counts as many numbers as the second one stores.
pub break_list_size-break_list :
    (lines : List ℕ) → break_list_size lines ≡ length (break_list lines)
unfolding break_list_size break_list
break_list_size-break_list lines = omega (arith, count_list-fill_list lines 0 0 0 0)
