-- ===== src/Escape/Gaps.antt =====
-- engine/core/escape.cc: how `collapseEscape` closes the gap behind an escape.
use korkscript.Prelude.{
  Bytes, [], ap, append_assoc, arith, drop, get_elem?, leb, length, length-append, put_bytes, refl,
  set, some, suc, sym, take, true, ℕ, ◌++◌, ◌+◌, ◌-◌, ◌∙◌, ◌∷◌, ◌≡◌, ◌≤◌,
}
use korkscript.Escape.{Collapse, close_gap, go, mem_move, moved_to}

pub get_elem?-behind :
    (done ys : Bytes) (k : ℕ) → get_elem? (done ++ ys) (length done + k) ≡ get_elem? ys k
get_elem?-behind [] ys k = let same : 0 + k ≡ k = omega arith in ap (get_elem? ys) same
get_elem?-behind (x ∷ done) ys k =
    let more : suc (length done) + k ≡ suc (length done + k) = omega arith in
    rw more (get_elem?-behind done ys k)

set-behind : (done ys : Bytes) (x c : ℕ) → set (done ++ x ∷ ys) (length done) c ≡ done ++ c ∷ ys
set-behind [] ys x c = refl
set-behind (y ∷ done) ys x c = ap (λ zs. y ∷ zs) (set-behind done ys x c)

drop-behind : (xs ys : Bytes) (k : ℕ) → drop (length xs + k) (xs ++ ys) ≡ drop k ys
drop-behind [] ys k = let same : 0 + k ≡ k = omega arith in ap (λ i. drop i ys) same
drop-behind (x ∷ xs) ys k =
    let more : suc (length xs) + k ≡ suc (length xs + k) = omega arith in
    rw more (drop-behind xs ys k)

take_prefix : (xs ys : Bytes) → take (length xs) (xs ++ ys) ≡ xs
take_prefix [] ys = refl
take_prefix (x ∷ xs) ys = ap (λ zs. x ∷ zs) (take_prefix xs ys)

drop_prefix : (xs ys : Bytes) → drop (length xs) (xs ++ ys) ≡ ys
drop_prefix [] ys = refl
drop_prefix (x ∷ xs) ys = drop_prefix xs ys

put_bytes-behind :
    (xs done ys : Bytes)
    → length xs ≤ length ys
    → put_bytes xs (length done) (done ++ ys) ≡ done ++ (xs ++ drop (length xs) ys)
unfolding put_bytes
put_bytes-behind [] done ys h = refl
put_bytes-behind (x ∷ xs) done [] h = absurd (omega arith)
put_bytes-behind (x ∷ xs) done (y ∷ ys) h =
    let longer : length done + 1 ≡ length (done ++ x ∷ []) =
      omega (arith, length-append done (x ∷ [])) in
    let shift = append_assoc done (x ∷ []) ys in
    rw (set-behind done ys y x, longer, ← shift)
      (put_bytes-behind xs (done ++ x ∷ []) ys (omega arith)
        ∙ append_assoc done (x ∷ []) (xs ++ drop (length xs) ys))

abbrev pub state : Bytes → Bytes → ℕ → Collapse
state done rest len = record { buf = done ++ rest; i = length done; len = len }

-- What is left behind the bytes that moved.
abbrev pub leftover : Bytes → Bytes → Bytes → Bytes
leftover mid moved behind = drop (length moved) (mid ++ (moved ++ behind))

mem_move_lem :
    (done mid moved behind : Bytes) (c : ℕ)
    → mem_move
        (length done + 1)
        (length done + (length mid + 1))
        (length moved)
        (done ++ (c ∷ (mid ++ (moved ++ behind))))
      ≡ some (done ++ (c ∷ (moved ++ leftover mid moved behind)))
unfolding mem_move
mem_move_lem done mid moved behind c =
    let tail = mid ++ (moved ++ behind) in
    let all = length-append done (c ∷ tail) in
    let some_more = length-append mid (moved ++ behind) in
    let more = length-append moved behind in
    let from : length done + (length mid + 1) ≡ length (done ++ c ∷ []) + length mid =
      omega (arith, length-append done (c ∷ [])) in
    let shift = sym (append_assoc done (c ∷ []) tail) in
    let longer : length done + 1 ≡ length (done ++ c ∷ []) =
      omega (arith, length-append done (c ∷ [])) in
    let fits : leb (length done + (length mid + 1) + length moved) (length (done ++ c ∷ tail))
        ≡ true =
      ground (arith, all, some_more, more) in
    let read : take (length moved) (drop (length done + (length mid + 1)) (done ++ c ∷ tail))
        ≡ moved =
      ap (λ zs. take (length moved) (drop (length done + (length mid + 1)) zs)) shift
      ∙ ap (λ p. take (length moved) (drop p ((done ++ c ∷ []) ++ tail))) from
      ∙ ap (take (length moved))
          (drop-behind (done ++ c ∷ []) tail (length mid) ∙ drop_prefix mid (moved ++ behind))
      ∙ take_prefix moved behind in
    let to : put_bytes moved (length done + 1) (done ++ c ∷ tail)
        ≡ done ++ (c ∷ (moved ++ leftover mid moved behind)) =
      ap (put_bytes moved (length done + 1)) shift
      ∙ ap (λ p. put_bytes moved p ((done ++ c ∷ []) ++ tail)) longer
      ∙ put_bytes-behind moved (done ++ c ∷ []) tail (omega (arith, some_more, more))
      ∙ append_assoc done (c ∷ []) (moved ++ leftover mid moved behind) in
    rw (fits, read, to) refl

pub close_gap_lem :
    (done mid moved behind : Bytes) (x c len gone : ℕ)
    → close_gap c
        (length mid + 1)
        (length moved)
        gone
        (state done (x ∷ (mid ++ (moved ++ behind))) len)
      ≡ go (record {
        buf = done ++ (c ∷ (moved ++ leftover mid moved behind));
        i = length done + 1;
        len = len - gone;
      })
unfolding close_gap
close_gap_lem done mid moved behind x c len gone =
    ap
      (λ buf.
        moved_to (length done + 1) (len - gone)
          (mem_move (length done + 1) (length done + (length mid + 1)) (length moved) buf))
      (set-behind done (mid ++ (moved ++ behind)) x c)
    ∙ ap (moved_to (length done + 1) (len - gone)) (mem_move_lem done mid moved behind c)
