-- ===== src/Lexer/Longest.antt =====
-- engine/console/simpleLexer.h: the order of the operators in `scanMultiOps`.
use korkscript.Prelude.{
  Bool, Bool-cases, Bytes, List, [], ap, arith, false, get_elem?, inl, inr, length, ltb, not, refl,
  some, some-injective, suc, true, zero, ℕ, ◌&&◌, ◌+◌, ◌==◌, ◌∷◌, ◌≡◌, ◌≤◌,
}
use korkscript.Lexer.Scan.{emit_op, find_op, looks_at, multi_ops, scan_multi_ops}
use korkscript.Lexer.State.{Tokenizer, advance_n, make}
use korkscript.Lexer.Token.{TokenType}

abbrev is_prefix : Bytes → Bytes → Bool
is_prefix [] ys = true
is_prefix (x ∷ xs) [] = false
is_prefix (x ∷ xs) (y ∷ ys) = x == y && is_prefix xs ys

-- No operator of the list is longer than `w` and begins with it.
abbrev none_longer : Bytes → List (Bytes × TokenType) → Bool
none_longer w [] = true
none_longer w ((v, k) ∷ ops) = not (ltb (length w) (length v) && is_prefix w v) && none_longer w ops

abbrev ordered : List (Bytes × TokenType) → Bool
ordered [] = true
ordered ((w, k) ∷ ops) = none_longer w ops && ordered ops

looks_at-is_prefix :
    (t : Tokenizer) (i : ℕ) (w v : Bytes)
    → looks_at t i w ≡ true
    → looks_at t i v ≡ true
    → length w ≤ length v
    → is_prefix w v ≡ true
unfolding looks_at
looks_at-is_prefix t i [] v h k n = refl
looks_at-is_prefix t i (x ∷ w) [] h k n = absurd (omega arith)
looks_at-is_prefix t i (x ∷ w) (y ∷ v) h k n = ground (arith, looks_at-is_prefix t (i + 1) w v)

not_and : (a b : Bool) → (not a && b) ≡ true → a ≡ false
not_and false b h = refl
not_and true b h = absurd (ground arith)

le_of_not : (m n : ℕ) (b : Bool) → (ltb m n && b) ≡ false → (m ≤ n → b ≡ true) → n ≤ m
le_of_not m n b h k = elim (Bool-cases (ltb m n)) [
  | inl e ↦ let p : b ≡ true = k (ground arith) in ground arith
  | inr e ↦ ground arith
]

none_longer_lem :
    (w v : Bytes) (k : TokenType) (ops : List (Bytes × TokenType)) (i : ℕ)
    → none_longer w ops ≡ true
    → get_elem? ops i ≡ some (v, k)
    → (ltb (length w) (length v) && is_prefix w v) ≡ false
none_longer_lem w v k [] i h e = absurd (ground arith)
none_longer_lem w v k ((x, l) ∷ ops) zero h e =
    let p : x ≡ v = ap (λ z. z.0) (some-injective _ _ e) in
    rw (← p) (not_and (ltb (length w) (length x) && is_prefix w x) (none_longer w ops) h)
none_longer_lem w v k ((x, l) ∷ ops) (suc i) h e = none_longer_lem w v k ops i (ground arith) e

-- An operator of the list that stands at the cursor, at least as long as `w`, is the one that the
-- walk finds.
pub record FindsLongest (t : Tokenizer) (ops : List (Bytes × TokenType)) (w : Bytes) : Type 0 where
  pub index : ℕ
  pub op : Bytes
  pub kind : TokenType
  pub listed : get_elem? ops index ≡ some (op, kind)
  pub stands : looks_at t 0 op ≡ true
  pub longest : length w ≤ length op
  pub found : find_op t ops ≡ some (kind, length op)

find_op-FindsLongest :
    (t : Tokenizer) (ops : List (Bytes × TokenType)) (w : Bytes) (k : TokenType) (i : ℕ)
    → ordered ops ≡ true
    → get_elem? ops i ≡ some (w, k)
    → looks_at t 0 w ≡ true
    → FindsLongest t ops w
unfolding find_op
find_op-FindsLongest t [] w k i o e h = absurd (ground arith)
find_op-FindsLongest t ((v, l) ∷ ops) w k zero o e h =
    let p : v ≡ w = ap (λ z. z.0) (some-injective _ _ e) in
    let here : looks_at t 0 v ≡ true = rw p h in
    record {
      index = 0;
      op = v;
      kind = l;
      listed = refl;
      stands = here;
      longest = rw p (omega arith);
      found = rw here refl;
    }
find_op-FindsLongest t ((v, l) ∷ ops) w k (suc i) o e h = elim (Bool-cases (looks_at t 0 v)) [
  | inl here ↦ record {
    index = 0;
    op = v;
    kind = l;
    listed = refl;
    stands = here;
    longest =
        le_of_not (length v) (length w) (is_prefix v w)
          (none_longer_lem v w k ops i (ground arith) e) (looks_at-is_prefix t 0 v w here h);
    found = rw here refl;
  }
  | inr gone ↦
      let r = find_op-FindsLongest t ops w k i (ground arith) e h in
      record {
        index = suc r.index;
        op = r.op;
        kind = r.kind;
        listed = r.listed;
        stands = r.stands;
        longest = r.longest;
        found = rw gone r.found;
      }
]

-- Wherever an operator of the language stands at the cursor, `scanMultiOps` takes an operator that
-- stands there and is at least as long: the token has its kind and the position in front of it, and
-- the cursor moves over exactly its bytes.
pub scan_multi_ops-longest :
    (t : Tokenizer) (w : Bytes) (k : TokenType) (i : ℕ)
    → get_elem? multi_ops i ≡ some (w, k)
    → looks_at t 0 w ≡ true
    → (r : FindsLongest t multi_ops w) × (scan_multi_ops t
        ≡ some (make r.kind t, advance_n (length r.op) t))
unfolding scan_multi_ops
scan_multi_ops-longest t w k i e h =
    let r = find_op-FindsLongest t multi_ops w k i refl e h in (r, ap (emit_op t) r.found)
