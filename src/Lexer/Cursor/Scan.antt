-- ===== src/Lexer/Cursor/Scan.antt =====
-- engine/console/simpleLexer.h: lemmas on the scanners of documentation, words and operators.
use korkscript.Prelude.{
  Bool-cases, Bytes, List, Option, [], arith, codes, false, if◌then◌else◌, inl, inr, length,
  length-set, none, refl, set, some, suc, true, zero, ℕ, ◌+◌, ◌-◌, ◌<◌, ◌==◌, ◌∙◌, ◌∷◌, ◌≡◌, ◌≢◌,
}
use korkscript.Lexer.Cursor.{
  Follows, Follows-refl, Follows-trans, IsValid, Passes, advance-Follows, advance-Passes,
  advance_n-Passes, advance_newline-Passes, eof-inside, peek-eof,
}
use korkscript.Lexer.Cursor.Decode.{
  SliceFits, compact_write_bounds, length-compact, length-zero_fill, u32-le,
}
use korkscript.Lexer.Decode.{compact}
use korkscript.Lexer.Scan.{
  concat_at, doc_line, doc_lines, doc_newline, doc_round, emit_op, find_op, looks_at,
  match_docblock_start, match_word, multi_ops, scan_docblock, scan_magic_atoms, scan_multi_ops,
}
use korkscript.Lexer.State.{Tokenizer, advance, bpeek2, eof, fuel_of, make, make_concat, peek}
use korkscript.Lexer.Token.{Token, TokenType}

store_Follows :
    (t : Tokenizer) (buf : Bytes)
    → length buf ≡ length t.source
    → IsValid t
    → Follows t (record t { source = buf })
store_Follows t buf e v = record {
  same_length = e;
  forward = omega arith;
  inside = omega arith;
  same_spins = refl;
}

eof_source :
    (t : Tokenizer) (buf : Bytes)
    → length buf ≡ length t.source
    → eof (record t { source = buf }) 0 ≡ eof t 0
unfolding eof
eof_source t buf e = rw e

doc_line-Follows :
    (fuel : ℕ) (t : Tokenizer)
    → IsValid t
    → length t.source < fuel + t.byte_pos
    → Follows t (doc_line fuel t)
unfolding doc_line
doc_line-Follows zero t v h = absurd (omega arith)
doc_line-Follows (suc fuel) t v h = elim (Bool-cases (eof t 0)) [
  | inl e ↦ rw e (Follows-refl t v)
  | inr e ↦
      let a = advance-Passes t e in
      let kept = doc_line-Follows fuel (advance t) a.follows.inside (omega (arith, a)) in
      let s = record t { source = set t.source t.byte_pos 0 } in
      let same = length-set t.source t.byte_pos 0 in
      let z = store_Follows t s.source same v in
      let b = advance-Passes s (eof_source t s.source same ∙ e) in
      let stripped = doc_line-Follows fuel (advance s) b.follows.inside (omega (arith, b, same)) in
      rw e (
        ground (
          arith,
          Follows-refl t v,
          Follows-trans t (advance t) (doc_line fuel (advance t)) a.follows kept,
          Follows-trans t (advance s) (doc_line fuel (advance s))
              (Follows-trans t s (advance s) z b.follows) stripped,
        ))
]

match_docblock_start-eof : (t : Tokenizer) → match_docblock_start t ≡ true → eof t 0 ≡ false
unfolding match_docblock_start bpeek2
match_docblock_start-eof t h = peek-eof t 0 (λ z. ground arith)

-- A byte 2 further on is there, so the three slashes are.
match_docblock_start-room :
    (t : Tokenizer) → match_docblock_start t ≡ true → t.byte_pos + 3 < length t.source
unfolding match_docblock_start bpeek2
match_docblock_start-room t h = omega (arith, eof-inside t 2 (peek-eof t 2 (λ z. ground arith)))

doc_newline-Follows : (t : Tokenizer) → IsValid t → Follows t (doc_newline t)
unfolding doc_newline
doc_newline-Follows t v = elim (Bool-cases (eof t 0)) [
  | inl e ↦ rw e (Follows-refl t v)
  | inr e ↦ rw e (ground (arith, Follows-refl t v, advance_newline-Passes t e))
]

doc_round-Passes : (t : Tokenizer) → match_docblock_start t ≡ true → Passes t (doc_round t)
unfolding doc_round
doc_round-Passes t h =
    let p = t.byte_pos in
    let s = record t { source = set (set (set t.source p 0) (p + 1) 0) (p + 2) 0 } in
    let e = match_docblock_start-eof t h in
    let same : length s.source ≡ length t.source = simp length-set in
    let z = store_Follows t s.source same (omega (arith, match_docblock_start-room t h)) in
    let a = advance-Passes s (eof_source t s.source same ∙ e) in
    let b = advance-Follows (advance s) a.follows.inside in
    let c = advance-Follows (advance (advance s)) b.inside in
    let d =
      doc_line-Follows (fuel_of t) (advance (advance (advance s))) c.inside
        (omega (arith, same, a, b, c)) in
    omega (
      arith,
      z,
      a,
      b,
      c,
      d,
      doc_newline-Follows (doc_line (fuel_of t) (advance (advance (advance s)))) d.inside,
    )

doc_lines-Follows :
    (fuel : ℕ) (t : Tokenizer)
    → IsValid t
    → length t.source < fuel + t.byte_pos
    → Follows t (doc_lines fuel t)
unfolding doc_lines
doc_lines-Follows zero t v h = absurd (omega arith)
doc_lines-Follows (suc fuel) t v h = elim (Bool-cases (match_docblock_start t)) [
  | inl e ↦
      let a = doc_round-Passes t e in
      rw (e, doc_lines)
        (Follows-trans t (doc_round t) _ a.follows
          (doc_lines-Follows fuel (doc_round t) a.follows.inside (omega (arith, a))))
  | inr e ↦ rw (e, doc_lines) (Follows-refl t v)
]

-- A scanner's result: the state is further on, and a slice of the token lies in its buffer.
abbrev pub ScansTo : Tokenizer → Token × Tokenizer → Type 0
ScansTo t (tok, u) = Passes t u × SliceFits u tok.val

pub scan_docblock-ScansTo :
    (t : Tokenizer) → match_docblock_start t ≡ true → ScansTo t (scan_docblock t)
unfolding scan_docblock doc_lines
scan_docblock-ScansTo t h =
    let a = doc_round-Passes t h in
    let s = doc_lines (length t.source) (doc_round t) in
    let f = doc_lines-Follows (length t.source) (doc_round t) a.follows.inside (omega (arith, a)) in
    let packed = compact (s.byte_pos - t.byte_pos) t.byte_pos t.byte_pos s.source in
    let bounds =
      compact_write_bounds (s.byte_pos - t.byte_pos) t.byte_pos t.byte_pos s.source (omega arith) in
    let same =
      length-zero_fill (s.byte_pos - packed.1) packed.1 packed.0
      ∙ length-compact (s.byte_pos - t.byte_pos) t.byte_pos t.byte_pos s.source in
    rw (h, doc_lines)
      (
        omega (arith, a, f, same),
        omega (arith, same, a, f, bounds, u32-le t.byte_pos, u32-le (packed.1 - t.byte_pos)),
      )

-- The same of an optional result.
abbrev pub MayScan : Tokenizer → Option (Token × Tokenizer) → Type 0
MayScan t none = Unit
MayScan t (some p) = ScansTo t p

looks_at-eof :
    (t : Tokenizer) (c : ℕ) (w : Bytes) → c ≢ 0 → looks_at t 0 (c ∷ w) ≡ true → eof t 0 ≡ false
unfolding looks_at
looks_at-eof t c w n h = peek-eof t 0 (λ z. ground arith)

match_word-Passes :
    (t u : Tokenizer) (c : ℕ) (w : Bytes)
    → IsValid t
    → c ≢ 0
    → match_word t (c ∷ w) ≡ some u
    → Passes t u
unfolding match_word
match_word-Passes t u c w v n h =
    ground (arith, looks_at-eof t c w n, advance_n-Passes (length (c ∷ w)) t v)

concat_at-MayScan :
    (t : Tokenizer) (m : Option Tokenizer) (ch : ℕ) (other : Option (Token × Tokenizer))
    → ((u : Tokenizer) → m ≡ some u → Passes t u)
    → MayScan t other
    → MayScan t (concat_at m ch other)
unfolding make_concat
concat_at-MayScan t none ch other h k = k
concat_at-MayScan t (some u) ch other h k = (h u refl, tt)

pub scan_magic_atoms-MayScan : (t : Tokenizer) → IsValid t → MayScan t (scan_magic_atoms t)
unfolding scan_magic_atoms
scan_magic_atoms-MayScan t v =
    let word = λ (u : Tokenizer) (c : ℕ) (w : Bytes). match_word-Passes t u c w v in
    concat_at-MayScan t _ b'\n' _ (λ u. word u b'N' (codes "L") (omega arith))
      (concat_at-MayScan t _ b'\t' _ (λ u. word u b'T' (codes "AB") (omega arith))
        (concat_at-MayScan t _ b' ' _ (λ u. word u b'S' (codes "PC") (omega arith)) at_sign))
  where
    at_sign :
        MayScan t (if peek t 0 == b'@' then some (make_concat 0 (advance t), advance t) else none)
    at_sign = elim (Bool-cases (peek t 0 == b'@')) [
      | inl e ↦ rw e (advance-Passes t (peek-eof t 0 (λ z. ground arith)), unfold make_concat in tt)
      | inr e ↦ rw e tt
    ]

-- An operator found has at least one byte, and the cursor is not at the end.
abbrev OpFits : Tokenizer → Option (TokenType × ℕ) → Type 0
OpFits t none = Unit
OpFits t (some (k, n)) = (0 < n) × (eof t 0 ≡ false)

-- No operator of the table is empty or begins with the terminator.
abbrev Begins : List (Bytes × TokenType) → Type 0
Begins [] = Unit
Begins (([], k) ∷ ops) = ⊥
Begins ((c ∷ w, k) ∷ ops) = (0 < c) × Begins ops

find_op-OpFits :
    (t : Tokenizer) (ops : List (Bytes × TokenType)) → Begins ops → OpFits t (find_op t ops)
unfolding find_op
find_op-OpFits t [] h = tt
find_op-OpFits t (([], k) ∷ ops) h = elim h [ ]
find_op-OpFits t ((c ∷ w, k) ∷ ops) h = elim (Bool-cases (looks_at t 0 (c ∷ w))) [
  | inl e ↦ rw e (omega arith, looks_at-eof t c w (omega arith) e)
  | inr e ↦ rw e (find_op-OpFits t ops h.1)
]

emit_op-MayScan :
    (t : Tokenizer) (r : Option (TokenType × ℕ)) → IsValid t → OpFits t r → MayScan t (emit_op t r)
unfolding make
emit_op-MayScan t none v h = tt
emit_op-MayScan t (some (k, n)) v h = (advance_n-Passes n t v h.1 h.0, tt)

pub scan_multi_ops-MayScan : (t : Tokenizer) → IsValid t → MayScan t (scan_multi_ops t)
unfolding scan_multi_ops
scan_multi_ops-MayScan t v =
    emit_op-MayScan t (find_op t multi_ops) v (find_op-OpFits t multi_ops (omega arith))
