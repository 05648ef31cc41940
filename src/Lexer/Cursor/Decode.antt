-- ===== src/Lexer/Cursor/Decode.antt =====
-- engine/console/simpleLexer.h: lemmas on `decodeStringInPlace`, its buffer and its cursor.
use korkscript.Prelude.{
  Bool, Bool-cases, Bytes, Option, ap, arith, false, get_or, if◌then◌else◌, inl, inr, leb, length,
  length-set, none, refl, set, some, suc, true, u32, zero, ℕ, ◌+◌, ◌-◌, ◌<◌, ◌∙◌, ◌≡◌, ◌≤◌, ◌⊎◌,
}
use korkscript.Lexer.Cursor.{Follows, Follows-refl, IsValid}
use korkscript.Lexer.Decode.{
  Decoded, Decoder, Round, closed, color_byte, compact, conv_escape, decode_escape, decode_finish,
  decode_loop, decode_round, decode_string, go, hex_val, put_color, put_escape, put_hex, refused,
  zero_fill,
}
use korkscript.Lexer.State.{Tokenizer, make, make_illegal}
use korkscript.Lexer.Token.{TokenType, TokenValue, illegal, string_value}

pub record Steps (buf_end : ℕ) (d e : Decoder) : Type 0 where
  pub same_length : length e.buf ≡ length d.buf
  pub further : d.idx < e.idx
  pub inside : e.idx ≤ buf_end

-- The round goes on behind at least one byte, or ends the literal behind its quote.
abbrev pub Rounds : ℕ → Decoder → Round → Type 0
Rounds buf_end d (go e) = Steps buf_end d e
Rounds buf_end d (closed c e) = Steps buf_end d e
Rounds buf_end d (refused e) = e ≡ d

length-set_if :
    (b : Bool) (xs : Bytes) (i v : ℕ) → length (if b then set xs i v else xs) ≡ length xs
length-set_if true xs i v = length-set xs i v
length-set_if false xs i v = refl

put_escape-Steps :
    (buf_end n byte : ℕ) (d : Decoder)
    → 0 < n
    → d.idx + n ≤ buf_end
    → Steps buf_end d (put_escape n byte d)
unfolding put_escape
put_escape-Steps buf_end n byte d p h = record {
  same_length = simp (length-set_if, length-set);
  further = omega arith;
  inside = h;
}

put_hex-Rounds :
    (buf_end : ℕ) (h1 h2 : Option ℕ) (d : Decoder)
    → d.idx + 4 ≤ buf_end
    → Rounds buf_end d (put_hex h1 h2 d)
unfolding put_hex
put_hex-Rounds buf_end (some h1) (some h2) d h = put_escape-Steps buf_end 4 _ d (omega arith) h
put_hex-Rounds buf_end (some h1) none d h = refl
put_hex-Rounds buf_end none h2 d h = refl

put_color-Rounds :
    (buf_end : ℕ) (b : Option ℕ) (d : Decoder)
    → d.idx + 3 ≤ buf_end
    → Rounds buf_end d (put_color b d)
unfolding put_color
put_color-Rounds buf_end (some b) d h = put_escape-Steps buf_end 3 b d (omega arith) h
put_color-Rounds buf_end none d h = refl

decode_escape-Rounds : (buf_end : ℕ) (d : Decoder) → Rounds buf_end d (decode_escape buf_end d)
unfolding decode_escape
decode_escape-Rounds buf_end d = ground (
  arith,
  put_hex-Rounds buf_end (hex_val (get_or d.buf (d.idx + 1 + 1) 0))
      (hex_val (get_or d.buf (d.idx + 1 + 2) 0)) d,
  put_color-Rounds buf_end (color_byte (get_or d.buf (d.idx + 1 + 1) 0)) d,
  put_escape-Steps buf_end 2 (conv_escape (get_or d.buf (d.idx + 1) 0)) d,
)

pub decode_round-Rounds :
    (buf_end quote alt_quote : ℕ) (d : Decoder)
    → Rounds buf_end d (decode_round buf_end quote alt_quote d)
unfolding decode_round
decode_round-Rounds buf_end quote alt_quote d =
    ground (arith, decode_escape-Rounds buf_end d, length-set d.buf d.idx 0)

-- Where the marking pass may end.
abbrev pub Ends : ℕ → Decoder → Option Round → Type 0
Ends buf_end d none = ⊥
Ends buf_end d (some (go e)) = ⊥
Ends buf_end d (some (closed c e)) = Steps buf_end d e
Ends buf_end d (some (refused e)) =
    (length e.buf ≡ length d.buf) × (d.idx ≤ e.idx) × (e.idx ≤ buf_end)

Ends-trans :
    (buf_end : ℕ) (d e : Decoder) (r : Option Round)
    → Steps buf_end d e
    → Ends buf_end e r
    → Ends buf_end d r
Ends-trans buf_end d e (some (closed c f)) s h = omega arith
Ends-trans buf_end d e (some (refused f)) s h = omega arith
Ends-trans buf_end d e (some (go f)) s h = elim h [ ]
Ends-trans buf_end d e none s h = elim h [ ]

-- With fuel for the rest of the buffer the pass ends.
pub decode_loop-Ends :
    (fuel buf_end quote alt_quote : ℕ) (d : Decoder)
    → buf_end < fuel + d.idx
    → d.idx ≤ buf_end
    → Ends buf_end d (decode_loop fuel buf_end quote alt_quote d)
unfolding decode_loop
decode_loop-Ends zero buf_end quote alt_quote d h k = absurd (omega arith)
decode_loop-Ends (suc fuel) buf_end quote alt_quote d h k =
    split (λ e. decode_loop-Ends fuel buf_end quote alt_quote e)
      (decode_round buf_end quote alt_quote d) refl (decode_round-Rounds buf_end quote alt_quote d)
  where
    split :
        ((e : Decoder)
          → buf_end < fuel + e.idx
          → e.idx ≤ buf_end
          → Ends buf_end e (decode_loop fuel buf_end quote alt_quote e))
        → (r : Round) → decode_round buf_end quote alt_quote d ≡ r
        → Rounds buf_end d r
        → Ends buf_end d (decode_loop (suc fuel) buf_end quote alt_quote d)
    split ih (go e) q s =
        rw (q, decode_loop) (Ends-trans buf_end d e _ s (ih e (omega arith) s.inside))
    split ih (closed c e) q s = rw (q, decode_loop) s
    split ih (refused e) q s = rw (q, decode_loop) (rw s (refl, omega arith, k))

pub length-compact :
    (n read write : ℕ) (buf : Bytes) → length (compact n read write buf).0 ≡ length buf
unfolding compact
length-compact zero read write buf = refl
length-compact (suc n) read write buf =
    let b = get_or buf read 0 in
    ground (
      arith,
      length-compact n (read + 1) (write + 1) (set buf write b),
      length-compact n (read + 1) write buf,
      length-set buf write b,
    )

-- The write position stays between its start and the read position.
pub compact_write_bounds :
    (n read write : ℕ) (buf : Bytes)
    → write ≤ read
    → (write ≤ (compact n read write buf).1) × ((compact n read write buf).1 ≤ read + n)
unfolding compact
compact_write_bounds zero read write buf h = omega arith
compact_write_bounds (suc n) read write buf h =
    let b = get_or buf read 0 in
    ground (
      arith,
      compact_write_bounds n (read + 1) (write + 1) (set buf write b),
      compact_write_bounds n (read + 1) write buf,
    )

pub length-zero_fill : (n i : ℕ) (buf : Bytes) → length (zero_fill n i buf) ≡ length buf
unfolding zero_fill
length-zero_fill zero i buf = refl
length-zero_fill (suc n) i buf = length-zero_fill n (i + 1) (set buf i 0) ∙ length-set buf i 0

-- A slice of the buffer lies within it.
abbrev pub SliceFits : Tokenizer → TokenValue → Type 0
SliceFits t (string_value offset len) = offset + len ≤ length t.source
SliceFits t _ = Unit

pub u32-le : (n : ℕ) → u32 n ≤ n
unfolding u32
u32-le n = omega arith

-- What a decoded literal leaves behind: the state follows, the slice lies in the buffer, and only a
-- refused literal, which reports no quote, may leave the cursor where it was.
abbrev pub DecodedFrom : Tokenizer → Option Decoded → Type 0
DecodedFrom t none = ⊥
DecodedFrom t (some d) =
    Follows t d.state
    × SliceFits d.state (d.tok).val
    × ((t.byte_pos < (d.state).byte_pos) ⊎ ((d.tok).kind ≡ illegal) × (d.quote ≡ 0))

decode_finish-DecodedFrom :
    (t : Tokenizer) (kind : TokenType) (start : ℕ) (d : Decoder) (r : Option Round)
    → IsValid t
    → t.byte_pos ≤ start
    → d.buf ≡ t.source
    → d.idx ≡ start
    → Ends (length t.source) d r
    → DecodedFrom t (decode_finish t kind start r)
unfolding decode_finish make make_illegal
decode_finish-DecodedFrom t kind start d none v h p q k = elim k [ ]
decode_finish-DecodedFrom t kind start d (some (go e)) v h p q k = elim k [ ]
decode_finish-DecodedFrom t kind start d (some (refused e)) v h p q k = (
  record {
    same_length = k.0 ∙ ap length p;
    forward = omega arith;
    same_spins = refl;
    inside = omega (arith, ap length p);
  },
  tt,
  inr (refl, refl),
)
decode_finish-DecodedFrom t kind start d (some (closed c e)) v h p q k =
    let boundary = e.idx - 1 in
    let packed = compact (boundary - start) start start e.buf in
    let bounds = compact_write_bounds (boundary - start) start start e.buf (omega arith) in
    let same =
      length-zero_fill (boundary - packed.1) packed.1 packed.0
      ∙ length-compact (boundary - start) start start e.buf in
    (
      record {
        same_length = omega (arith, same, ap length p);
        forward = omega arith;
        same_spins = refl;
        inside = omega (arith, same, ap length p);
      },
      omega (arith, same, ap length p, bounds, u32-le start, u32-le (packed.1 - start)),
      inl (omega arith),
    )

pub decode_string-DecodedFrom :
    (t : Tokenizer) (kind : TokenType) (quote alt_quote : ℕ) (dont_skip_start : Bool)
    → IsValid t
    → DecodedFrom t (decode_string t kind quote alt_quote dont_skip_start)
unfolding decode_string make_illegal
decode_string-DecodedFrom t kind quote alt_quote dont_skip_start v =
    elim (Bool-cases (leb (length t.source) t.byte_pos)) [
      | inl e ↦ rw e (Follows-refl t v, tt, inr (refl, refl))
      | inr e ↦
          let start = if dont_skip_start then t.byte_pos else t.byte_pos + 1 in
          let d : Decoder = record { buf = t.source; idx = start; first_out = true } in
          let late : t.byte_pos ≤ start = ground arith in
          let room : start ≤ length t.source = ground arith in
          rw e (
            decode_finish-DecodedFrom t kind start d _ v late refl refl (
              decode_loop-Ends (suc (length t.source)) (length t.source) quote alt_quote d
                (omega arith) room))
    ]
