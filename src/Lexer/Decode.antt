-- ===== src/Lexer/Decode.antt =====
-- engine/console/simpleLexer.h: `decodeStringInPlace`, which decodes a literal inside the source
-- buffer: a marking pass that leaves zeros behind, and a pass that closes the gaps.
use korkscript.Prelude.{
  Bool, Bytes, Option, [], false, get_or, if◌then◌else◌, leb, length, none, set, some, suc, true,
  u32, within, zero, ℕ, ◌&&◌, ◌*◌, ◌+◌, ◌-◌, ◌==◌, ◌||◌, ◌∷◌,
}
use korkscript.Lexer.State.{Tokenizer, make, make_illegal}
use korkscript.Lexer.Token.{Token, TokenType, string_value}

unfoldable pub hex_val : ℕ → Option ℕ
hex_val c =
    if within b'0' b'9' c
    then some (c - b'0')
    else if within b'a' b'f' c
    then some (10 + (c - b'a'))
    else if within b'A' b'F' c
    then some (10 + (c - b'A'))
    else none

unfoldable pub conv_escape : ℕ → ℕ
conv_escape c =
    if c == b'n' then b'\n' else if c == b'r' then b'\r' else if c == b't' then b'\t' else c

-- `map` of the \c family.
abbrev pub color_map : Bytes
color_map = 0x1 ∷ 0x2 ∷ 0x3 ∷ 0x4 ∷ 0x5 ∷ 0x6 ∷ 0x7 ∷ 0xB ∷ 0xC ∷ 0xE ∷ []

unfoldable pub color_byte : ℕ → Option ℕ
color_byte k =
    if k == b'r'
    then some 15
    else if k == b'p'
    then some 16
    else if k == b'o'
    then some 17
    else if within b'0' b'9' k
    then some (get_or color_map (k - b'0') 0)
    else none

-- The variables of the marking pass.
pub record Decoder : Type 0 where
  pub buf : Bytes
  pub idx : ℕ
  pub first_out : Bool

-- One round: the cursor goes on, a quote closes the literal, or the text is refused.
pub data Round : Type 0 where
  go : Decoder → Round
  closed : ℕ → Decoder → Round
  refused : Decoder → Round

-- Stores the decoded byte over the `n` bytes of an escape and steps behind it. A first byte 0x01
-- is stored as 0x02 0x01.
unfoldable pub put_escape : ℕ → ℕ → Decoder → Decoder
put_escape n byte d =
    let guarded = d.first_out && byte == 0x01 in
    let buf1 = set d.buf d.idx (if guarded then 0x02 else byte) in
    let buf2 = set buf1 (d.idx + 1) (if guarded then 0x01 else 0) in
    let buf3 = if leb 3 n then set buf2 (d.idx + 2) 0 else buf2 in
    let buf4 = if leb 4 n then set buf3 (d.idx + 3) 0 else buf3 in
    record { buf = buf4; idx = d.idx + n; first_out = false }

-- `\xHH`, with the codes of the two digits.
unfoldable pub put_hex : Option ℕ → Option ℕ → Decoder → Round
put_hex (some h1) (some h2) d = go (put_escape 4 (h1 * 16 + h2) d)
put_hex _ _ d = refused d

-- `\cX`, with the byte that it stands for.
unfoldable pub put_color : Option ℕ → Decoder → Round
put_color none d = refused d
put_color (some byte) d = go (put_escape 3 byte d)

-- The escape whose backslash is at `idx`; `buf_end` is `bufEnd`.
unfoldable pub decode_escape : ℕ → Decoder → Round
unfolding hex_val color_byte put_hex put_color
decode_escape buf_end d =
    let code = d.idx + 1 in
    let e = get_or d.buf code 0 in
    if leb buf_end code
    then refused d
    else if e == b'x'
    then if leb buf_end (code + 2)
      then refused d
      else put_hex (hex_val (get_or d.buf (code + 1) 0)) (hex_val (get_or d.buf (code + 2) 0)) d
    else if e == b'c'
    then if leb buf_end (code + 1)
      then refused d
      else put_color (color_byte (get_or d.buf (code + 1) 0)) d
    else go (put_escape 2 (conv_escape e) d)

-- One round of the marking pass.
unfoldable pub decode_round : ℕ → ℕ → ℕ → Decoder → Round
decode_round buf_end quote alt_quote d =
    let c = get_or d.buf d.idx 0 in
    if leb buf_end d.idx
    then refused d
    else if c == b'\n'
    then refused d
    else if c == b'\r'
    then go (record d { buf = set d.buf d.idx 0; idx = d.idx + 1 })
    else if c == quote || c == alt_quote
    then closed c (record d { buf = set d.buf d.idx 0; idx = d.idx + 1 })
    else if c == b'\\'
    then decode_escape buf_end d
    else go (record d { idx = d.idx + 1; first_out = false })

-- The marking pass on fuel; `none` means that the fuel ran out.
unfoldable pub decode_loop : ℕ → ℕ → ℕ → ℕ → Decoder → Option Round
decode_loop zero buf_end quote alt_quote d = none
decode_loop (suc fuel) buf_end quote alt_quote d = elim (decode_round buf_end quote alt_quote d) [
  | go d' ↦ decode_loop fuel buf_end quote alt_quote d'
  | closed c d' ↦ some (closed c d')
  | refused d' ↦ some (refused d')
]

-- `while (read < boundary) { b = buf[read++]; if (b != '\0') buf[write++] = b; }`, by the rounds
-- left; the result is the buffer and `write`.
unfoldable pub compact : ℕ → ℕ → ℕ → Bytes → Bytes × ℕ
compact zero read write buf = (buf, write)
compact (suc n) read write buf =
    let b = get_or buf read 0 in
    compact n (read + 1) (if b == 0 then write else write + 1)
      (if b == 0 then buf else set buf write b)

-- `for (i = write; i < buf_end; i++) buf[i] = '\0';`, by the rounds left.
unfoldable pub zero_fill : ℕ → ℕ → Bytes → Bytes
zero_fill zero i buf = buf
zero_fill (suc n) i buf = zero_fill n (i + 1) (set buf i 0)

-- What `decodeStringInPlace` leaves behind: the token, the quote that closed it (0 if none did), the
-- buffer and the cursor.
pub record Decoded : Type 0 where
  pub tok : Token
  pub quote : ℕ
  pub state : Tokenizer

-- The passes behind the marking one, for the literal whose text begins at `start`.
unfoldable pub decode_finish : Tokenizer → TokenType → ℕ → Option Round → Option Decoded
unfolding make make_illegal compact zero_fill
decode_finish t kind start none = none
decode_finish t kind start (some (closed c d)) =
    let boundary = d.idx - 1 in
    let (packed, write) = compact (boundary - start) start start d.buf in
    let buf = zero_fill (boundary - write) write packed in
    some (record {
      tok = record (make kind t) { val = string_value (u32 start) (u32 (write - start)) };
      quote = c;
      state = record t { source = buf; byte_pos = d.idx };
    })
decode_finish t kind start (some (refused d)) = some (record {
  tok = make_illegal t;
  quote = 0;
  state = record t { source = d.buf; byte_pos = d.idx };
})
decode_finish t kind start (some (go d)) = none

-- `none` means that the marking pass ran out of fuel.
unfoldable pub decode_string : Tokenizer → TokenType → ℕ → ℕ → Bool → Option Decoded
unfolding decode_loop decode_finish
decode_string t kind quote alt_quote dont_skip_start =
    let buf_end = length t.source in
    let start = if dont_skip_start then t.byte_pos else t.byte_pos + 1 in
    let first : Decoder = record { buf = t.source; idx = start; first_out = true } in
    if leb buf_end t.byte_pos
    then some (record { tok = make_illegal t; quote = 0; state = t })
    else decode_finish t kind start (decode_loop (suc buf_end) buf_end quote alt_quote first)
