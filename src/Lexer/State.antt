-- ===== src/Lexer/State.antt =====
-- engine/console/simpleLexer.h: the state of `Tokenizer`, its view of the source, and the loops
-- that only move the cursor. Bytes stand for `char`; line and column numbers do not wrap.
use korkscript.Prelude.{
  Bool, Bytes, [], false, get_or, if◌then◌else◌, is_alnum, is_alpha, is_digit, length, ltb, not,
  suc, true, within, zero, ℕ, ◌&&◌, ◌++◌, ◌+◌, ◌==◌, ◌||◌, ◌∷◌,
}
use korkscript.Lexer.Token.{SrcPos, Token, TokenType, illegal, ivalue, op_char, op_concat}

pub record InterpolationState : Type 0 where
  pub depth : ℕ
  pub in_literal : Bool
  pub in_brace : Bool
  pub need_str_concat : Bool
  pub do_interp : Bool

pub record Tokenizer : Type 0 where
  pub source : Bytes
  pub byte_pos : ℕ
  pub pos : SrcPos
  pub interp : InterpolationState
  pub enable_script_classes : Bool
  -- How many loops of the model ran out of fuel, where the loop of the source would not have ended.
  pub spins : ℕ

-- The constructor: the source gets a terminator.
unfoldable pub tokenizer : Bytes → Bool → Bool → Tokenizer
tokenizer src interpolation classes = record {
  source = src ++ 0 ∷ [];
  byte_pos = 0;
  pos = record { line = 1; col = 0 };
  interp = record {
    depth = 0;
    in_literal = false;
    in_brace = false;
    need_str_concat = false;
    do_interp = interpolation;
  };
  enable_script_classes = classes;
  spins = 0;
}

unfoldable pub eof : Tokenizer → ℕ → Bool
eof t off = not (ltb (t.byte_pos + off + 1) (length t.source))

unfoldable pub peek : Tokenizer → ℕ → ℕ
unfolding eof
peek t off = if eof t off then 0 else get_or t.source (t.byte_pos + off) 0

unfoldable pub beither2 : Tokenizer → ℕ → ℕ → ℕ → Bool
beither2 t a b off = let next = peek t off in next == a || next == b

unfoldable pub bpeek2 : Tokenizer → ℕ → ℕ → Bool
bpeek2 t a b = peek t 0 == a && peek t 1 == b

unfoldable pub bpeek3 : Tokenizer → ℕ → ℕ → ℕ → Bool
bpeek3 t a b c = peek t 0 == a && peek t 1 == b && peek t 2 == c

abbrev pub new_line : SrcPos → SrcPos
new_line p = record { line = p.line + 1; col = 1 }

abbrev pub next_col : SrcPos → SrcPos
next_col p = record p { col = p.col + 1 }

unfoldable pub advance : Tokenizer → Tokenizer
unfolding eof
advance t = if eof t 0 then t else record t {
  byte_pos = t.byte_pos + 1;
  pos = if get_or t.source t.byte_pos 0 == b'\n' then new_line t.pos else next_col t.pos;
}

unfoldable pub advance_newline : Tokenizer → Tokenizer
advance_newline t = record t { byte_pos = t.byte_pos + 1; pos = new_line t.pos }

-- `for (int i = 0; i < n; i++) advance();`
unfoldable pub advance_n : ℕ → Tokenizer → Tokenizer
advance_n zero t = t
advance_n (suc n) t = advance_n n (advance t)

-- A loop that has no fuel left has not ended.
unfoldable pub not_ended : Tokenizer → Tokenizer
not_ended t = record t { spins = t.spins + 1 }

-- `while (test) advance();` on fuel.
unfoldable pub advance_while : ℕ → (Tokenizer → Bool) → Tokenizer → Tokenizer
advance_while zero test t = not_ended t
advance_while (suc fuel) test t = elim (test t) [
  | true ↦ advance_while fuel test (advance t)
  | false ↦ t
]

-- Fuel for one pass over the rest of the source.
abbrev pub fuel_of : Tokenizer → ℕ
fuel_of t = suc (length t.source)

unfoldable pub is_space : ℕ → Bool
is_space c = c == b' ' || c == b'\t' || c == 11 || c == 12

unfoldable pub is_letter : ℕ → Bool
is_letter c = is_alpha c || c == b'_'

unfoldable pub is_id_tail : ℕ → Bool
is_id_tail c = is_alnum c || c == b'_'

unfoldable pub is_var_mid : ℕ → Bool
is_var_mid c = is_alnum c || c == b'_' || c == b':'

unfoldable pub is_hex : ℕ → Bool
is_hex c = is_digit c || within b'a' b'f' c || within b'A' b'F' c

unfoldable pub skip_spaces : Tokenizer → Tokenizer
skip_spaces t = advance_while (fuel_of t) (λ s. is_space (peek s 0)) t

unfoldable pub skip_line : Tokenizer → Tokenizer
skip_line t = advance_while (fuel_of t) (λ s. not (eof s 0) && not (peek s 0 == b'\n')) t

-- One byte of a comment.
unfoldable pub comment_advance : Tokenizer → Tokenizer
comment_advance t = if peek t 0 == b'\n' then advance_newline t else advance t

-- The loop of `skipBlockComment`, on fuel, with the byte before as `prev`.
unfoldable pub skip_comment_loop : ℕ → ℕ → Tokenizer → Bool × Tokenizer
skip_comment_loop zero prev t = (false, not_ended t)
skip_comment_loop (suc fuel) prev t =
    let c = peek t 0 in
    let t' = comment_advance t in
    let rest = skip_comment_loop fuel c t' in
    if eof t 0 then (false, t) else if prev == b'*' && c == b'/' then (true, t') else rest

unfoldable pub skip_block_comment : Tokenizer → Bool × Tokenizer
skip_block_comment t = let s = advance (advance t) in skip_comment_loop (fuel_of s) 0 s

unfoldable pub make : TokenType → Tokenizer → Token
make k t = record { kind = k; pos = t.pos; val = ivalue 0 }

unfoldable pub make_char : ℕ → Tokenizer → Token
make_char ch t = record { kind = op_char; pos = t.pos; val = ivalue ch }

unfoldable pub make_concat : ℕ → Tokenizer → Token
make_concat ch t = record { kind = op_concat; pos = t.pos; val = ivalue ch }

-- `illegal`: its message is not used.
unfoldable pub make_illegal : Tokenizer → Token
unfolding make
make_illegal t = make illegal t
