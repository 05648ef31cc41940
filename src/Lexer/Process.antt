-- ===== src/Lexer/Process.antt =====
-- engine/console/simpleParser.h: `processTokens`, which reads the whole source into tokens.
use korkscript.Prelude.{
  Bool, Bytes, List, [], false, if◌then◌else◌, length, suc, true, zero, ℕ, ◌*◌, ◌||◌, ◌∷◌,
}
use korkscript.Lexer.Next.{again, done, next, spun, threw}
use korkscript.Lexer.State.{Tokenizer}
use korkscript.Lexer.Token.{Token, TokenType, end_token, illegal, is_none}

-- The tokens, newest first; the token that stopped the reader; an exception; or no more fuel.
pub data Processed : Type 0 where
  processed : List Token → Processed
  failed : Token → Processed
  escaped : Processed
  exhausted : Processed

abbrev pub is_end : TokenType → Bool
is_end end_token = true
is_end _ = false

abbrev pub is_illegal : TokenType → Bool
is_illegal illegal = true
is_illegal _ = false

-- The loop with the tokens so far.
unfoldable pub process_loop : ℕ → (Bytes → Bool) → List Token → Tokenizer → Processed
process_loop zero overflows acc t = exhausted
process_loop (suc fuel) overflows acc t = elim (next overflows t) [
  | done tok u ↦
      let rest = process_loop fuel overflows (tok ∷ acc) u in
      if is_illegal tok.kind || is_none tok.kind
      then failed tok
      else if is_end tok.kind
      then processed acc
      else rest
  | again u ↦ exhausted
  | threw ↦ escaped
  | spun ↦ exhausted
]

-- Two calls for each byte, and one for the end.
unfoldable pub process_tokens : (Bytes → Bool) → Tokenizer → Processed
process_tokens overflows t = process_loop (suc (suc (2 * length t.source))) overflows [] t
