-- ===== src/Lexer/Cursor/Process.antt =====
-- engine/console/simpleParser.h: lemmas on `processTokens`.
use korkscript.Prelude.{
  Bool, Bytes, List, [], arith, inl, inr, length, refl, suc, zero, ℕ, ◌*◌, ◌<◌, ◌∙◌, ◌∷◌, ◌≡◌, ◌≢◌,
  ◌≤◌,
}
use korkscript.Lexer.Cursor.{IsValid}
use korkscript.Lexer.Cursor.Next.{weight}
use korkscript.Lexer.Cursor.Total.{Returns, next-Returns}
use korkscript.Lexer.Next.{Outcome, again, done, next, spun, threw}
use korkscript.Lexer.Process.{exhausted, process_loop, process_tokens}
use korkscript.Lexer.State.{Tokenizer, tokenizer}
use korkscript.Lexer.Token.{Token}

process_loop-ends :
    (fuel : ℕ) (overflows : Bytes → Bool) (acc : List Token) (t : Tokenizer)
    → IsValid t
    → t.spins ≡ 0
    → weight t < fuel
    → process_loop fuel overflows acc t ≢ exhausted
unfolding process_loop
process_loop-ends zero overflows acc t v z h = absurd (omega arith)
process_loop-ends (suc fuel) overflows acc t v z h =
    split (λ tok u. process_loop-ends fuel overflows (tok ∷ acc) u) (next overflows t) refl
      (next-Returns overflows t v z)
  where
    split :
        ((tok : Token) (u : Tokenizer)
          → IsValid u
          → u.spins ≡ 0
          → weight u < fuel
          → process_loop fuel overflows (tok ∷ acc) u ≢ exhausted)
        → (r : Outcome) → next overflows t ≡ r
        → Returns t r
        → process_loop (suc fuel) overflows acc t ≢ exhausted
    split ih (done tok u) q (f, s, inl w) =
        rw (q, process_loop) (ground (arith, ih tok u f.inside (f.same_spins ∙ z)))
    split ih (done tok u) q (f, s, inr (inl e)) = rw (q, process_loop, e) (λ e. cc)
    split ih (done tok u) q (f, s, inr (inr e)) = rw (q, process_loop, e) (λ e. cc)
    split ih (again u) q p = elim p [ ]
    split ih threw q p = rw (q, process_loop) (λ e. cc)
    split ih spun q p = elim p [ ]

weight-le : (t : Tokenizer) → weight t ≤ suc (2 * length t.source)
unfolding weight
weight-le t = ground arith

-- Reading a source into tokens ends, and so does every loop on the way, whatever its bytes are:
-- with all tokens, at an illegal token, or by an exception of the number conversions.
pub process_tokens-ends :
    (overflows : Bytes → Bool) (src : Bytes) (interpolation classes : Bool)
    → process_tokens overflows (tokenizer src interpolation classes) ≢ exhausted
unfolding process_tokens
process_tokens-ends overflows src interpolation classes =
    let t = tokenizer src interpolation classes in
    process_loop-ends (suc (suc (2 * length t.source))) overflows [] t
      (unfold tokenizer in omega arith) (unfold tokenizer in refl) (omega (arith, weight-le t))
