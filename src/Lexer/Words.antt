-- ===== src/Lexer/Words.antt =====
-- engine/console/simpleLexer.h: numbers, identifiers, keywords and variables.
-- The text functions `std::stoll`, `std::stoi` and `std::stod` throw `std::out_of_range`.
use korkscript.Prelude.{
  Bool, Bytes, List, Option, [], codes, drop, false, get_or, if◌then◌else◌, is_digit, length, ltb,
  max, none, not, some, suc, true, zero, ℕ, ◌&&◌, ◌-◌, ◌==◌, ◌^◌, ◌||◌, ◌∷◌,
}
use korkscript.Lexer.Scan.{Lexed, hung, lexed, numeral, skip_digits, slice, thrown}
use korkscript.Lexer.State.{
  Tokenizer, advance, advance_while, beither2, fuel_of, is_hex, is_id_tail, is_var_mid, make,
  not_ended, peek,
}
use korkscript.Lexer.Token.{
  Token, TokenType, TokenValue, float_value, flt_const, ident, int_const, is_class, is_datablock,
  is_int_const, ivalue, rw_assert, rw_break, rw_case, rw_case_or, rw_catch, rw_class, rw_continue,
  rw_datablock, rw_declare, rw_declare_singleton, rw_default, rw_define, rw_do, rw_else, rw_for,
  rw_foreach, rw_foreach_str, rw_if, rw_in, rw_namespace, rw_package, rw_return, rw_signal,
  rw_switch, rw_switch_str, rw_try, rw_while, st_string, var,
}

-- `scanNumber` over the digits and the dot: the state behind them and `sawDot`.
unfoldable pub scan_mantissa : Tokenizer → Tokenizer × Bool
scan_mantissa t =
    let led = peek t 0 == b'.' in
    let whole = skip_digits (if led then advance t else t) in
    if peek whole 0 == b'.' then (skip_digits (advance whole), true) else (whole, led)

-- The exponent: `none` for a bad one, otherwise the state behind it and `sawExp`.
unfoldable pub scan_exponent : Tokenizer → Option (Tokenizer × Bool)
scan_exponent t =
    let e = advance t in
    let s = if beither2 e b'+' b'-' 0 then advance e else e in
    if beither2 t b'e' b'E' 0
    then if is_digit (peek s 0) then some (skip_digits s, true) else none
    else some (t, false)

-- The limits of `long long` and of `int`.
abbrev pub ll_mod : ℕ
ll_mod = 2 ^ 63

abbrev pub int_mod : ℕ
int_mod = 2 ^ 31

-- The token of a number whose text lies between `t` and `s`. `overflows` says for which texts
-- `std::stod` reports a range error.
unfoldable pub number_token : (Bytes → Bool) → Tokenizer → Tokenizer → Bool → Lexed
number_token overflows t s is_float =
    let text = slice t t.byte_pos s.byte_pos in
    let n = numeral 10 0 text in
    if not (s.spins == t.spins)
    then hung
    else if is_float
    then if overflows text
      then thrown
      else lexed (record (make flt_const s) { val = float_value text }) s
    else if ltb n ll_mod
    then lexed (record (make int_const s) { val = ivalue n }) s
    else thrown

-- The rest of `scanNumber`, with the exponent scanned: the kind is `NONE` for a bad one.
unfoldable pub number_from :
    (Bytes → Bool) → Tokenizer → Bool → Option (Tokenizer × Bool) → Option Lexed
number_from overflows t saw_dot none = none
number_from overflows t saw_dot (some (u, saw_exp)) =
    some (number_token overflows t u (saw_dot || saw_exp))

-- `none` is the kind `NONE`, with the cursor where it was.
unfoldable pub scan_number : (Bytes → Bool) → Tokenizer → Option Lexed
scan_number overflows t =
    let s = scan_mantissa t in
    if peek t 0 == b'.' && not (is_digit (peek (advance t) 0))
    then none
    else if not (s.0.spins == t.spins)
    then some hung
    else number_from overflows t s.1 (scan_exponent s.0)

unfoldable pub scan_hex : Tokenizer → Lexed
scan_hex t =
    let digits = advance (advance t) in
    let s = advance_while (fuel_of digits) (λ u. is_hex (peek u 0)) digits in
    let n = numeral 16 0 (slice t digits.byte_pos s.byte_pos) in
    if not (s.spins == t.spins)
    then hung
    else if ltb n int_mod
    then lexed (record (make int_const s) { val = ivalue n }) s
    else thrown

-- `strncmp(a, b, n) == 0`, where a text ends at its zero or with the list.
unfoldable pub strncmp_eq : ℕ → Bytes → Bytes → Bool
strncmp_eq zero a b = true
strncmp_eq (suc n) [] [] = true
strncmp_eq (suc n) [] (y ∷ b) = y == 0
strncmp_eq (suc n) (x ∷ a) [] = x == 0
strncmp_eq (suc n) (x ∷ a) (y ∷ b) = x == y && (x == 0 || strncmp_eq n a b)

abbrev pub keyword_table : List (Bytes × TokenType)
keyword_table =
    (codes "in", rw_in)
    ∷ (codes "or", rw_case_or)
    ∷ (codes "break", rw_break)
    ∷ (codes "return", rw_return)
    ∷ (codes "else", rw_else)
    ∷ (codes "assert", rw_assert)
    ∷ (codes "while", rw_while)
    ∷ (codes "do", rw_do)
    ∷ (codes "if", rw_if)
    ∷ (codes "try", rw_try)
    ∷ (codes "catch", rw_catch)
    ∷ (codes "foreach$", rw_foreach_str)
    ∷ (codes "foreach", rw_foreach)
    ∷ (codes "for", rw_for)
    ∷ (codes "continue", rw_continue)
    ∷ (codes "function", rw_define)
    ∷ (codes "signal", rw_signal)
    ∷ (codes "new", rw_declare)
    ∷ (codes "singleton", rw_declare_singleton)
    ∷ (codes "datablock", rw_datablock)
    ∷ (codes "case", rw_case)
    ∷ (codes "switch$", rw_switch_str)
    ∷ (codes "switch", rw_switch)
    ∷ (codes "default", rw_default)
    ∷ (codes "package", rw_package)
    ∷ (codes "namespace", rw_namespace)
    ∷ (codes "class", rw_class)
    ∷ (codes "true", int_const)
    ∷ (codes "false", int_const)
    ∷ []

-- The first entry that the comparison of the loop accepts, for a word of `n` bytes at the head of
-- `mem`.
unfoldable pub find_keyword : ℕ → Bytes → List (Bytes × TokenType) → Option TokenType
find_keyword n mem [] = none
find_keyword n mem ((w, k) ∷ rest) =
    if strncmp_eq (max n (length w)) mem w then some k else find_keyword n mem rest

-- The token of a keyword whose first byte is `c`; `none` is the kind `NONE`.
unfoldable pub keyword_token : Tokenizer → ℕ → Option TokenType → Option Token
keyword_token t c none = none
keyword_token t c (some k) =
    let tok : TokenValue → Option Token = λ v. some (record { kind = k; pos = t.pos; val = v }) in
    if is_int_const k
    then tok (ivalue (if c == b't' then 1 else 0))
    else if is_class k && not t.enable_script_classes
    then none
    else if is_class k
    then tok (st_string (codes "class"))
    else if is_datablock k
    then tok (st_string (codes "datablock"))
    else tok (ivalue 0)

-- The cursor behind the letters and digits of a word.
unfoldable pub word_end : Tokenizer → Tokenizer
word_end t = let s = advance t in advance_while (fuel_of s) (λ u. is_id_tail (peek u 0)) s

-- The token of the word from `t` to `word`: a keyword if one was found, and then its `$` is taken
-- in with it (`star`), otherwise an identifier.
unfoldable pub ident_or : Tokenizer → Tokenizer → Tokenizer → Option Token → Token × Tokenizer
ident_or t word star (some tok) = (tok, star)
ident_or t word star none =
    (record { kind = ident; pos = t.pos; val = st_string (slice t t.byte_pos word.byte_pos) }, word)

-- The keyword, if any, that the loop over the table finds for the word from `t` to `star`.
unfoldable pub keyword_at : Tokenizer → Tokenizer → Option TokenType
keyword_at t star =
    find_keyword (star.byte_pos - t.byte_pos) (drop t.byte_pos t.source) keyword_table

unfoldable pub scan_ident_or_keyword : Tokenizer → Token × Tokenizer
scan_ident_or_keyword t =
    let word = word_end t in
    let star = if peek word 0 == b'$' then advance word else word in
    ident_or t word star (keyword_token t (get_or t.source t.byte_pos 0) (keyword_at t star))

-- The loop of `scanVar` on fuel: `last` is the state at the last position where the name may end.
unfoldable pub var_loop : ℕ → Tokenizer → Tokenizer → Tokenizer
var_loop zero last t = not_ended last
var_loop (suc fuel) last t =
    let t' = advance t in
    let rest = var_loop fuel (if is_id_tail (peek t 0) then t' else last) t' in
    if is_var_mid (peek t 0) then rest else last

unfoldable pub scan_var : Tokenizer → Token × Tokenizer
scan_var t =
    let first = advance (advance t) in
    let last = var_loop (fuel_of first) first first in
    (record (make var t) { val = st_string (slice t t.byte_pos last.byte_pos) }, last)
