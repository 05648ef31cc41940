-- ===== src/FindMatch.antt =====
-- engine/core/findMatch.cc: a text against an expression of `*`, `?` and letters. A pointer into a text
-- is what stands from there on, up to the terminator.
pub mod Glob
pub mod Invariant
pub mod Loop
pub mod Pieces
pub mod Class
mod Tests
use korkscript.Prelude.{
  Bool, Bytes, List, Option, [], drop, false, if◌then◌else◌, leb, length, map, max, min, none, some,
  suc, tail, take, true, within, zero, ℕ, ◌&&◌, ◌*◌, ◌++◌, ◌+◌, ◌-◌, ◌==◌, ◌||◌, ◌∷◌,
}

-- What a call comes to: an answer, an access outside of memory, or no end within the fuel.
pub data Found : Type 0 where
  answer : Bool → Found
  outside running : Found

-- `mp` and `cp`, which are set together.
abbrev pub Marks : Type 0
Marks = Option (Bytes × Bytes)

-- The next round of the second loop of `isMatch`, or what it returns.
pub data Round : Type 0 where
  over : Found → Round
  again : Bytes → Bytes → Marks → Round

-- `toupper` of the C locale.
abbrev pub to_upper : ℕ → ℕ
to_upper c = if within b'a' b'z' c then c - 32 else c

unfoldable pub is_char_match : ℕ → ℕ → Bool → Bool
is_char_match e s case_sensitive =
    e == b'?' || (case_sensitive && e == s) || to_upper e == to_upper s

-- The stars that the expression ends with.
unfoldable pub only_stars : Bytes → Bool
only_stars [] = true
only_stars (e ∷ exp) = e == b'*' && only_stars exp

abbrev pub retry : Marks → Round
retry none = over outside
retry (some (mp, cp)) = again mp cp (some (mp, tail cp))

-- A star: at the end of the expression all is said.
abbrev pub star_round : Bytes → Bytes → Bytes → Round
star_round [] str rest = over (answer true)
star_round exp str rest = again exp str (some (exp, rest))

-- A round on a text that is not at its end.
unfoldable pub match_round : Bool → Bytes → ℕ → Bytes → Marks → Round
match_round case_sensitive [] c s marks =
    if is_char_match 0 c case_sensitive then over outside else retry marks
match_round case_sensitive (e ∷ exp) c s marks =
    if e == b'*'
    then star_round exp (c ∷ s) s
    else if is_char_match e c case_sensitive
    then again exp s marks
    else retry marks

unfoldable pub match_loop : ℕ → Bool → Bytes → Bytes → Marks → Found
match_loop zero case_sensitive exp str marks = running
match_loop (suc f) case_sensitive exp [] marks = answer (only_stars exp)
match_loop (suc f) case_sensitive exp (c ∷ s) marks =
    elim (match_round case_sensitive exp c s marks) [
      | over r ↦ r
      | again exp' str' marks' ↦ match_loop f case_sensitive exp' str' marks'
    ]

abbrev pub match_fuel : Bytes → Bytes → ℕ
match_fuel exp str = suc ((length str + 1) * (length exp + 1))

-- `isMatch`: the loop up to the first star, then the other one.
unfoldable pub is_match : Bytes → Bytes → Bool → Found
is_match exp [] case_sensitive = answer (only_stars exp)
is_match [] (c ∷ s) case_sensitive =
    if is_char_match 0 c case_sensitive then outside else answer false
is_match (e ∷ exp) (c ∷ s) case_sensitive =
    let rest = is_match exp s case_sensitive in
    if e == b'*'
    then match_loop (match_fuel (e ∷ exp) (c ∷ s)) case_sensitive (e ∷ exp) (c ∷ s) none
    else if is_char_match e c case_sensitive
    then rest
    else answer false

-- `strtok` with a tab: the pieces between tabs that are not empty. The first one may be going on.
abbrev pub piece : Bytes → List Bytes → List Bytes
piece [] rest = rest
piece tok rest = tok ∷ rest

unfoldable pub split_tabs : Bytes → Bytes × List Bytes
split_tabs [] = ([], [])
split_tabs (c ∷ s) =
    let (tok, rest) = split_tabs s in if c == b'\t' then ([], piece tok rest) else (c ∷ tok, rest)

unfoldable pub strtok : Bytes → List Bytes
strtok s = let (tok, rest) = split_tabs s in piece tok rest

-- The loop stops at the first expression that matches.
abbrev pub or_next : Found → Found → Found
or_next (answer false) others = others
or_next r others = r

unfoldable pub match_any : List Bytes → Bytes → Bool → Found
match_any [] str case_sensitive = answer false
match_any (tok ∷ rest) str case_sensitive =
    or_next (is_match tok str case_sensitive) (match_any rest str case_sensitive)

unfoldable pub is_match_multiple_exprs : Bytes → Bytes → Bool → Found
is_match_multiple_exprs exps str case_sensitive = match_any (strtok exps) str case_sensitive

-- The class: `expression` is none before the first `setExpression`. A match is kept as its text.
pub record FindMatch : Type 0 where
  pub expression : Option Bytes
  pub max_matches : ℕ
  pub match_list : List Bytes

unfoldable pub find_match_with : ℕ → FindMatch
find_match_with max = record { expression = none; max_matches = max; match_list = [] }

unfoldable pub set_expression : FindMatch → Bytes → FindMatch
set_expression m exp = record m { expression = some (map to_upper exp) }

unfoldable find_match_for : Bytes → ℕ → FindMatch
find_match_for exp max = set_expression (find_match_with max) exp

unfoldable pub num_matches : FindMatch → ℕ
num_matches m = length m.match_list

unfoldable pub is_full : FindMatch → Bool
is_full m = leb m.max_matches (length m.match_list)

unfoldable pub clear : FindMatch → FindMatch
clear m = record m { match_list = [] }

-- A text in an array up to its terminator; there may be none.
abbrev pub byte_more : ℕ → Option Bytes → Option Bytes
byte_more c none = none
byte_more c (some s) = some (c ∷ s)

unfoldable pub c_string : Bytes → Option Bytes
c_string [] = none
c_string (c ∷ s) = let rest = c_string s in if c == 0 then some [] else byte_more c rest

-- `nstr`, on what stood in the array before: no terminator is copied.
unfoldable pub upper_copy : Bytes → Bytes → Bytes
upper_copy old str =
    let len = min (length str) 511 in
    map to_upper (take len str ++ take 1 (drop len old)) ++ drop (len + 1) old

abbrev pub match_found : Option Bytes → Option Bytes → Bool → Found
match_found (some exp) (some nstr) case_sensitive = is_match exp nstr case_sensitive
match_found _ _ case_sensitive = outside

abbrev pub keep_match : FindMatch → Bytes → Found → FindMatch × Found
keep_match m str (answer true) = (record m { match_list = m.match_list ++ str ∷ [] }, answer true)
keep_match m str r = (m, r)

unfoldable pub find_match : Bytes → FindMatch → Bytes → Bool → FindMatch × Found
find_match old m str case_sensitive =
    if is_full m
    then (m, answer false)
    else keep_match m str (match_found m.expression (c_string (upper_copy old str)) case_sensitive)
