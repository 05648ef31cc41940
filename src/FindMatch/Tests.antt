-- ===== src/FindMatch/Tests.antt =====
-- engine/core/findMatch.cc: runs.
use korkscript.Prelude.{AreNonzero, Bytes, [], arith, codes, false, refl, replicate, true, ◌≡◌}
use korkscript.FindMatch.{
  answer, find_match, find_match_with, is_char_match, is_full, is_match, is_match_multiple_exprs,
  match_any, match_loop, match_round, only_stars, set_expression, split_tabs, strtok,
}
use korkscript.FindMatch.Class.{
  FindsMatch, find_match-FindsMatch, is_match-ignores_case, is_match_multiple_exprs-Decides,
}
use korkscript.FindMatch.Glob.{GlobMatches}
use korkscript.FindMatch.Invariant.{Decides}
use korkscript.FindMatch.Loop.{is_match-Decides}
use korkscript.FindMatch.Pieces.{SomeMatches}

abbrev pattern_text : Bytes
pattern_text = codes "m*.C?"

abbrev file_name : Bytes
file_name = codes "Main.old.cs"

matches_name : is_match pattern_text file_name true ≡ answer true
unfolding is_match is_char_match match_loop match_round only_stars
matches_name = refl

matches_no_other : is_match pattern_text (codes "main.h") false ≡ answer false
unfolding is_match is_char_match match_loop match_round only_stars
matches_no_other = refl

second_of_two : is_match_multiple_exprs (codes "*.h\tm*") file_name false ≡ answer true
unfolding is_match is_char_match match_loop match_round only_stars is_match_multiple_exprs match_any
    strtok split_tabs
second_of_two = refl

abbrev short_name : Bytes
short_name = codes "a.c"

short_name-AreNonzero : AreNonzero short_name
short_name-AreNonzero = (omega arith, (omega arith, (omega arith, tt)))

is_match-Decides_example :
    Decides (GlobMatches (codes "?*.C") short_name) (is_match (codes "?*.C") short_name true)
is_match-Decides_example = is_match-Decides (codes "?*.C") short_name true short_name-AreNonzero

is_match_multiple_exprs-Decides_example :
    Decides
      (SomeMatches (codes "*.h\t*.c") short_name)
      (is_match_multiple_exprs (codes "*.h\t*.c") short_name false)
is_match_multiple_exprs-Decides_example =
    is_match_multiple_exprs-Decides (codes "*.h\t*.c") short_name false short_name-AreNonzero

is_match-ignores_case_example :
    is_match (codes "A*") short_name true ≡ is_match (codes "A*") short_name false
is_match-ignores_case_example = is_match-ignores_case (codes "A*") short_name short_name-AreNonzero

not_full : is_full (find_match_with 2) ≡ false
unfolding is_full find_match_with
not_full = refl

find_match-FindsMatch_example :
    FindsMatch (GlobMatches (codes "A*") short_name) 2 [] short_name (
      find_match
        (replicate 512 0)
        (set_expression (find_match_with 2) (codes "A*"))
        short_name
        true)
unfolding find_match_with
find_match-FindsMatch_example =
    find_match-FindsMatch (replicate 512 0) (find_match_with 2) (codes "A*") short_name true
      not_full short_name-AreNonzero (omega arith) refl
