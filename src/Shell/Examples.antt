-- ===== src/Shell/Examples.antt =====
-- The line `a b>c|d`.
use rumicos.Base.{[], ◌∷◌, some, none, ◌≡◌, refl}
use rumicos.Shell.{
  Bytes, Stage, out, ok, parse_line, parse_tokens, parse_from, round, next_token, first_token,
  skip_spaces, split_word, great_token, take_word, take_pipe, take_target, redirected, finish,
}
use rumicos.Shell.Bounds.{Ends, parse_line-Ends}

abbrev line : Bytes
line = 97 ∷ 32 ∷ 98 ∷ 62 ∷ 99 ∷ 124 ∷ 100 ∷ []

abbrev first : Stage
first = record {
  argv = (97 ∷ []) ∷ (98 ∷ []) ∷ [];
  redirect_out = some (99 ∷ [], out);
  redirect_in = none;
}

abbrev second : Stage
second = record { argv = (100 ∷ []) ∷ []; redirect_out = none; redirect_in = none }

two_stages : parse_line line ≡ ok (first ∷ second ∷ [])
unfolding parse_line parse_tokens parse_from round next_token first_token skip_spaces split_word
    great_token take_word take_pipe take_target redirected finish
two_stages = refl

parse_line-Ends_example : Ends (parse_line line)
parse_line-Ends_example = parse_line-Ends line
