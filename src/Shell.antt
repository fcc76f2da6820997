-- ===== src/Shell.antt =====
-- userspace/shell/src/parse.rs: the tokens of a command line and its pipeline. A line is a list of
-- bytes, an offset into it the list of the bytes from there on, and the filled part of an array
-- a list.
pub mod Progress
pub mod Rounds
pub mod Bounds
pub mod Examples
use rumicos.Base.{
  ℕ, zero, suc, Bool, true, false, ◌||◌, not, List, [], ◌∷◌, ◌++◌, Option, none, some,
  if◌then◌else◌, ◌==◌, length,
}

abbrev pub max_args : ℕ
max_args = 16

abbrev pub max_pipeline_stages : ℕ
max_pipeline_stages = 8

abbrev pub Bytes : Type 0
Bytes = List ℕ

pub data RedirectKind : Type 0 where
  no_redirect out out_append in_ : RedirectKind

pub record Stage : Type 0 where
  pub argv : List Bytes
  pub redirect_out : Option (Bytes × RedirectKind)
  pub redirect_in : Option Bytes

abbrev pub empty_stage : Stage
empty_stage = record { argv = []; redirect_out = none; redirect_in = none }

pub data ParseError : Type 0 where
  empty too_many_stages too_many_args stage_is_empty missing_redirect_target trailing_pipe :
      ParseError

pub data Tok : Type 0 where
  word : Bytes → Tok
  pipe great great_great less : Tok

-- Space, tab and carriage return.
abbrev pub is_space : ℕ → Bool
is_space b = b == 32 || (b == 9 || b == 13)

-- `|`, `>` and `<`.
abbrev pub is_op : ℕ → Bool
is_op b = b == 124 || (b == 62 || b == 60)

unfoldable pub skip_spaces : Bytes → Bytes
skip_spaces [] = []
skip_spaces (b ∷ bs) = let rest = skip_spaces bs in if is_space b then rest else b ∷ bs

-- The bytes of a word, and what follows it.
unfoldable pub split_word : Bytes → Bytes × Bytes
split_word [] = ([], [])
split_word (b ∷ bs) =
    let (w, rest) = split_word bs in if is_space b || is_op b then ([], b ∷ bs) else (b ∷ w, rest)

-- `>>` before `>`.
unfoldable pub great_token : Bytes → Tok × Bytes
great_token [] = (great, [])
great_token (b ∷ bs) = if b == 62 then (great_great, bs) else (great, b ∷ bs)

unfoldable pub first_token : Bytes → Option (Tok × Bytes)
unfolding split_word great_token
first_token [] = none
first_token (b ∷ bs) =
    if b == 124
    then some (pipe, bs)
    else if b == 60
    then some (less, bs)
    else if b == 62
    then some (great_token bs)
    else some (word (split_word (b ∷ bs)).0, (split_word (b ∷ bs)).1)

unfoldable pub next_token : Bytes → Option (Tok × Bytes)
unfolding first_token skip_spaces
next_token line = first_token (skip_spaces line)

-- The variables of the loop of `parse_line`.
pub record Parser : Type 0 where
  pub stages : List Stage
  pub cur : Stage
  pub cur_has_content : Bool

pub data Outcome : Type 0 where
  fails : ParseError → Outcome
  pipeline : List Stage → Outcome
  goes_on : Parser → Bytes → Outcome

unfoldable pub take_word : Parser → Bytes → Bytes → Outcome
take_word p w rest =
    if length p.cur.argv == max_args
    then fails too_many_args
    else let cur = p.cur in
      goes_on (record p { cur = record cur { argv = cur.argv ++ w ∷ [] }; cur_has_content = true })
        rest

unfoldable pub take_pipe : Parser → Bytes → Outcome
take_pipe p rest =
    if not p.cur_has_content
    then fails stage_is_empty
    else if length p.stages == max_pipeline_stages
    then fails too_many_stages
    else goes_on
        (record { stages = p.stages ++ p.cur ∷ []; cur = empty_stage; cur_has_content = false })
        rest

unfoldable pub redirected : Parser → RedirectKind → Bytes → Parser
redirected p in_ target =
    let cur = p.cur in record p { cur = record cur { redirect_in = some target } }
redirected p out target =
    let cur = p.cur in record p { cur = record cur { redirect_out = some (target, out) } }
redirected p no_redirect target =
    let cur = p.cur in record p { cur = record cur { redirect_out = some (target, no_redirect) } }
redirected p out_append target =
    let cur = p.cur in record p { cur = record cur { redirect_out = some (target, out_append) } }

-- The token after a redirection must be a word.
unfoldable pub take_target : Parser → RedirectKind → Option (Tok × Bytes) → Outcome
unfolding redirected
take_target p kind (some (word w, rest)) = goes_on (redirected p kind w) rest
take_target p kind none = fails missing_redirect_target
take_target p kind (some (pipe, rest)) = fails missing_redirect_target
take_target p kind (some (great, rest)) = fails missing_redirect_target
take_target p kind (some (great_great, rest)) = fails missing_redirect_target
take_target p kind (some (less, rest)) = fails missing_redirect_target

-- After the last token.
unfoldable pub finish : Parser → Outcome
finish p =
    if not p.cur_has_content
    then if length p.stages == 0 then fails stage_is_empty else fails trailing_pipe
    else if length p.stages == max_pipeline_stages
    then fails too_many_stages
    else pipeline (p.stages ++ p.cur ∷ [])

-- One round of the loop.
unfoldable pub round : Parser → Option (Tok × Bytes) → Outcome
unfolding take_word take_pipe take_target finish next_token
round p none = finish p
round p (some (word w, rest)) = take_word p w rest
round p (some (pipe, rest)) = take_pipe p rest
round p (some (great, rest)) = take_target p out (next_token rest)
round p (some (great_great, rest)) = take_target p out_append (next_token rest)
round p (some (less, rest)) = take_target p in_ (next_token rest)

pub data Result : Type 0 where
  err : ParseError → Result
  ok : List Stage → Result
  no_fuel : Result

unfoldable pub parse_from : ℕ → Parser → Bytes → Result
unfolding round
parse_from zero p line = no_fuel
parse_from (suc fuel) p line = elim (round p (next_token line)) [
  | fails e ↦ err e
  | pipeline stages ↦ ok stages
  | goes_on p' rest ↦ parse_from fuel p' rest
]

abbrev pub start : Parser
start = record { stages = []; cur = empty_stage; cur_has_content = false }

-- A line without a token is its own error. One round more than the line has bytes.
unfoldable pub parse_tokens : Bytes → Option (Tok × Bytes) → Result
unfolding parse_from
parse_tokens line none = err empty
parse_tokens line (some t) = parse_from (suc (length line)) start line

unfoldable pub parse_line : Bytes → Result
unfolding parse_tokens
parse_line line = parse_tokens line (next_token line)
