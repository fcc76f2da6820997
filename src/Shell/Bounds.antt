-- ===== src/Shell/Bounds.antt =====
-- What `parse_line` accepts keeps its bounds, and the loop always ends.
use rumicos.Base.{
  ℕ, zero, suc, ◌<◌, ◌≡◌, refl, subst, ◌⊎◌, inl, inr, List, Option, none, some, arith, length,
}
use rumicos.Shell.{
  Bytes, Stage, ParseError, empty, Tok, next_token, Parser, Outcome, fails, pipeline, goes_on,
  round, Result, err, ok, parse_from, start, parse_tokens, parse_line,
}
use rumicos.Shell.Progress.{next_token-Follows}
use rumicos.Shell.Rounds.{IsPipeline, IsParser, Good, empty_stage-IsStage, round-Good}

Outcome-cases :
    (o : Outcome)
    → ((e : ParseError) × (o ≡ fails e))
      ⊎ ((ss : List Stage) × (o ≡ pipeline ss))
      ⊎ ((p : Parser) × (rest : Bytes) × (o ≡ goes_on p rest))
Outcome-cases (fails e) = inl (e, refl)
Outcome-cases (pipeline ss) = inr (inl (ss, refl))
Outcome-cases (goes_on p rest) = inr (inr (p, rest, refl))

abbrev pub Ends : Result → Type 0
Ends r = ((e : ParseError) × (r ≡ err e)) ⊎ ((ss : List Stage) × (r ≡ ok ss) × IsPipeline ss)

parse_from-Ends :
    (fuel : ℕ) (p : Parser) (line : Bytes)
    → length line < fuel
    → IsParser p
    → Ends (parse_from fuel p line)
unfolding parse_from
parse_from-Ends zero p line h v = absurd (omega (arith, h))
parse_from-Ends (suc fuel) p line h v =
    let good = round-Good (length line) p (next_token line) v (next_token-Follows line) in
    elim (Outcome-cases (round p (next_token line))) [
      | inl (e, is) ↦ rw (parse_from, is) (inl (e, refl))
      | inr (inl (ss, is)) ↦
          rw (parse_from, is) (inr (ss, refl, subst (Good (length line)) is good))
      | inr (inr (p', rest, is)) ↦
          let next = subst (Good (length line)) is good in
          rw (parse_from, is) (parse_from-Ends fuel p' rest (omega (arith, next.1)) next.0)
    ]

-- Every line is parsed to an error or to a pipeline of one to eight stages, each with one to
-- sixteen arguments; the arguments and the targets of redirections are words, which are not empty
-- and hold no space and no operator. The fuel, one more than the bytes of the line, is enough.
pub parse_line-Ends : (line : Bytes) → Ends (parse_line line)
unfolding parse_line parse_tokens
parse_line-Ends line = go (next_token line)
  where
    begin : IsParser start
    begin = record {
      few = omega arith;
      commands = tt;
      current = empty_stage-IsStage;
      content = λ e. absurd (ground (arith, e));
    }

    go : (t : Option (Tok × Bytes)) → Ends (parse_tokens line t)
    go none = inl (empty, refl)
    go (some t) = parse_from-Ends (suc (length line)) start line (omega arith) begin
