-- ===== src/Shell/Rounds.antt =====
-- One round of the loop of `parse_line` keeps the stages within their bounds.
use rumicos.Base.{
  ℕ, ◌≤◌, ◌<◌, ◌≡◌, refl, Bool, true, false, not, List, [], ◌∷◌, ◌++◌, Option, none, some, arith,
  if◌then◌else◌, ◌==◌, length, length-append,
}
use rumicos.Shell.{
  Bytes, RedirectKind, no_redirect, in_, out, out_append, Stage, empty_stage, Tok, word, pipe,
  great, great_great, less, next_token, Parser, Outcome, fails, pipeline, goes_on, take_word,
  take_pipe, redirected, take_target, finish, round, max_args, max_pipeline_stages,
}
use rumicos.Shell.Progress.{IsWord, Follows, next_token-Follows}

abbrev pub AreWords : List Bytes → Type 0
AreWords [] = Unit {0}
AreWords (w ∷ ws) = IsWord w × AreWords ws

abbrev pub OutIsWord : Option (Bytes × RedirectKind) → Type 0
OutIsWord none = Unit {0}
OutIsWord (some (w, kind)) = IsWord w

abbrev pub InIsWord : Option Bytes → Type 0
InIsWord none = Unit {0}
InIsWord (some w) = IsWord w

-- At most 16 words, and words as the targets of redirections.
pub record IsStage (s : Stage) : Type 0 where
  pub few : length s.argv ≤ max_args
  pub words : AreWords s.argv
  pub out_word : OutIsWord s.redirect_out
  pub in_word : InIsWord s.redirect_in

-- Stages with a program to run.
abbrev pub AreCommands : List Stage → Type 0
AreCommands [] = Unit {0}
AreCommands (s ∷ ss) = IsStage s × (0 < length s.argv) × AreCommands ss

pub record IsPipeline (ss : List Stage) : Type 0 where
  pub inhabited : 0 < length ss
  pub few : length ss ≤ max_pipeline_stages
  pub commands : AreCommands ss

pub record IsParser (p : Parser) : Type 0 where
  pub few : length p.stages ≤ max_pipeline_stages
  pub commands : AreCommands p.stages
  pub current : IsStage p.cur
  pub content : p.cur_has_content ≡ true → 0 < length p.cur.argv

AreWords-append : (ws : List Bytes) (w : Bytes) → AreWords ws → IsWord w → AreWords (ws ++ w ∷ [])
AreWords-append [] w h k = (k, tt)
AreWords-append (x ∷ ws) w h k = (h.0, AreWords-append ws w h.1 k)

AreCommands-append :
    (ss : List Stage) (s : Stage)
    → AreCommands ss
    → IsStage s
    → 0 < length s.argv
    → AreCommands (ss ++ s ∷ [])
AreCommands-append [] s h k lt = (k, lt, tt)
AreCommands-append (x ∷ ss) s h k lt = (h.0, h.1, AreCommands-append ss s h.2 k lt)

-- A round on a line of which fewer than `n` bytes are left.
abbrev pub Good : ℕ → Outcome → Type 0
Good n (fails e) = Unit {0}
Good n (pipeline ss) = IsPipeline ss
Good n (goes_on p rest) = IsParser p × (length rest < n)

if-Good :
    (n : ℕ) (c : Bool) (a b : Outcome)
    → (c ≡ true → Good n a)
    → (c ≡ false → Good n b)
    → Good n (if c then a else b)
if-Good n true a b h k = h refl
if-Good n false a b h k = k refl

take_word-Good :
    (n : ℕ) (p : Parser) (w rest : Bytes)
    → IsParser p
    → IsWord w
    → length rest < n
    → Good n (take_word p w rest)
unfolding take_word
take_word-Good n p w rest v h lt =
    let grown = length-append p.cur.argv (w ∷ []) in
    if-Good n (length p.cur.argv == max_args) _ _ (λ e. tt)
      (λ room. (
        record {
          few = v.few;
          commands = v.commands;
          current = record {
            few = ground (arith, room, grown, v.current.few);
            words = AreWords-append p.cur.argv w v.current.words h;
            out_word = v.current.out_word;
            in_word = v.current.in_word;
          };
          content = λ e. omega (arith, grown);
        },
        lt,
      ))

pub empty_stage-IsStage : IsStage empty_stage
empty_stage-IsStage = record { few = omega arith; words = tt; out_word = tt; in_word = tt }

take_pipe-Good :
    (n : ℕ) (p : Parser) (rest : Bytes) → IsParser p → length rest < n → Good n (take_pipe p rest)
unfolding take_pipe
take_pipe-Good n p rest v lt =
    if-Good n (not p.cur_has_content) _ _ (λ e. tt)
      (λ has.
        if-Good n (length p.stages == max_pipeline_stages) _ _ (λ e. tt)
          (λ room. (
            record {
              few = ground (arith, room, length-append p.stages (p.cur ∷ []), v.few);
              commands =
                  AreCommands-append p.stages p.cur v.commands v.current
                    (v.content (ground (arith, has)));
              current = empty_stage-IsStage;
              content = λ e. absurd (ground (arith, e));
            },
            lt,
          )))

redirected-IsParser :
    (p : Parser) (kind : RedirectKind) (w : Bytes)
    → IsParser p
    → IsWord w
    → IsParser (redirected p kind w)
unfolding redirected
redirected-IsParser p in_ w v h = record {
  few = v.few;
  commands = v.commands;
  current = record {
    few = v.current.few;
    words = v.current.words;
    out_word = v.current.out_word;
    in_word = h;
  };
  content = v.content;
}
redirected-IsParser p no_redirect w v h = record {
  few = v.few;
  commands = v.commands;
  current = record {
    few = v.current.few;
    words = v.current.words;
    out_word = h;
    in_word = v.current.in_word;
  };
  content = v.content;
}
redirected-IsParser p out w v h = record {
  few = v.few;
  commands = v.commands;
  current = record {
    few = v.current.few;
    words = v.current.words;
    out_word = h;
    in_word = v.current.in_word;
  };
  content = v.content;
}
redirected-IsParser p out_append w v h = record {
  few = v.few;
  commands = v.commands;
  current = record {
    few = v.current.few;
    words = v.current.words;
    out_word = h;
    in_word = v.current.in_word;
  };
  content = v.content;
}

take_target-Good :
    (n : ℕ) (p : Parser) (kind : RedirectKind) (t : Option (Tok × Bytes))
    → IsParser p
    → Follows n t
    → Good n (take_target p kind t)
unfolding take_target
take_target-Good n p kind none v f = tt
take_target-Good n p kind (some (word w, rest)) v f = (redirected-IsParser p kind w v f.0, f.1)
take_target-Good n p kind (some (pipe, rest)) v f = tt
take_target-Good n p kind (some (great, rest)) v f = tt
take_target-Good n p kind (some (great_great, rest)) v f = tt
take_target-Good n p kind (some (less, rest)) v f = tt

finish-Good : (n : ℕ) (p : Parser) → IsParser p → Good n (finish p)
unfolding finish
finish-Good n p v =
    if-Good n (not p.cur_has_content) _ _
      (λ e. if-Good n (length p.stages == 0) _ _ (λ e'. tt) (λ e'. tt))
      (λ has.
        if-Good n (length p.stages == max_pipeline_stages) _ _ (λ e. tt)
          (λ room. record {
            inhabited = omega (arith, length-append p.stages (p.cur ∷ []));
            few = ground (arith, room, length-append p.stages (p.cur ∷ []), v.few);
            commands =
                AreCommands-append p.stages p.cur v.commands v.current
                  (v.content (ground (arith, has)));
          }))

Good-le : (n m : ℕ) (o : Outcome) → n ≤ m → Good n o → Good m o
Good-le n m (fails e) h g = tt
Good-le n m (pipeline ss) h g = g
Good-le n m (goes_on p rest) h g = (g.0, omega (arith, g.1))

target-Good :
    (n : ℕ) (p : Parser) (kind : RedirectKind) (rest : Bytes)
    → IsParser p
    → length rest < n
    → Good n (take_target p kind (next_token rest))
target-Good n p kind rest v lt =
    Good-le (length rest) n _ (omega arith)
      (take_target-Good (length rest) p kind (next_token rest) v (next_token-Follows rest))

pub round-Good :
    (n : ℕ) (p : Parser) (t : Option (Tok × Bytes)) → IsParser p → Follows n t → Good n (round p t)
unfolding round
round-Good n p none v f = finish-Good n p v
round-Good n p (some (word w, rest)) v f = take_word-Good n p w rest v f.0 f.1
round-Good n p (some (pipe, rest)) v f = take_pipe-Good n p rest v f.1
round-Good n p (some (great, rest)) v f = target-Good n p out rest v f.1
round-Good n p (some (great_great, rest)) v f = target-Good n p out_append rest v f.1
round-Good n p (some (less, rest)) v f = target-Good n p in_ rest v f.1
