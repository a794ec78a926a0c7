-- ===== src/Agent/Fallback.antt =====
-- agent/llm/fallback.py: one call of a language model, tried on one provider after another within a
-- common deadline. The clock is a function of the world, in microseconds; a provider's call under its
-- time limit (`asyncio.wait_for`) is a function of the limit and the world.
pub mod Deadline
pub mod Order
use Prim.Native.Nat.{min, max}
use numi_dba_agent.Common.{
  ℕ, suc, ◌+◌, ◌-◌, ◌*◌, ◌/◌, String, Bool, true, false, not, ◌||◌, Option, none, some, List, [],
  ◌∷◌, ◌++◌, map, length, leb, contains, string_eq, is_empty, if◌then◌else◌,
}
use numi_dba_agent.Common.Exec.{Result, ok, err}
use numi_dba_agent.Common.Format.{concat, join}

-- `OVERALL_DEADLINE_SECONDS` of agent/llm/base.py
abbrev pub overall_deadline : ℕ
overall_deadline = 20000000

abbrev min_per_attempt_budget : ℕ
min_per_attempt_budget = 5000000

-- The quotient of the source is a float: here it is rounded down to a microsecond.
unfoldable pub per_attempt_budget : ℕ → ℕ → ℕ
per_attempt_budget total attempts =
    if leb attempts 1 then total else min total (max min_per_attempt_budget (total / attempts))

pub record FallbackEvent : Type 0 where
  pub failed_providers : List String
  pub used_provider : String

add_new : List String → String → List String
unfolding string_eq
add_new names name = if contains names name then names else names ++ name ∷ []

add_all : List String → List String → List String
unfolding add_new
add_all names [] = names
add_all names (x ∷ xs) = add_all (add_new names x) xs

failed_names : List String → List FallbackEvent → List String
unfolding add_all
failed_names names [] = names
failed_names names (e ∷ events) = failed_names (add_all names e.failed_providers) events

used_names : List String → List FallbackEvent → List String
unfolding add_new
used_names names [] = names
used_names names (e ∷ events) = used_names (add_new names e.used_provider) events

-- all names but the last, and the last
but_last : String → List String → List String × String
but_last x [] = ([], x)
but_last x (y ∷ ys) = let (front, last) = but_last y ys in (x ∷ front, last)

-- `_join`, of at least one name
join_names : String → List String → String
unfolding but_last concat join
join_names x [] = x
join_names x (y ∷ ys) =
    let (front, last) = but_last x (y ∷ ys) in concat (join ", " front ∷ " and " ∷ last ∷ [])

notice_of : List String → List String → String
unfolding join_names concat
notice_of [] used = ""
notice_of (f ∷ failed) [] = ""
notice_of (f ∷ failed) (u ∷ used) = concat (
    "(The "
    ∷ join_names f failed
    ∷ " "
    ∷ (if is_empty failed then "service" else "services")
    ∷ " "
    ∷ (if is_empty failed then "was" else "were")
    ∷ " unavailable, so I used "
    ∷ join_names u used
    ∷ " instead.)"
    ∷ [])

unfoldable pub fallback_notice_text : List FallbackEvent → String
unfolding notice_of failed_names used_names
fallback_notice_text events = notice_of (failed_names [] events) (used_names [] events)

-- what a provider's call raises: the last is any other exception
pub data CallError : Type 0 where
  unavailable timed_out : CallError
  other : String → CallError

-- what `_walk` raises
pub data WalkError : Type 0 where
  none_reached : WalkError  -- `LLMProviderUnavailableError`
  escaped : String → WalkError

-- A provider of the chain: its factory, which may raise, and the call that `_walk` is given, under a
-- time limit.
pub record Candidate (World A : Type 0) : Type 0 where
  pub name : String
  pub build : World → Result String (Unit {0}) × World
  pub call : ℕ → World → Result CallError A × World

abbrev pub Walked : Type 0 → Type 0 → Type 0
Walked World A = Result WalkError A × List FallbackEvent × World

-- A provider answered: a notice says whose place it took. (Where no one collects notices, the source
-- keeps none.)
unfoldable pub record_use : List String → String → List FallbackEvent → List FallbackEvent
record_use [] used notices = notices
record_use (f ∷ failed) used notices =
    notices ++ record { failed_providers = f ∷ failed; used_provider = used } ∷ []

module _ {World A : Type 0} where
  -- what follows a call: the answer, the next provider, or the exception
  after_call :
      String
      → (List String → World → Walked World A)
      → List String
      → List FallbackEvent
      → Result CallError A × World
      → Walked World A
  unfolding record_use
  after_call name next failed notices (ok result, w) =
      (ok result, record_use failed name notices, w)
  after_call name next failed notices (err unavailable, w) = next (failed ++ name ∷ []) w
  after_call name next failed notices (err timed_out, w) = next (failed ++ name ∷ []) w
  after_call name next failed notices (err (other text), w) = (err (escaped text), notices, w)

  -- the provider is built, then called
  after_build :
      Candidate World A
      → (List String → World → Walked World A)
      → ℕ
      → List String
      → List FallbackEvent
      → Result String (Unit {0}) × World
      → Walked World A
  unfolding after_call
  after_build c next limit failed notices (ok built, w) =
      after_call c.name next failed notices (c.call limit w)
  after_build c next limit failed notices (err text, w) = next (failed ++ c.name ∷ []) w

  -- `extract_intent` and `decide_next_action`: an answer of their own if no provider was reached
  unfoldable pub or_default : A → Walked World A → Walked World A
  or_default default (ok result, notices, w) = (ok result, notices, w)
  or_default default (err none_reached, notices, w) = (ok default, notices, w)
  or_default default (err (escaped text), notices, w) = (err (escaped text), notices, w)

module _ {World A : Type 0} (now : World → ℕ) (total : ℕ) where
  -- the `for`, which ends where no time is left
  walk_from :
      ℕ → ℕ → List (Candidate World A) → List String → List FallbackEvent → World → Walked World A
  unfolding after_build
  walk_from budget started [] failed notices w = (err none_reached, notices, w)
  walk_from budget started (c ∷ chain) failed notices w =
      let elapsed = now w - started in
      let next =
        λ (names : List String) (w' : World). walk_from budget started chain names notices w' in
      if leb total elapsed
      then (err none_reached, notices, w)
      else after_build c next (min budget (total - elapsed)) failed notices (c.build w)

  -- `chain` is the primary provider and the fallbacks
  unfoldable pub walk : List (Candidate World A) → List FallbackEvent → World → Walked World A
  unfolding walk_from per_attempt_budget
  walk chain notices w =
      walk_from (per_attempt_budget total (length chain)) (now w) chain [] notices w
