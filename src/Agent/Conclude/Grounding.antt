-- ===== src/Agent/Conclude/Grounding.antt =====
-- agent/orchestrator.py: `_ungrounded_identifiers`, the names of a conclusion that no evidence has.
use numi_dba_agent.Common.{
  String, not, Option, none, some, List, [], ◌∷◌, ◌==◌, contains, string_eq, filter, if◌then◌else◌,
}
use numi_dba_agent.Common.Format.{join, starts_with}
use numi_dba_agent.Common.Text.{lower, is_in}
use numi_dba_agent.Models.Json.{given}
use numi_dba_agent.Agent.Actions.{Conclude}
use numi_dba_agent.Agent.State.{InvestigationState, Entry}
use numi_dba_agent.Agent.Session.{Services}

-- `filter(None, texts)`
given_texts : List (Option String) → List String
unfolding given
given_texts [] = []
given_texts (none ∷ texts) = given_texts texts
given_texts (some text ∷ texts) =
    let rest = given_texts texts in if given (some text) then text ∷ rest else rest

unfoldable pub claimed_text : Conclude → String
unfolding given_texts join
claimed_text conclusion = join " " (
    given_texts
      (some conclusion.summary ∷ conclusion.likely_root_cause ∷ conclusion.recommendation ∷ []))

-- the loop over the matches: a name that was seen, or that the haystack has, is passed over
unfoldable pub missing_names : String → List String → List String → List String
missing_names haystack seen [] = []
missing_names haystack seen (name ∷ names) =
    let again = missing_names haystack seen names in
    let rest = missing_names haystack (name ∷ seen) names in
    if contains seen name then again else if is_in (lower name) haystack then rest else name ∷ rest

module _ {World : Type 0} (services : Services World) where
  -- what the investigation has seen, less what this check itself wrote
  unfoldable pub haystack : InvestigationState → String
  unfolding string_eq join starts_with lower
  haystack inv = lower (
      join " " (
        services.dump_transcript
          (filter (λ (e : Entry). not (e.tool_id == "internal.grounding_check")) inv.transcript)
        ∷ inv.problem
        ∷ join " " (
            filter (λ (text : String). not (starts_with text "(a draft conclusion naming"))
              inv.evidence)
        ∷ []))

  unfoldable pub ungrounded_identifiers : Conclude → InvestigationState → List String
  unfolding missing_names claimed_text haystack
  ungrounded_identifiers conclusion inv =
      missing_names (haystack inv) [] (services.camel_case_names (claimed_text conclusion))
