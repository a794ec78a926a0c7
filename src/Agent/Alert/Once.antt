-- ===== src/Agent/Alert/Once.antt =====
-- agent/alert_trigger.py: a sequence of alerts over the in-memory backend, and how often it starts an
-- investigation of one server for one metric.
use numi_dba_agent.Common.{
  ℕ, suc, ◌+◌, ◌*◌, ◌≤◌, ◌<◌, String, true, List, [], ◌∷◌, ◌≡◌, refl, ◌∙◌, ◌⊎◌, inl, inr, All,
  string_eq, leb, arith,
}
use numi_dba_agent.RateLimit.Backend.{microseconds}
use numi_dba_agent.RateLimit.Cooldown.{Full, Counted, Full-Counted, fresh-Counted}
use numi_dba_agent.Agent.Session.{Services}
use numi_dba_agent.Agent.Continue.{Backend}
use numi_dba_agent.Agent.Alert.Problem.{AlertPayload}
use numi_dba_agent.Agent.Alert.{AlertSettings, AlertOffice, Room}
use numi_dba_agent.Agent.Alert.Cooldown.{
  Counts, starts, handle_in_memory, Missed, Hit, Effect-cases, Effect-Full, Effect-Counted,
  handle_alert-Effect,
}

-- an alert and the time at which it is counted
abbrev pub Timed : Type 0
Timed = AlertPayload × ℕ

-- all within one cooldown of `first`
abbrev pub Within : ℕ → ℕ → List Timed → Type 0
Within first seconds alerts =
    All (λ (a : Timed). (first ≤ a.1) × (a.1 < first + seconds * microseconds)) alerts

Within-before :
    (first seconds : ℕ) (alerts : List Timed)
    → Within first seconds alerts
    → All (λ (a : Timed). a.1 < first + seconds * microseconds) alerts
Within-before first seconds [] times = tt
Within-before first seconds (a ∷ alerts) ((late, early), times) =
    (early, Within-before first seconds alerts times)

module _ {World : Type 0} (services : Services World) (backend : Backend World)
    (office : AlertOffice World) (settings : AlertSettings) where
  abbrev seconds : ℕ
  seconds = settings.alert_webhook_cooldown_seconds

  -- alerts handled one after another, each at its time
  unfoldable pub handle_all : List Timed → Room World Counts → Room World Counts
  handle_all [] r = r
  handle_all ((alert, now) ∷ alerts) r =
      handle_all alerts (handle_in_memory services backend office settings alert now r).1

  module _ (key : String) (on : leb 1 settings.alert_webhook_cooldown_seconds ≡ true) where
    handle_cases :
        (alert : AlertPayload) (now : ℕ) (r : Room World Counts)
        → let after = (handle_in_memory services backend office settings alert now r).1 in
          Missed key seconds now r.cooldowns r.started after.cooldowns after.started
          ⊎ Hit key seconds now r.cooldowns r.started after.cooldowns after.started
    handle_cases alert now r =
        Effect-cases key _ now r.cooldowns r.started _ _
          (handle_alert-Effect services backend office settings alert now r on)

    handle_all-Full :
        (alerts : List Timed) (until : ℕ) (r : Room World Counts)
        → All (λ (a : Timed). a.1 < until) alerts
        → Full key seconds until r.cooldowns
        → starts key (handle_all alerts r).started ≡ starts key r.started
    unfolding handle_all
    handle_all-Full [] until r times full = refl
    handle_all-Full ((alert, now) ∷ alerts) until r (early, times) full =
        let (still, idle) =
          Effect-Full key _ now r.cooldowns r.started _ _ until early full
            (handle_cases alert now r) in
        handle_all-Full alerts until _ times still ∙ idle

    handle_all-Counted :
        (alerts : List Timed) (r : Room World Counts)
        → Counted key seconds r.cooldowns
        → Counted key seconds (handle_all alerts r).cooldowns
    unfolding handle_all
    handle_all-Counted [] r counted = counted
    handle_all-Counted ((alert, now) ∷ alerts) r counted =
        handle_all-Counted alerts _
          (elim (Effect-Counted key _ now r.cooldowns r.started _ _ now (omega arith) counted
            (handle_cases alert now r)) [
              | inl (still, idle) ↦ still
              | inr (full, begun) ↦ Full-Counted key seconds _ _ full
            ])

    from_Counted :
        (alerts : List Timed) (first : ℕ) (r : Room World Counts)
        → Within first seconds alerts
        → Counted key seconds r.cooldowns
        → starts key (handle_all alerts r).started ≤ suc (starts key r.started)
    unfolding handle_all
    from_Counted [] first r times counted = omega arith
    from_Counted ((alert, now) ∷ alerts) first r ((late, early), times) counted =
        let after = (handle_in_memory services backend office settings alert now r).1 in
        elim (Effect-Counted key _ now r.cooldowns r.started _ _ first late counted
          (handle_cases alert now r)) [
            | inl (still, idle) ↦
                let rest = from_Counted alerts first after times still in omega (arith, idle, rest)
            | inr (full, begun) ↦
                let rest =
                  handle_all-Full alerts _ after (Within-before first seconds alerts times) full in
                omega (arith, begun, rest)
          ]

  -- With the in-memory backend and a cooldown of at least one second, whatever alerts came before,
  -- and whatever alerts come within one cooldown of some moment: of these, at most one starts an
  -- investigation that is counted under a given server and metric.
  pub handle_all_once :
      (key : String) (earlier alerts : List Timed) (first : ℕ) (r : Room World Counts)
      → 1 ≤ settings.alert_webhook_cooldown_seconds
      → r.cooldowns ≡ []
      → Within first settings.alert_webhook_cooldown_seconds alerts
      → starts key (handle_all alerts (handle_all earlier r)).started
        ≤ suc (starts key (handle_all earlier r).started)
  handle_all_once key earlier alerts first r some_seconds fresh times =
      let on : leb 1 settings.alert_webhook_cooldown_seconds ≡ true = ground arith in
      from_Counted key on alerts first (handle_all earlier r) times
        (handle_all-Counted key on earlier r (fresh-Counted key seconds r.cooldowns fresh))
