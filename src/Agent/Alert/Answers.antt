-- ===== src/Agent/Alert/Answers.antt =====
-- agent/alert_trigger.py: what becomes of an alert.
use mathlib.Core.Path.{subst⁻¹}
use numi_dba_agent.Common.{
  ℕ, String, Bool, true, false, Option, none, some, List, [], ◌∷◌, ◌≡◌, refl, ◌==◌, ◌⊎◌, inl, inr,
  string_eq, Bool-cases, filter,
}
use numi_dba_agent.Common.Exec.{Result, ok, err}
use numi_dba_agent.RateLimit.Backend.{RateLimitBackend}
use numi_dba_agent.Agent.Session.{Services, Stop}
use numi_dba_agent.Agent.Continue.{Backend}
use numi_dba_agent.Agent.Unattended.{ScheduledSummary}
use numi_dba_agent.Agent.Unattended.Facts.{IsAbout, run_triggered_investigation-IsAbout}
use numi_dba_agent.Agent.Digest.{RegisteredServer}
use numi_dba_agent.Agent.Alert.Problem.{AlertPayload}
use numi_dba_agent.Agent.Alert.{
  Post, AlertSettings, AlertOffice, Room, Handled, is_named_by, resolve_server, only, cooled_down,
  failed_with, charge, charged, format_alert_result, delivered, deliver, answer_with, start,
  start_with, problem_for, after_cooldown, with_server, with_registry, handle_alert,
}

only-cases :
    (servers : List RegisteredServer)
    → (only servers ≡ none) × ((server : RegisteredServer) → ¬ (servers ≡ server ∷ []))
      ⊎ (server : RegisteredServer) × (only servers ≡ some server) × (servers ≡ server ∷ [])
unfolding only
only-cases [] = inl (refl, λ server h. absurd (cc))
only-cases (server ∷ []) = inr (server, refl, refl)
only-cases (server ∷ other ∷ servers) = inl (refl, λ server h. absurd (cc))

delivered-text :
    (post : Post) (answer : Result String (Unit {0}))
    → ((delivered post answer).text ≡ some post) × ((delivered post answer).suppressed ≡ false)
unfolding delivered failed_with
delivered-text post (ok done) = (refl, refl)
delivered-text post (err text) = (refl, refl)

module _ {World B : Type 0} (services : Services World) (backend : Backend World)
    (limiter : RateLimitBackend String B) (office : AlertOffice World)
    (settings : AlertSettings) where
  -- A post about this server was handed to the publisher, once and on the channel, and it is the text
  -- of the outcome; an exception comes before anything is posted.
  abbrev pub Posted : String → Room World B → Handled World B → Type 0
  Posted server_id r (err e, after) = after.published ≡ r.published
  Posted server_id r (ok outcome, after) =
      (post : Post) × (after.published ≡ (settings.alert_webhook_slack_channel, post) ∷ r.published)
      × (post.server_id ≡ server_id)
      × (outcome.text ≡ some post)
      × (outcome.suppressed ≡ false)

  abbrev pub Acted : AlertPayload → RegisteredServer → Room World B → Handled World B → Type 0
  Acted alert server r out =
      (out.1.started ≡ record { server_id = server.id; metric = alert.metric } ∷ r.started)
      × (out.1.cooldowns ≡ r.cooldowns)
      × Posted server.id r out

  abbrev pub Untouched : Room World B → Handled World B → Type 0
  Untouched r out = (out.1.started ≡ r.started) × (out.1.published ≡ r.published)

  answer_with-Posted :
      (alert : AlertPayload) (server_id : String) (result : Result Stop (Option ScheduledSummary))
      (r : Room World B)
      → IsAbout server_id result
      → Posted server_id r (answer_with services backend limiter office settings alert result r)
  unfolding answer_with deliver format_alert_result delivered failed_with
  answer_with-Posted alert server_id (ok (some summary)) r h =
      let post = format_alert_result alert summary in
      let (text, suppressed) = delivered-text post (office.publish _ post r.world).0 in
      (post, refl, h, text, suppressed)
  answer_with-Posted alert server_id (ok none) r h = refl
  answer_with-Posted alert server_id (err e) r h = refl

  answer_with-kept :
      (alert : AlertPayload) (result : Result Stop (Option ScheduledSummary)) (r : Room World B)
      → let out = answer_with services backend limiter office settings alert result r in
        (out.1.started ≡ r.started) × (out.1.cooldowns ≡ r.cooldowns)
  unfolding answer_with deliver
  answer_with-kept alert (ok (some summary)) r = (refl, refl)
  answer_with-kept alert (ok none) r = (refl, refl)
  answer_with-kept alert (err e) r = (refl, refl)

  start-Acted :
      (alert : AlertPayload) (server : RegisteredServer) (problem : String) (r : Room World B)
      → Acted alert server r (start services backend limiter office settings alert server problem r)
  unfolding start
  start-Acted alert server problem r =
      let (started, cooldowns) = answer_with-kept alert _ _ in
      (
        started,
        cooldowns,
        answer_with-Posted alert server.id _ _
            (run_triggered_investigation-IsAbout services backend _ server.id _ _ _ problem _),
      )

  -- whether the cooldown lets the alert through
  abbrev pub lets_through : AlertPayload → RegisteredServer → ℕ → Room World B → Bool
  lets_through alert server now r =
      (charge services backend limiter office settings alert server now r.cooldowns).0

  abbrev pub paid : AlertPayload → RegisteredServer → ℕ → Room World B → Room World B
  paid = charged services backend limiter office settings

  -- Nothing was started or posted: the cooldown said no, or the problem could not be formatted.
  abbrev pub Held : AlertPayload → RegisteredServer → ℕ → Room World B → Handled World B → Type 0
  Held alert server now r out =
      (out.1 ≡ paid alert server now r)
      × ((lets_through alert server now r ≡ false) × (out.0 ≡ ok cooled_down)
          ⊎ (problem_for services backend limiter office settings alert server ≡ none))

  abbrev pub Treated : AlertPayload → RegisteredServer → ℕ → Room World B → Handled World B → Type 0
  Treated alert server now r out =
      Held alert server now r out
      ⊎ (lets_through alert server now r ≡ true) × Acted alert server (paid alert server now r) out

  start_with-Acted :
      (alert : AlertPayload) (server : RegisteredServer) (problem : Option String)
      (r : Room World B)
      → let out = start_with services backend limiter office settings alert server problem r in
        (out.1 ≡ r) × (problem ≡ none) ⊎ Acted alert server r out
  unfolding start_with
  start_with-Acted alert server none r = inl (refl, refl)
  start_with-Acted alert server (some problem) r = inr (start-Acted alert server problem r)

  after_cooldown-Treated :
      (alert : AlertPayload) (server : RegisteredServer) (now : ℕ) (r : Room World B)
      → Treated alert server now r
          (after_cooldown services backend limiter office settings alert server now r)
  unfolding after_cooldown
  after_cooldown-Treated alert server now r =
      let problem = problem_for services backend limiter office settings alert server in
      elim (Bool-cases (lets_through alert server now r)) [
        | inl t ↦ elim (start_with-Acted alert server problem (paid alert server now r)) [
          | inl (same, unformatted) ↦ rw t (inl (same, inr unformatted))
          | inr acted ↦ rw t (inr (refl, acted))
        ]
        | inr f ↦ rw f (inl (refl, inl (refl, refl)))
      ]

  -- the one registered server that the alert names, where the feature is configured
  abbrev pub Target : AlertPayload → Room World B → RegisteredServer → Type 0
  unfolding string_eq
  Target alert r server =
      ((settings.alert_webhook_slack_channel == "") ≡ false)
      × (servers : List RegisteredServer) × ((office.list_registered_servers r.world).0
          ≡ ok servers)
      × (filter (is_named_by alert.server) servers ≡ server ∷ [])

  abbrev pub Refused : Room World B → Handled World B → Type 0
  Refused r (err e, after) = ⊥
  Refused r (ok outcome, after) =
      (outcome.is_done ≡ false)
      × (outcome.text ≡ none)
      × (after.started ≡ r.started)
      × (after.published ≡ r.published)
      × (after.cooldowns ≡ r.cooldowns)

  abbrev pub Answered : AlertPayload → ℕ → Room World B → Handled World B → Type 0
  Answered alert now r out =
      (¬ ((server : RegisteredServer) × Target alert r server)) × Refused r out
      ⊎ (server : RegisteredServer) × (listed : World) × Target alert r server
        × Treated alert server now (record r { world = listed }) out

  with_registry-Answered :
      (alert : AlertPayload) (now : ℕ) (r : Room World B)
      (registry : Result String (List RegisteredServer))
      → (settings.alert_webhook_slack_channel == "") ≡ false
      → (office.list_registered_servers r.world).0 ≡ registry
      → Answered alert now r (
          with_registry services backend limiter office settings alert registry now
            (record r { world = (office.list_registered_servers r.world).1 }))
  unfolding with_registry failed_with resolve_server with_server
  with_registry-Answered alert now r (err text) on answer =
      inl (λ (server, (off, servers, listed, named)). absurd (cc), (refl, refl, refl, refl, refl))
  with_registry-Answered alert now r (ok servers) on answer =
      elim (only-cases (filter (is_named_by alert.server) servers)) [
        | inl (h, several) ↦ rw h (
            inl (
              λ (server, (off, others, listed, named)). several server (cc),
              (refl, refl, refl, refl, refl),
            ))
        | inr (server, h, named) ↦ rw h (
            inr
              (server, _, (on, servers, answer, named), after_cooldown-Treated alert server now _))
      ]

  -- Where no channel is configured, or the registry cannot be read, or the alert's reference does not
  -- name exactly one registered server, the outcome is a failure without a text and nothing was
  -- started, posted or counted. Otherwise the alert is treated for that one server. Either nothing is
  -- started or posted, because the cooldown says no (and the outcome says so) or because its problem
  -- cannot be formatted; or the cooldown lets it through and one investigation is started, of that
  -- server, and then, unless an exception ends the run, one post about that server is handed to the
  -- publisher, on the channel, and it is the text of the outcome.
  pub handle_alert-Answered :
      (alert : AlertPayload) (now : ℕ) (r : Room World B)
      → Answered alert now r (handle_alert services backend limiter office settings alert now r)
  unfolding handle_alert failed_with
  handle_alert-Answered alert now r =
      elim (Bool-cases (settings.alert_webhook_slack_channel == "")) [
        | inl t ↦ rw t (
            inl (
              λ (server, (off, servers, listed, named)). absurd (cc),
              (refl, refl, refl, refl, refl),
            ))
        | inr f ↦
            subst⁻¹ (λ (out : Handled World B). Answered alert now r out) (rw f refl)
              (with_registry-Answered alert now r _ f refl)
      ]
