-- ===== src/Agent/Alert/Cooldown.antt =====
-- agent/alert_trigger.py over the in-memory backend of common/rate_limit_backend.py: how often an
-- investigation of one server for one metric starts.
use mathlib.Core.Path.{subst}
use numi_dba_agent.Common.{
  ℕ, suc, ◌+◌, ◌*◌, ◌≤◌, ◌<◌, String, Bool, true, false, List, ◌∷◌, ◌≡◌, refl, sym, ap, ◌∙◌, ◌==◌,
  ◌⊎◌, inl, inr, Bool-cases, string_eq, ==→eq, filter, length, leb, arith,
}
use numi_dba_agent.Common.Dict
use numi_dba_agent.Common.Exec.{ok, err}
use numi_dba_agent.RateLimit.Backend.{Buckets, microseconds, increment_and_check, in_memory}
use numi_dba_agent.RateLimit.Cooldown.{
  Full, Counted, increment_other, increment-Full, increment_passed, increment-Counted,
}
use numi_dba_agent.Agent.Session.{Services}
use numi_dba_agent.Agent.Continue.{Backend}
use numi_dba_agent.Agent.Digest.{RegisteredServer}
use numi_dba_agent.Agent.Alert.Problem.{AlertPayload}
use numi_dba_agent.Agent.Alert.{
  AlertSettings, AlertOffice, Start, Room, Handled, charge, cooldown_key, handle_alert,
}
use numi_dba_agent.Agent.Alert.Answers.{Refused, Treated, handle_alert-Answered}

abbrev pub Counts : Type 0
Counts = Buckets String

abbrev pub key_of : Start → String
key_of s = cooldown_key s.server_id s.metric

-- how many of the investigations that started count under a key
abbrev pub starts : String → List Start → ℕ
starts key started = length (filter (λ s. key_of s == key) started)

-- What one alert did to the cooldowns and the started investigations: nothing, or it was counted
-- under its key, and then it started an investigation at most if the backend let it.
abbrev pub Effect : ℕ → ℕ → Counts → List Start → Counts → List Start → Type 0
Effect seconds now counts started counts' started' =
    (counts' ≡ counts) × (started' ≡ started)
    ⊎ (s : Start) × (counts' ≡ (increment_and_check (key_of s) 1 seconds now counts).1)
      × ((started' ≡ started)
          ⊎ ((increment_and_check (key_of s) 1 seconds now counts).0 ≡ true)
            × (started' ≡ s ∷ started))

starts-∷_eq :
    (key : String) (s : Start) (started : List Start)
    → (key_of s == key) ≡ true
    → starts key (s ∷ started) ≡ suc (starts key started)
starts-∷_eq key s started h = rw h refl

starts-∷_other :
    (key : String) (s : Start) (started : List Start)
    → (key_of s == key) ≡ false
    → starts key (s ∷ started) ≡ starts key started
starts-∷_other key s started h = rw h refl

module _ (key : String) (seconds now : ℕ) (counts : Counts) (started : List Start)
    (counts' : Counts) (started' : List Start) where
  -- an alert that was not counted under the key, and one that was
  abbrev pub Missed : Type 0
  Missed = (Dict.get counts' key ≡ Dict.get counts key) × (starts key started' ≡ starts key started)

  abbrev pub Hit : Type 0
  Hit =
      (counts' ≡ (increment_and_check key 1 seconds now counts).1)
      × ((starts key started' ≡ starts key started)
          ⊎ ((increment_and_check key 1 seconds now counts).0 ≡ true)
            × (starts key started' ≡ suc (starts key started)))

  Effect-Missed :
      (s : Start)
      → (key_of s == key) ≡ false
      → counts' ≡ (increment_and_check (key_of s) 1 seconds now counts).1
      → (started' ≡ started)
        ⊎ ((increment_and_check (key_of s) 1 seconds now counts).0 ≡ true)
          × (started' ≡ s ∷ started)
      → Missed
  Effect-Missed s other same acted = (
    ap (λ (c : Counts). Dict.get c key) same
        ∙ increment_other key seconds (key_of s) now counts other,
    elim acted [
      | inl idle ↦ ap (starts key) idle
      | inr (within, begun) ↦ ap (starts key) begun ∙ starts-∷_other key s started other
    ],
  )

  Effect-Hit :
      (s : Start)
      → (key_of s == key) ≡ true
      → counts' ≡ (increment_and_check (key_of s) 1 seconds now counts).1
      → (started' ≡ started)
        ⊎ ((increment_and_check (key_of s) 1 seconds now counts).0 ≡ true)
          × (started' ≡ s ∷ started)
      → Hit
  Effect-Hit s mine same acted =
      let p : key_of s ≡ key = ==→eq (key_of s) key mine in
      let q = ap (λ (k : String). increment_and_check k 1 seconds now counts) p in
      (
        same ∙ ap (λ (c : Bool × Counts). c.1) q,
        elim acted [
          | inl idle ↦ inl (ap (starts key) idle)
          | inr (within, begun) ↦ inr (
            sym (ap (λ (c : Bool × Counts). c.0) q) ∙ within,
            ap (starts key) begun ∙ starts-∷_eq key s started mine,
          )
        ],
      )

  pub Effect-cases : Effect seconds now counts started counts' started' → Missed ⊎ Hit
  Effect-cases (inl (same, idle)) =
      inl (ap (λ (c : Counts). Dict.get c key) same, ap (starts key) idle)
  Effect-cases (inr (s, same, acted)) = elim (Bool-cases (key_of s == key)) [
    | inl mine ↦ inr (Effect-Hit s mine same acted)
    | inr other ↦ inl (Effect-Missed s other same acted)
  ]

  -- While the bucket is full nothing starts under its key.
  pub Effect-Full :
      (until : ℕ)
      → now < until
      → Full key seconds until counts
      → Missed ⊎ Hit
      → Full key seconds until counts' × (starts key started' ≡ starts key started)
  Effect-Full until early (count, opened, found, late) (inl (same, idle)) =
      ((count, opened, same ∙ found, late), idle)
  Effect-Full until early full (inr (same, acted)) =
      let (refused, still) = increment-Full key seconds until now counts early full in
      (
        subst (Full key seconds until) (sym same) still,
        elim acted [ inl idle ↦ idle | inr (within, begun) ↦ absurd (cc) ],
      )

  -- Otherwise at most one investigation starts under the key, and then the bucket is full.
  pub Effect-Counted :
      (first : ℕ)
      → first ≤ now
      → Counted key seconds counts
      → Missed ⊎ Hit
      → Counted key seconds counts' × (starts key started' ≡ starts key started)
        ⊎ Full key seconds (first + seconds * microseconds) counts'
          × (starts key started' ≡ suc (starts key started))
  Effect-Counted first late counted (inl (same, idle)) =
      inl (λ opened h. counted opened (sym same ∙ h), idle)
  Effect-Counted first late counted (inr (same, inl idle)) =
      inl (subst (Counted key seconds) (sym same) (increment-Counted key seconds now counts), idle)
  Effect-Counted first late counted (inr (same, inr (within, begun))) =
      let opened = increment_passed key seconds now counts counted within in
      inr ((0, now, ap (λ (c : Counts). Dict.get c key) same ∙ opened, omega (arith, late)), begun)

module _ {World : Type 0} (services : Services World) (backend : Backend World)
    (office : AlertOffice World) (settings : AlertSettings) where
  abbrev pub handle_in_memory : AlertPayload → ℕ → Room World Counts → Handled World Counts
  handle_in_memory = handle_alert services backend in_memory office settings

  Refused-kept :
      (r : Room World Counts) (out : Handled World Counts)
      → Refused services backend in_memory office settings r out
      → (out.1.cooldowns ≡ r.cooldowns) × (out.1.started ≡ r.started)
  Refused-kept r (ok outcome, after) h = ground arith
  Refused-kept r (err e, after) h = absurd h

  charge_counts :
      (alert : AlertPayload) (server : RegisteredServer) (now : ℕ) (counts : Counts)
      → leb 1 settings.alert_webhook_cooldown_seconds ≡ true
      → charge services backend in_memory office settings alert server now counts
        ≡ increment_and_check
            (cooldown_key server.id alert.metric)
            1
            settings.alert_webhook_cooldown_seconds
            now
            counts
  unfolding charge in_memory
  charge_counts alert server now counts on = rw on refl

  Treated-Effect :
      (alert : AlertPayload) (server : RegisteredServer) (now : ℕ) (r : Room World Counts)
      (out : Handled World Counts)
      → leb 1 settings.alert_webhook_cooldown_seconds ≡ true
      → Treated services backend in_memory office settings alert server now r out
      → Effect settings.alert_webhook_cooldown_seconds now r.cooldowns r.started out.1.cooldowns
          out.1.started
  Treated-Effect alert server now r out on (inl (same, why)) = inr (
    record { server_id = server.id; metric = alert.metric },
    ap (λ (t : Room World Counts). t.cooldowns) same
        ∙ ap (λ (c : Bool × Counts). c.1) (charge_counts alert server now r.cooldowns on),
    inl (ap (λ (t : Room World Counts). t.started) same),
  )
  Treated-Effect alert server now r out on (inr (through, (started, kept, posted))) = inr (
    record { server_id = server.id; metric = alert.metric },
    kept ∙ ap (λ (c : Bool × Counts). c.1) (charge_counts alert server now r.cooldowns on),
    inr (
      sym (ap (λ (c : Bool × Counts). c.0) (charge_counts alert server now r.cooldowns on))
          ∙ through,
      started,
    ),
  )

  pub handle_alert-Effect :
      (alert : AlertPayload) (now : ℕ) (r : Room World Counts)
      → leb 1 settings.alert_webhook_cooldown_seconds ≡ true
      → Effect settings.alert_webhook_cooldown_seconds now r.cooldowns r.started
          (handle_in_memory alert now r).1.cooldowns
          (handle_in_memory alert now r).1.started
  handle_alert-Effect alert now r on =
      elim (handle_alert-Answered services backend in_memory office settings alert now r) [
        | inl (untargeted, refused) ↦ inl (Refused-kept r (handle_in_memory alert now r) refused)
        | inr (server, listed, target, treated) ↦
            Treated-Effect alert server now (record r { world = listed })
              (handle_in_memory alert now r) on treated
      ]
