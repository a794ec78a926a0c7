-- ===== src/Agent/Targets/Agreement.antt =====
-- agent/orchestrator.py: an environment is filled in only where the servers of that name agree.
use mathlib.Core.Path.{subst}
use numi_dba_agent.Common.{
  String, Bool, true, false, Option, none, some, List, [], ◌∷◌, ◌≡◌, refl, ap, string_eq,
  Bool-cases, inl, inr, ◌⊎◌, arith, if◌then◌else◌, All,
}
use numi_dba_agent.Models.Json.{given}
use numi_dba_agent.Agent.Targets.{
  ServerInfo, stated, prepend_given, all_equal, only, find_matching_servers,
  environment_for_instance,
}

all_equal_sound : (x : String) (ys : List String) → all_equal x ys ≡ true → All (λ y. y ≡ x) ys
unfolding all_equal
all_equal_sound x [] h = tt
all_equal_sound x (y ∷ ys) h = (ground arith, all_equal_sound x ys (ground arith))

only_sound : (xs : List String) (e : String) → only xs ≡ some e → All (λ x. x ≡ e) xs
unfolding only
only_sound [] e h = tt
only_sound (x ∷ xs) e h = elim (Bool-cases (all_equal x xs)) [
  | inl same ↦
      let x=e : x ≡ e = ground arith in
      (x=e, subst (λ (t : String). All (λ y. y ≡ t) xs) x=e (all_equal_sound x xs same))
  | inr other ↦ absurd (ground arith)
]

-- the server states no other environment
abbrev pub Agrees : String → ServerInfo → Type 0
Agrees e s = (given s.environment ≡ false) ⊎ (s.environment ≡ some e)

first_agrees :
    (e : String) (o : Option String) (texts : List String)
    → All (λ x. x ≡ e) (prepend_given o texts)
    → ((given o ≡ false) ⊎ (o ≡ some e)) × All (λ x. x ≡ e) texts
unfolding prepend_given given
first_agrees e none texts h = (inl refl, h)
first_agrees e (some x) texts h = elim (Bool-cases (given (some x))) [
  | inl g ↦
      let (head, tail) =
        subst (λ (b : Bool). All (λ y. y ≡ e) (if b then x ∷ texts else texts)) g h in
      (inr (ap some head), tail)
  | inr g ↦ (inl g, subst (λ (b : Bool). All (λ y. y ≡ e) (if b then x ∷ texts else texts)) g h)
]

stated_sound :
    (e : String) (servers : List ServerInfo)
    → All (λ x. x ≡ e) (stated servers)
    → All (Agrees e) servers
unfolding stated
stated_sound e [] h = tt
stated_sound e (s ∷ servers) h =
    let (first, rest) = first_agrees e s.environment (stated servers) h in
    (first, stated_sound e servers rest)

-- Where an environment is filled in for a named instance, every registered server that the name can
-- mean, and that states an environment, states that one.
pub environment_for_instance-Agrees :
    (servers : List ServerInfo) (hint e : String)
    → environment_for_instance servers hint ≡ some e
    → All (Agrees e) (find_matching_servers servers hint)
unfolding environment_for_instance
environment_for_instance-Agrees servers hint e h = stated_sound e _ (only_sound _ e h)
