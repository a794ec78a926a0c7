-- ===== src/Servers/Resolution.antt =====
-- gateway/domain/servers.py: what a resolved target is.
use mathlib.Core.List.{Memᴰ}
use mathlib.Core.Path.{subst}
use numi_dba_agent.Common.{
  String, Bool, true, false, ◌&&◌, ◌≡◌, refl, Option, none, some, List, [], ◌∷◌, ◌==◌, string_eq,
  filter, All, All-filter, All-filter_self, ==→eq, arith, if◌then◌else◌,
}
use numi_dba_agent.Common.Exec.{Result, ok}
use numi_dba_agent.Models.Target.{DatabaseTarget, Platform, platform_eq}
use numi_dba_agent.Common.Text.{lower, strip}
use numi_dba_agent.Models.Json.{given}
use numi_dba_agent.Servers.{
  only_one, is_plural, matches_exactly, matches_partly, named_for, ServerEntry, ResolveError,
  is_eligible, narrow_by_platform, narrow_by_hint, narrow_by_database, find_candidates, resolve,
}

-- A server of the registry, active, in the target's environment and of its platform, if it names
-- one.
pub record Fits (entries : List ServerEntry) (target : DatabaseTarget) (e : ServerEntry)
    : Type 0 where
  pub registered : Memᴰ e entries
  pub same_environment : e.environment ≡ target.environment
  pub active : e.status ≡ "active"
  pub same_platform : (p : Platform) → target.platform ≡ some p → e.platform ≡ p

module _ {ℓ} {A : Type ℓ} where
  All-map {κ λ'} :
      (P : A → Type κ) (Q : A → Type λ') (xs : List A) → ((x : A) → P x → Q x) → All P xs → All Q xs
  All-map P Q [] f h = tt
  All-map P Q (x ∷ xs) f (hx, hs) = (f x hx, All-map P Q xs f hs)

  All-zip {κ λ' μ} :
      (P : A → Type κ) (Q : A → Type λ') (R : A → Type μ) (xs : List A)
      → ((x : A) → P x → Q x → R x)
      → All P xs
      → All Q xs
      → All R xs
  All-zip P Q R [] f h k = tt
  All-zip P Q R (x ∷ xs) f (hx, hs) (kx, ks) = (f x hx kx, All-zip P Q R xs f hs ks)

  All-choice {κ} :
      (P : A → Type κ) (b : Bool) (xs ys : List A)
      → All P xs
      → All P ys
      → All P (if b then xs else ys)
  All-choice P true xs ys hx hy = hx
  All-choice P false xs ys hx hy = hy

  All-Memᴰ : (xs : List A) → All (λ x. Memᴰ x xs) xs
  All-Memᴰ [] = tt
  All-Memᴰ (x ∷ xs) = (
    Memᴰ.head refl,
    All-map (λ y. Memᴰ y xs) (λ y. Memᴰ y (x ∷ xs)) xs (λ y m. Memᴰ.tail m) (All-Memᴰ xs),
  )

abbrev Keeps : (List ServerEntry → List ServerEntry) → Type 1
Keeps narrow = (P : ServerEntry → Type 0) (es : List ServerEntry) → All P es → All P (narrow es)

narrow_by_hint-Keeps : (hint : Option String) → Keeps (narrow_by_hint hint)
unfolding narrow_by_hint
narrow_by_hint-Keeps none P es h = h
narrow_by_hint-Keeps (some hint) P es h =
    let needle = lower (strip hint) in
    All-choice P (given (some hint)) _ _
      (All-choice P _ _ _ (All-filter P (matches_partly needle) es h)
        (All-filter P (matches_exactly needle) es h))
      h

narrow_by_database-Keeps : (database : Option String) → Keeps (narrow_by_database database)
unfolding narrow_by_database
narrow_by_database-Keeps none P es h = h
narrow_by_database-Keeps (some database) P es h =
    All-choice P (given (some database) && is_plural es) _ _
      (All-choice P _ _ _ h (All-filter P (named_for (lower (strip database))) es h)) h

abbrev OfPlatform : Option Platform → ServerEntry → Type 0
OfPlatform wanted e = (p : Platform) → wanted ≡ some p → e.platform ≡ p

-- what a filter keeps of a property, with what its test says
filter-Both :
    (P Q : ServerEntry → Type 0) (test : ServerEntry → Bool) (es : List ServerEntry)
    → ((e : ServerEntry) → P e → test e ≡ true → Q e)
    → All P es
    → All Q (filter test es)
filter-Both P Q test es f h =
    All-zip P (λ e. test e ≡ true) Q (filter test es) f (All-filter P test es h)
      (All-filter_self test es)

narrow_by_platform-All :
    (wanted : Option Platform) (P : ServerEntry → Type 0) (es : List ServerEntry)
    → All P es
    → All (λ e. P e × OfPlatform wanted e) (narrow_by_platform wanted es)
unfolding narrow_by_platform
narrow_by_platform-All none P es h =
    All-map P (λ e. P e × OfPlatform none e) es (λ e he. (he, λ p absurd. cc)) h
narrow_by_platform-All (some platform) P es h =
    filter-Both P (λ e. P e × OfPlatform (some platform) e) (λ e. e.platform == platform) es
      (λ e he same. (he, λ p named. ground (arith, ==→eq e.platform platform same, named))) h

eligible-All :
    (entries : List ServerEntry) (target : DatabaseTarget)
    → All
        (λ e. Memᴰ e entries × (e.environment ≡ target.environment) × (e.status ≡ "active"))
        (filter (is_eligible target) entries)
unfolding is_eligible
eligible-All entries target =
    filter-Both (λ e. Memᴰ e entries)
      (λ e. Memᴰ e entries × (e.environment ≡ target.environment) × (e.status ≡ "active"))
      (is_eligible target) entries (λ e member test. ground (arith, member)) (All-Memᴰ entries)

candidates-Fits :
    (entries : List ServerEntry) (target : DatabaseTarget)
    → All (Fits entries target) (find_candidates entries target)
unfolding find_candidates
candidates-Fits entries target =
    let platform_fits = narrow_by_platform-All target.platform _ _ (eligible-All entries target) in
    narrow_by_database-Keeps target.database (Fits entries target) _ (
      narrow_by_hint-Keeps target.cluster (Fits entries target) _ (
        narrow_by_hint-Keeps target.instance_name (Fits entries target) _ (
          All-map _ (Fits entries target) _
            (λ e ((member, environment, active), platform). record {
              registered = member;
              same_environment = environment;
              active = active;
              same_platform = platform;
            })
            platform_fits)))

abbrev injected : ServerEntry → Result ResolveError ServerEntry
injected = ok

ok_injective : (a b : ServerEntry) → injected a ≡ ok b → a ≡ b
ok_injective a b h = cc

only_one-All :
    (P : ServerEntry → Type 0) (es : List ServerEntry) (e : ServerEntry)
    → All P es
    → only_one es ≡ ok e
    → P e
only_one-All P [] e h found = cc
only_one-All P (x ∷ []) e (hx, hs) found = subst P (ok_injective x e found) hx
only_one-All P (x ∷ y ∷ rest) e h found = cc

-- The server that a target resolves to is registered, active, in the target's environment, and of
-- the target's platform if the target names one.
pub resolve-Fits :
    (entries : List ServerEntry) (target : DatabaseTarget) (e : ServerEntry)
    → resolve entries target ≡ ok e
    → Fits entries target e
unfolding resolve
resolve-Fits entries target e found =
    only_one-All (Fits entries target) (find_candidates entries target) e
      (candidates-Fits entries target) found
