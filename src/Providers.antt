-- ===== src/Providers.antt =====
-- src/store/records.ts: `configureProvider`, `getProviderCapacity`, `noteProviderFailure` and `resetProvider`. Times are
-- milliseconds, and the time that an operation reads is an argument.
pub mod Cooldown
use multi_agent_build_system.Prelude.{
  ℕ, ◌+◌, String, Bool, false, Option, none, some, List, ◌∷◌, ltb, leb, if◌then◌else◌, Outcome, ok,
  throw, ◌>>=◌, ◌>>◌, throw_if,
}
use multi_agent_build_system.Failure.{FailureClass, auth, quota}
use multi_agent_build_system.Store.Table.{lookup, update, insert}

pub data ProviderState : Type 0 where
  available cooldown unavailable : ProviderState

pub record ProviderCapacity : Type 0 where
  pub provider : String
  pub state : ProviderState
  pub max_concurrency : ℕ
  pub blocked_until : Option ℕ
  pub reason : Option String
  pub error_count : ℕ
  pub updated_at : ℕ

pub data ProviderEvent : Type 0 where
  provider_available : String → String → ProviderEvent
  provider_failure : String → FailureClass → ProviderState → Option ℕ → String → ProviderEvent

pub record Providers : Type 0 where
  pub rows : List ProviderCapacity
  pub events : List ProviderEvent

pub data ProviderError : Type 0 where
  invalid_concurrency : String → ℕ → ProviderError
  unknown_provider : String → ProviderError

abbrev pub provider_key : ProviderCapacity → String
provider_key c = c.provider

abbrev pub new_capacity : String → ℕ → ℕ → ProviderCapacity
new_capacity provider most now = record {
  provider = provider;
  state = available;
  max_concurrency = most;
  blocked_until = none;
  reason = none;
  error_count = 0;
  updated_at = now;
}

-- `INSERT … ON CONFLICT(provider) DO UPDATE SET max_concurrency = …, updated_at = …`
unfoldable pub upsert : String → ℕ → ℕ → List ProviderCapacity → List ProviderCapacity
upsert provider most now rows = elim (lookup provider_key provider rows) [
  | none ↦ insert (new_capacity provider most now) rows
  | some c ↦
      update provider_key provider (λ x. record x { max_concurrency = most; updated_at = now }) rows
]

unfoldable pub configure_provider : String → ℕ → ℕ → Providers → Outcome ProviderError Providers
unfolding upsert
configure_provider provider most now d = do
  throw_if (ltb most 1) (invalid_concurrency provider most)
  ok (record d { rows = upsert provider most now d.rows })

abbrev pub freed : ℕ → ProviderCapacity → ProviderCapacity
freed now c = record c { state = available; blocked_until = none; reason = none; updated_at = now }

-- `state === "cooldown" && blockedUntil && Date.parse(blockedUntil) <= now`
abbrev pub has_expired : ℕ → ProviderCapacity → Bool
has_expired now c = elim c.state [
  | cooldown ↦ elim c.blocked_until [ none ↦ false | some t ↦ leb t now ]
  | available ↦ false
  | unavailable ↦ false
]

-- The capacity that is returned, and the state that reading it leaves.
unfoldable pub get_provider_capacity : String → ℕ → Providers → Option ProviderCapacity × Providers
get_provider_capacity provider now d = elim (lookup provider_key provider d.rows) [
  | none ↦ (none, d)
  | some c ↦
      if has_expired now c
      then (
        some (freed now c),
        record d {
          rows = update provider_key provider (freed now) d.rows;
          events = provider_available provider "cooldown expired" ∷ d.events;
        },
      )
      else (some c, d)
]

abbrev pub failed_state : FailureClass → ProviderState → ProviderState
failed_state auth state = unavailable
failed_state quota state = cooldown
failed_state _ state = state

abbrev pub blocked_for : FailureClass → ℕ → Option ℕ
blocked_for quota until = some until
blocked_for _ until = none

abbrev pub noted :
    FailureClass → String → ProviderState → ℕ → ℕ → ProviderCapacity → ProviderCapacity
noted failure why state until now c = record c {
  state = failed_state failure state;
  blocked_until = blocked_for failure until;
  reason = some why;
  error_count = c.error_count + 1;
  updated_at = now;
}

-- The provider is read, and configured with one worker if it is not known.
abbrev pub known : String → ℕ → Option ProviderCapacity × Providers → ProviderState × Providers
known provider now (none, d) = (available, record d { rows = upsert provider 1 now d.rows })
known provider now (some c, d) = (c.state, d)

unfoldable pub note_provider_failure :
    String → FailureClass → String → ℕ → ℕ → Providers → Providers
unfolding get_provider_capacity upsert
note_provider_failure provider failure why cooldown_ms now d =
    let (state, e) = known provider now (get_provider_capacity provider now d) in
    record e {
      rows = update provider_key provider (noted failure why state (now + cooldown_ms) now) e.rows;
      events =
          provider_failure provider failure (failed_state failure state)
            (blocked_for failure (now + cooldown_ms)) why
          ∷ e.events;
    }

unfoldable pub reset_provider : String → String → ℕ → Providers → Outcome ProviderError Providers
unfolding get_provider_capacity
reset_provider provider why now d =
    let (found, e) = get_provider_capacity provider now d in
    elim found [
      | none ↦ throw (unknown_provider provider)
      | some c ↦ ok (record e {
        rows = update provider_key provider (freed now) e.rows;
        events = provider_available provider why ∷ e.events;
      })
    ]
