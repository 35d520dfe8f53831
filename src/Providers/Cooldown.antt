-- ===== src/Providers/Cooldown.antt =====
-- src/store/records.ts: how long a failed provider stays out.
use multi_agent_build_system.Prelude.{
  ℕ, ◌+◌, ◌≤◌, ◌<◌, String, ◌≡◌, refl, ◌⊎◌, inl, inr, none, some, arith, if◌then◌else◌,
  Option-cases,
}
use multi_agent_build_system.Failure.{FailureClass, auth, quota}
use multi_agent_build_system.Store.Table.{lookup, update, lookup-update_self, insert}
use multi_agent_build_system.Providers.{
  ProviderState, available, cooldown, unavailable, ProviderCapacity, Providers, provider_key,
  new_capacity, upsert, freed, has_expired, get_provider_capacity, noted, known,
  note_provider_failure,
}
use multi_agent_build_system.Store.Table.Tracked.{lookup-insert_self}

-- The rows after the provider is read: its own row is there.
known_rows :
    (provider : String) (now : ℕ) (d : Providers)
    → ((lookup provider_key provider d.rows ≡ none)
        × ((known provider now (get_provider_capacity provider now d)).1.rows
            ≡ insert (new_capacity provider 1 now) d.rows))
      ⊎ ((c : ProviderCapacity) × (lookup provider_key provider d.rows ≡ some c)
          × (((known provider now (get_provider_capacity provider now d)).1.rows ≡ d.rows)
              ⊎ ((known provider now (get_provider_capacity provider now d)).1.rows
                  ≡ update provider_key provider (freed now) d.rows)))
unfolding get_provider_capacity upsert
known_rows provider now d = elim (Option-cases (lookup provider_key provider d.rows)) [
  | inl missing ↦ inl (missing, ground arith)
  | inr (c, found) ↦ inr (c, found, ground arith)
]

known_row :
    (provider : String) (now : ℕ) (d : Providers)
    → (c : ProviderCapacity) × (lookup provider_key provider
          (known provider now (get_provider_capacity provider now d)).1.rows
        ≡ some c)
known_row provider now d = elim (known_rows provider now d) [
  | inl (missing, e) ↦ (
    new_capacity provider 1 now,
    rw e (
        lookup-insert_self provider_key d.rows (new_capacity provider 1 now) provider refl missing),
  )
  | inr (c, found, why) ↦ elim why [
    | inl e ↦ (c, rw e found)
    | inr e ↦ (
      freed now c,
      rw e (lookup-update_self provider_key provider (freed now) d.rows (λ x. refl) found),
    )
  ]
]

noted_row :
    (provider : String) (failure : FailureClass) (why : String) (cooldown_ms now : ℕ)
    (d : Providers)
    → (c : ProviderCapacity) × (state : ProviderState) × (lookup provider_key provider
          (note_provider_failure provider failure why cooldown_ms now d).rows
        ≡ some (noted failure why state (now + cooldown_ms) now c))
unfolding note_provider_failure
noted_row provider failure why cooldown_ms now d =
    let (c, found) = known_row provider now d in
    (
      c,
      (known provider now (get_provider_capacity provider now d)).0,
      lookup-update_self provider_key provider _ _ (λ x. refl) found,
    )

read_row :
    (provider : String) (at : ℕ) (d : Providers) {c : ProviderCapacity}
    → lookup provider_key provider d.rows ≡ some c
    → (get_provider_capacity provider at d).0 ≡ some (if has_expired at c then freed at c else c)
unfolding get_provider_capacity
read_row provider at d found = ground arith

-- The provider is read with this state.
abbrev pub Reads : String → ℕ → Providers → ProviderState → Type 0
Reads provider at d state =
    (c : ProviderCapacity) × ((get_provider_capacity provider at d).0 ≡ some c) × (c.state ≡ state)

-- Whatever the provider's state was, a quota failure keeps it in cooldown until the cooldown has passed and no
-- longer, and an authentication failure keeps it unavailable at every later reading.
pub failure_blocks :
    (provider why : String) (cooldown_ms now at : ℕ) (d : Providers)
    → (at < now + cooldown_ms
        → Reads provider at (note_provider_failure provider quota why cooldown_ms now d) cooldown)
      × (now + cooldown_ms ≤ at
          → Reads provider at
              (note_provider_failure provider quota why cooldown_ms now d)
              available)
      × Reads provider at (note_provider_failure provider auth why cooldown_ms now d) unavailable
failure_blocks provider why cooldown_ms now at d =
    let (c, s, q) = noted_row provider quota why cooldown_ms now d in
    let (c', s', a) = noted_row provider auth why cooldown_ms now d in
    let dq : Providers = note_provider_failure provider quota why cooldown_ms now d in
    let da : Providers = note_provider_failure provider auth why cooldown_ms now d in
    (
      λ early. (_, read_row provider at dq q, ground arith),
      λ late. (_, read_row provider at dq q, ground arith),
      (_, read_row provider at da a, refl),
    )
