-- ===== src/Security/Sessions/History.antt =====
-- src/security/AuthService.cpp: sequences of calls, and what a call makes of the entries.
use power_monitor_sensor.Common.{
  ℕ, ◌≡◌, refl, inl, inr, Bool, true, false, not, ◌&&◌, some, List, [], ◌∷◌, arith, leb, is_empty,
  Bool-cases, Option-cases,
}
use power_monitor_sensor.Common.Texts.{Text, text_eq, text_eq_iff}
use power_monitor_sensor.Security.Sessions.{
  Entry, Manager, is_entry_of, find, assign, purged, purge_expired, update_peak, is_available,
  place, emptied,
}
use power_monitor_sensor.Security.Sessions.Calls.{
  refresh, create, find_existing, open_session, elevate, validate_with, validate, validate_mutation,
  invalidate, invalidate_all, metrics,
}
use power_monitor_sensor.Security.Sessions.Entries.{is_present, Replaces, find-some}

-- One call, with what is drawn for it.
pub data Call : Type 0 where
  open_call : Text → Text → Text → ℕ → ℕ → Call
  elevate_call : Text → Text → ℕ → ℕ → ℕ → Call
  validate_call : Text → ℕ → Bool → Call
  mutation_call : Text → Text → ℕ → Bool → Call
  invalidate_call : Text → ℕ → Call
  invalidate_all_call : Call
  metrics_call : ℕ → Call

module _ (digest : Text → Text) where
  unfoldable pub apply : Manager → Call → Manager
  apply m (open_call presented_token token csrf now_ms ttl_seconds) =
      (open_session digest m presented_token token csrf now_ms ttl_seconds).0
  apply m (elevate_call presented_token csrf now_ms ttl_seconds elevation_ttl_seconds) =
      (elevate digest m presented_token csrf now_ms ttl_seconds elevation_ttl_seconds).0
  apply m (validate_call token now_ms require_elevated) =
      (validate digest m token now_ms require_elevated).0
  apply m (mutation_call token csrf now_ms require_elevated) =
      (validate_mutation digest m token csrf now_ms require_elevated).0
  apply m (invalidate_call token now_ms) = (invalidate digest m token now_ms).0
  apply m invalidate_all_call = invalidate_all m
  apply m (metrics_call now_ms) = metrics m now_ms

  unfoldable pub apply_all : Manager → List Call → Manager
  apply_all m [] = m
  apply_all m (call ∷ calls) = apply_all (apply m call) calls

  -- The call draws no token with a digest that `taken` holds of.
  unfoldable pub draws_none : (Text → Bool) → Call → Bool
  draws_none taken (open_call presented_token token csrf now_ms ttl_seconds) =
      not (taken (digest token))
  draws_none taken (elevate_call presented_token csrf now_ms ttl_seconds elevation_ttl_seconds) =
      true
  draws_none taken (validate_call token now_ms require_elevated) = true
  draws_none taken (mutation_call token csrf now_ms require_elevated) = true
  draws_none taken (invalidate_call token now_ms) = true
  draws_none taken invalidate_all_call = true
  draws_none taken (metrics_call now_ms) = true

  -- No call draws a token of this digest.
  unfoldable pub is_never_drawn : Text → List Call → Bool
  is_never_drawn known [] = true
  is_never_drawn known (call ∷ calls) =
      draws_none (λ (other : Text). text_eq other known) call && is_never_drawn known calls

  -- No call draws a token of a digest that is known when it is made.
  unfoldable pub is_collision_free : Manager → List Call → Bool
  is_collision_free m [] = true
  is_collision_free m (call ∷ calls) =
      draws_none (λ (other : Text). is_present other m.entries) call
      && is_collision_free (apply m call) calls

  pub find_existing-some :
      (m : Manager) (token : Text) (now_ms : ℕ) (existing : Entry)
      → find_existing digest m token now_ms ≡ some existing
      → (is_entry_of (digest token) existing ≡ true)
        × (is_present (digest token) m.entries ≡ true)
        × (is_empty token ≡ false)
  unfolding find_existing
  find_existing-some m token now_ms existing h =
      ground (arith, find-some (digest token) m.entries existing)

  -- What a call makes of the entries.
  pub data Change (call : Call) (before : List Entry) : List Entry → Type 0 where
    same : Change call before before
    assigned :
        (known : Text) (value : Entry)
        → Replaces known value
        → Change call before (assign known value before)
    purges : (now_ms : ℕ) → Change call before (purged now_ms before)
    placed :
        (now_ms : ℕ) (value : Entry)
        → ((taken : Text → Bool) → draws_none taken call ≡ true → taken value.token_digest ≡ false)
        → Change call before (place value (purged now_ms before))
    empties : Change call before (emptied before)

  pub entry-digest :
      (known : Text) (entry : Entry) → is_entry_of known entry ≡ true → entry.token_digest ≡ known
  entry-digest known entry h = ground (arith, text_eq_iff entry.token_digest known)

  not-true→false : (b : Bool) → not b ≡ true → b ≡ false
  not-true→false true h = cc
  not-true→false false h = refl

  open-Change :
      (m : Manager) (presented_token token csrf : Text) (now_ms ttl_seconds : ℕ)
      → Change
          (open_call presented_token token csrf now_ms ttl_seconds)
          m.entries
          (open_session digest m presented_token token csrf now_ms ttl_seconds).0.entries
  unfolding open_session refresh create update_peak purge_expired draws_none
  open-Change m presented_token token csrf now_ms ttl_seconds =
      elim (Option-cases (find_existing digest m presented_token now_ms)) [
        | inr (existing, found) ↦
            rw (open_session, found)
              (assigned (digest presented_token) _ (
                inr (
                  entry-digest _ existing
                    (find_existing-some m presented_token now_ms existing found).0)))
        | inl nothing ↦ elim (Bool-cases (is_available (purged now_ms m.entries))) [
          | inl room ↦
              rw (open_session, nothing, create, room)
                (placed now_ms _ (λ taken h. not-true→false (taken (digest token)) h))
          | inr full ↦ rw (open_session, nothing, create, full) (purges now_ms)
        ]
      ]

  elevate-Change :
      (m : Manager) (presented_token csrf : Text) (now_ms ttl_seconds elevation_ttl_seconds : ℕ)
      → Change
          (elevate_call presented_token csrf now_ms ttl_seconds elevation_ttl_seconds)
          m.entries
          (elevate digest m presented_token csrf now_ms ttl_seconds elevation_ttl_seconds).0.entries
  unfolding elevate update_peak
  elevate-Change m presented_token csrf now_ms ttl_seconds elevation_ttl_seconds =
      elim (Bool-cases (is_empty presented_token)) [
        | inl empty ↦ rw empty same
        | inr filled ↦ elim (Option-cases (find_existing digest m presented_token now_ms)) [
          | inr (existing, found) ↦
              rw (filled, found)
                (assigned (digest presented_token) _ (
                  inr (
                    entry-digest _ existing
                      (find_existing-some m presented_token now_ms existing found).0)))
          | inl nothing ↦ rw (filled, nothing) same
        ]
      ]

  validate-Change :
      (is_csrf_accepted : Entry → Bool) (call : Call) (m : Manager) (token : Text) (now_ms : ℕ)
      (require_elevated : Bool)
      → Change call m.entries
          (validate_with digest is_csrf_accepted m token now_ms require_elevated).0.entries
  unfolding validate_with
  validate-Change is_csrf_accepted call m token now_ms require_elevated =
      elim (Bool-cases (is_empty token)) [
        | inl empty ↦ rw empty same
        | inr filled ↦ elim (Option-cases (find (digest token) m.entries)) [
          | inl nothing ↦ rw (filled, nothing) same
          | inr (entry, found) ↦
              let known = entry-digest _ entry (find-some (digest token) m.entries entry found).0 in
              elim (Bool-cases (leb entry.expires_ms now_ms)) [
                | inl over ↦ rw (filled, found, over) (assigned (digest token) _ (inl refl))
                | inr running ↦
                    elim (Bool-cases (require_elevated && leb entry.elevated_until_ms now_ms)) [
                      | inl low ↦ rw (filled, found, running, low) same
                      | inr high ↦ elim (Bool-cases (is_csrf_accepted entry)) [
                        | inl accepted ↦
                            rw (filled, found, running, high, accepted)
                              (assigned (digest token) _ (inr known))
                        | inr rejected ↦ rw (filled, found, running, high, rejected) same
                      ]
                    ]
              ]
        ]
      ]

  invalidate-Change :
      (call : Call) (m : Manager) (token : Text) (now_ms : ℕ)
      → Change call m.entries (invalidate digest m token now_ms).0.entries
  unfolding invalidate update_peak
  invalidate-Change call m token now_ms =
      elim (Option-cases (find_existing digest m token now_ms)) [
        | inl nothing ↦ rw (invalidate, nothing) same
        | inr (entry, found) ↦ rw (invalidate, found) (assigned (digest token) _ (inl refl))
      ]

  pub apply-Change : (m : Manager) (call : Call) → Change call m.entries (apply m call).entries
  unfolding apply invalidate_all metrics purge_expired update_peak
  apply-Change m (open_call presented_token token csrf now_ms ttl_seconds) =
      open-Change m presented_token token csrf now_ms ttl_seconds
  apply-Change m (elevate_call presented_token csrf now_ms ttl_seconds elevation_ttl_seconds) =
      elevate-Change m presented_token csrf now_ms ttl_seconds elevation_ttl_seconds
  apply-Change m (validate_call token now_ms require_elevated) =
      validate-Change (λ (entry : Entry). true) _ m token now_ms require_elevated
  apply-Change m (mutation_call token csrf now_ms require_elevated) =
      validate-Change _ _ m token now_ms require_elevated
  apply-Change m (invalidate_call token now_ms) = invalidate-Change _ m token now_ms
  apply-Change m invalidate_all_call = empties
  apply-Change m (metrics_call now_ms) = purges now_ms
