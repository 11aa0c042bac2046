-- ===== src/Security/Sessions/Opening.antt =====
-- src/security/AuthService.cpp: a session that was opened is accepted until it is over.
use power_monitor_sensor.Common.{
  ℕ, ◌≤◌, ◌<◌, ◌≡◌, refl, inl, inr, true, false, some, arith, ltb, is_empty, Bool-cases,
  Option-cases,
}
use power_monitor_sensor.Common.Texts.{Text, text_eq_refl}
use power_monitor_sensor.Security.Sessions.{
  ok, elevation_required, Session, Entry, Manager, find, purged, purge_expired, update_peak,
  is_available,
}
use power_monitor_sensor.Security.Sessions.Calls.{
  expiry, refresh, new_entry, create, find_existing, open_session, validate_with, validate,
  validate_mutation,
}
use power_monitor_sensor.Security.Sessions.Entries.{
  is_present, find-place, find-assign, present-purged,
}
use power_monitor_sensor.Security.Sessions.History.{find_existing-some}

module _ (digest : Text → Text) where
  -- What the entry of a session says of it.
  abbrev Serves : Session → Text → ℕ → Manager → Entry → Type 0
  Serves session csrf now_ms m entry =
      (find (digest session.token) m.entries ≡ some entry)
      × (is_empty session.token ≡ false)
      × (entry.csrf_digest ≡ digest csrf)
      × (entry.expires_ms ≡ session.expires_ms)
      × (session.elevated ≡ false → entry.elevated_until_ms ≤ now_ms)

  high→not-le : (until now_ms : ℕ) → ltb now_ms until ≡ false → until ≤ now_ms
  high→not-le until now_ms h = ground arith

  open-Serves :
      (m : Manager) (presented_token token csrf : Text) (now_ms ttl_seconds : ℕ)
      → is_empty token ≡ false
      → is_present (digest token) m.entries ≡ false
      → (open_session digest m presented_token token csrf now_ms ttl_seconds).1.capacity_reached
        ≡ false
      → (entry : Entry) × Serves
          (open_session digest m presented_token token csrf now_ms ttl_seconds).1
          csrf
          now_ms
          (open_session digest m presented_token token csrf now_ms ttl_seconds).0
          entry
  unfolding open_session refresh create update_peak purge_expired
  open-Serves m presented_token token csrf now_ms ttl_seconds filled unknown room =
      elim (Option-cases (find_existing digest m presented_token now_ms)) [
        | inr (existing, found) ↦
            let known = find_existing-some digest m presented_token now_ms existing found in
            rw (open_session, found)
              (
                _,
                (
                  find-assign (digest presented_token) _ m.entries known.0 known.1,
                  known.2,
                  refl,
                  refl,
                  high→not-le existing.elevated_until_ms now_ms,
                ),
              )
        | inl nothing ↦ elim (Bool-cases (is_available (purged now_ms m.entries))) [
          | inl free ↦
              rw (open_session, nothing, create, free)
                (
                  new_entry digest token csrf now_ms (expiry now_ms ttl_seconds) m.next_generation,
                  (
                    find-place
                        (new_entry digest token csrf now_ms (expiry now_ms ttl_seconds)
                          m.next_generation)
                        (purged now_ms m.entries) refl free
                        (present-purged now_ms (digest token) m.entries unknown),
                    filled,
                    refl,
                    refl,
                    λ low. omega arith,
                  ),
                )
          | inr full ↦ let wrong = (rw (open_session, nothing, create, full) at room) in cc
        ]
      ]

  served_accepted :
      (session : Session) (csrf : Text) (opened_ms now_ms : ℕ) (m : Manager) (entry : Entry)
      → Serves session csrf opened_ms m entry
      → is_empty csrf ≡ false
      → now_ms < session.expires_ms
      → (validate_mutation digest m session.token csrf now_ms false).1 ≡ ok
  unfolding validate_with
  served_accepted session csrf opened_ms now_ms m entry (found, filled, right, until, low) given
        early =
      rw (filled, found, right, given, text_eq_refl (digest csrf)) (ground arith)

  served_low :
      (session : Session) (csrf : Text) (opened_ms now_ms : ℕ) (m : Manager) (entry : Entry)
      → Serves session csrf opened_ms m entry
      → now_ms < session.expires_ms
      → opened_ms ≤ now_ms
      → session.elevated ≡ false
      → (validate digest m session.token now_ms true).1 ≡ elevation_required
  unfolding validate_with
  served_low session csrf opened_ms now_ms m entry (found, filled, right, until, low) early later
        plain =
      let under = low plain in rw (filled, found) (ground arith)

  -- A session that `open` returns is accepted until it is over: where the drawn token and the drawn
  -- csrf token are not empty, no entry has the drawn token's digest and the capacity is not reached,
  -- the returned token and the drawn csrf token pass `validateMutation` at each time before the
  -- returned expiry; and where the session is returned as not elevated, `validate` with elevation
  -- answers at each such time, from the opening on, that it is required.
  pub open_accepted :
      (m : Manager) (presented_token token csrf : Text) (opened_ms ttl_seconds now_ms : ℕ)
      → is_empty token ≡ false
      → is_empty csrf ≡ false
      → is_present (digest token) m.entries ≡ false
      → (open_session digest m presented_token token csrf opened_ms ttl_seconds).1.capacity_reached
        ≡ false
      → now_ms
        < (open_session digest m presented_token token csrf opened_ms ttl_seconds).1.expires_ms
      → ((validate_mutation digest
            (open_session digest m presented_token token csrf opened_ms ttl_seconds).0
            (open_session digest m presented_token token csrf opened_ms ttl_seconds).1.token
            csrf
            now_ms
            false).1
          ≡ ok)
        × (opened_ms ≤ now_ms
            → (open_session digest m presented_token token csrf opened_ms ttl_seconds).1.elevated
              ≡ false
            → (validate digest
                (open_session digest m presented_token token csrf opened_ms ttl_seconds).0
                (open_session digest m presented_token token csrf opened_ms ttl_seconds).1.token
                now_ms
                true).1
              ≡ elevation_required)
  open_accepted m presented_token token csrf opened_ms ttl_seconds now_ms filled given unknown room
        early =
      let (entry, serves) =
        open-Serves m presented_token token csrf opened_ms ttl_seconds filled unknown room in
      let opened = open_session digest m presented_token token csrf opened_ms ttl_seconds in
      (
        served_accepted opened.1 csrf opened_ms now_ms _ entry serves given early,
        served_low opened.1 csrf opened_ms now_ms _ entry serves early,
      )
