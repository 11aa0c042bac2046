-- ===== src/Security/Sessions/Calls.antt =====
-- src/security/AuthService.cpp: the calls of the session manager. `digest` is crypto::sha256, and
-- what crypto::randomHex draws is an argument.
use power_monitor_sensor.Common.{
  ℕ, ◌+◌, ◌*◌, min, Bool, true, false, not, ◌&&◌, Option, none, some, List, leb, ltb, u32, u64,
  is_empty, if◌then◌else◌,
}
use power_monitor_sensor.Common.Texts.{Text, text_eq}
use power_monitor_sensor.Security.Sessions.{
  LocalSessionResult, ok, missing, invalid, expired, csrf_rejected, elevation_required, Session,
  no_session, Entry, empty_entry, Manager, find, assign, purge_expired, update_peak, is_available,
  place, emptied,
}

abbrev count_invalid : Manager → Manager
count_invalid m = record m { metrics = record m.metrics { invalid = u64 (m.metrics.invalid + 1) } }

abbrev count_refreshed : Manager → Manager
count_refreshed m = record m {
  metrics = record m.metrics {
    reused = u64 (m.metrics.reused + 1);
    refreshed = u64 (m.metrics.refreshed + 1);
  };
}

abbrev with_entries : Manager → List Entry → Manager
with_entries m entries = record m { entries = entries }

abbrev pub expiry : ℕ → ℕ → ℕ
expiry now_ms ttl_seconds = u64 (now_ms + u64 (ttl_seconds * 1000))

module _ (digest : Text → Text) where
  -- The session that a presented token keeps.
  unfoldable pub refresh : Manager → Entry → Text → Text → ℕ → ℕ → Manager × Session
  refresh m existing presented_token csrf now_ms expires_ms =
      let value = record existing {
        csrf_digest = digest csrf;
        last_seen_ms = now_ms;
        expires_ms = expires_ms;
      } in
      (
        update_peak
            (count_refreshed (with_entries m (assign (digest presented_token) value m.entries))),
        record {
          token = presented_token;
          csrf = csrf;
          expires_ms = expires_ms;
          elevated = ltb now_ms existing.elevated_until_ms;
          reused = true;
          refreshed = true;
          capacity_reached = false;
        },
      )

  abbrev pub new_entry : Text → Text → ℕ → ℕ → ℕ → Entry
  new_entry token csrf now_ms expires_ms generation = record {
    used = true;
    token_digest = digest token;
    csrf_digest = digest csrf;
    created_ms = now_ms;
    last_seen_ms = now_ms;
    expires_ms = expires_ms;
    elevated_until_ms = 0;
    generation = generation;
  }

  -- The rest of `open`, where no session is kept, behind the purge.
  unfoldable pub create : Manager → Text → Text → ℕ → ℕ → Manager × Session
  create m token csrf now_ms expires_ms =
      if not (is_available m.entries)
      then (
        update_peak (record m {
          metrics = record m.metrics {
            capacity_rejections = u64 (m.metrics.capacity_rejections + 1);
          };
        }),
        record no_session { capacity_reached = true },
      )
      else (
        update_peak (record m {
          entries = place (new_entry token csrf now_ms expires_ms m.next_generation) m.entries;
          metrics = record m.metrics { created = u64 (m.metrics.created + 1) };
          next_generation = u32 (m.next_generation + 1);
        }),
        record no_session { token = token; csrf = csrf; expires_ms = expires_ms },
      )

  -- The entry of the presented token, if it has one that is not over.
  unfoldable pub find_existing : Manager → Text → ℕ → Option Entry
  find_existing m presented_token now_ms =
      if is_empty presented_token then none else elim (find (digest presented_token) m.entries) [
        | none ↦ none
        | some existing ↦ if ltb now_ms existing.expires_ms then some existing else none
      ]

  -- `token` and `csrf` are drawn by this call.
  unfoldable pub open_session : Manager → Text → Text → Text → ℕ → ℕ → Manager × Session
  open_session m presented_token token csrf now_ms ttl_seconds =
      elim (find_existing m presented_token now_ms) [
        | some existing ↦ refresh m existing presented_token csrf now_ms (expiry now_ms ttl_seconds)
        | none ↦ create (purge_expired now_ms m) token csrf now_ms (expiry now_ms ttl_seconds)
      ]

  unfoldable pub elevate : Manager → Text → Text → ℕ → ℕ → ℕ → Manager × Session
  elevate m presented_token csrf now_ms ttl_seconds elevation_ttl_seconds =
      if is_empty presented_token
      then (m, no_session)
      else elim (find_existing m presented_token now_ms) [
        | none ↦ (count_invalid m, no_session)
        | some existing ↦
            let expires_ms = expiry now_ms ttl_seconds in
            let value = record existing {
              csrf_digest = digest csrf;
              last_seen_ms = now_ms;
              expires_ms = expires_ms;
              elevated_until_ms = min expires_ms (expiry now_ms elevation_ttl_seconds);
            } in
            (
              update_peak (
                  count_refreshed
                    (with_entries m (assign (digest presented_token) value m.entries))),
              record {
                token = presented_token;
                csrf = csrf;
                expires_ms = expires_ms;
                elevated = true;
                reused = true;
                refreshed = true;
                capacity_reached = false;
              },
            )
      ]

  -- Both validations, with the test of the second one for the csrf token.
  unfoldable pub validate_with :
      (Entry → Bool) → Manager → Text → ℕ → Bool → Manager × LocalSessionResult
  validate_with is_csrf_accepted m token now_ms require_elevated =
      if is_empty token then (m, missing) else elim (find (digest token) m.entries) [
        | none ↦ (count_invalid m, invalid)
        | some entry ↦
            if leb entry.expires_ms now_ms
            then (
              record m {
                entries = assign (digest token) empty_entry m.entries;
                metrics = record m.metrics { expired = u64 (m.metrics.expired + 1) };
              },
              expired,
            )
            else (if require_elevated && leb entry.elevated_until_ms now_ms
                then (m, elevation_required)
                else (if not (is_csrf_accepted entry) then (m, csrf_rejected) else (
                  with_entries m
                      (assign (digest token) (record entry { last_seen_ms = now_ms }) m.entries),
                  ok,
                )))
      ]

  abbrev pub validate : Manager → Text → ℕ → Bool → Manager × LocalSessionResult
  validate = validate_with (λ (entry : Entry). true)

  abbrev pub validate_mutation : Manager → Text → Text → ℕ → Bool → Manager × LocalSessionResult
  validate_mutation m token csrf =
      validate_with
        (λ (entry : Entry). not (is_empty csrf) && text_eq entry.csrf_digest (digest csrf)) m token

  unfoldable pub invalidate : Manager → Text → ℕ → Manager × Bool
  invalidate m token now_ms = elim (find_existing m token now_ms) [
    | none ↦ (m, false)
    | some entry ↦ (
      update_peak (record m {
        entries = assign (digest token) empty_entry m.entries;
        metrics = record m.metrics { revoked = u64 (m.metrics.revoked + 1) };
      }),
      true,
    )
  ]

unfoldable pub invalidate_all : Manager → Manager
invalidate_all m = update_peak (with_entries m (emptied m.entries))

unfoldable pub metrics : Manager → ℕ → Manager
metrics m now_ms = update_peak (purge_expired now_ms m)
