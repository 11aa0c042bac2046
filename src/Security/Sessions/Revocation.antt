-- ===== src/Security/Sessions/Revocation.antt =====
-- src/security/AuthService.cpp: a session that was ended is not accepted again.
use power_monitor_sensor.Common.{
  ℕ, ◌≡◌, refl, inl, inr, Bool, true, false, List, [], ◌∷◌, is_empty, Option-cases, &&-eq-true,
}
use power_monitor_sensor.Common.Texts.{Text, text_eq}
use power_monitor_sensor.Security.Sessions.{
  invalid, Entry, Manager, new_manager, empty_entries, purged, update_peak,
}
use power_monitor_sensor.Security.Sessions.Calls.{
  find_existing, validate_with, validate, validate_mutation, invalidate,
}
use power_monitor_sensor.Security.Sessions.Entries.{
  is_present, is_distinct, find-none, present-assign, distinct-assign, present-cleared,
  present-purged, distinct-purged, present-place, distinct-place, distinct-emptied, present-emptied,
}
use power_monitor_sensor.Security.Sessions.History.{
  Call, apply, apply_all, draws_none, is_never_drawn, is_collision_free, find_existing-some, Change,
  same, assigned, purges, placed, empties, apply-Change,
}

module _ (digest : Text → Text) where
  absent_after :
      (call : Call) (known : Text) (before after : List Entry)
      → Change digest call before after
      → draws_none digest (λ (other : Text). text_eq other known) call ≡ true
      → is_present known before ≡ false
      → is_present known after ≡ false
  absent_after call known before _ same drawn absent = absent
  absent_after call known before _ (assigned changed value r) drawn absent =
      present-assign changed known value before r absent
  absent_after call known before _ (purges now_ms) drawn absent =
      present-purged now_ms known before absent
  absent_after call known before _ (placed now_ms value d) drawn absent =
      present-place value known (purged now_ms before) (present-purged now_ms known before absent)
        (d (λ (other : Text). text_eq other known) drawn)
  absent_after call known before _ empties drawn absent = present-emptied known before

  distinct_after :
      (call : Call) (before after : List Entry)
      → Change digest call before after
      → draws_none digest (λ (other : Text). is_present other before) call ≡ true
      → is_distinct before ≡ true
      → is_distinct after ≡ true
  distinct_after call before _ same drawn distinct = distinct
  distinct_after call before _ (assigned changed value r) drawn distinct =
      distinct-assign changed value before r distinct
  distinct_after call before _ (purges now_ms) drawn distinct =
      distinct-purged now_ms before distinct
  distinct_after call before _ (placed now_ms value d) drawn distinct =
      distinct-place value (purged now_ms before)
        (present-purged now_ms value.token_digest before
          (d (λ (other : Text). is_present other before) drawn))
        (distinct-purged now_ms before distinct)
  distinct_after call before _ empties drawn distinct = distinct-emptied before

  absent_forever :
      (m : Manager) (calls : List Call) (known : Text)
      → is_never_drawn digest known calls ≡ true
      → is_present known m.entries ≡ false
      → is_present known (apply_all digest m calls).entries ≡ false
  unfolding is_never_drawn apply_all
  absent_forever m [] known drawn absent = absent
  absent_forever m (call ∷ calls) known drawn absent =
      let both = &&-eq-true _ _ drawn in
      absent_forever (apply digest m call) calls known both.1
        (absent_after call known m.entries _ (apply-Change digest m call) both.0 absent)

  pub distinct_always :
      (m : Manager) (calls : List Call)
      → is_collision_free digest m calls ≡ true
      → is_distinct m.entries ≡ true
      → is_distinct (apply_all digest m calls).entries ≡ true
  unfolding is_collision_free apply_all
  distinct_always m [] free distinct = distinct
  distinct_always m (call ∷ calls) free distinct =
      let both = &&-eq-true _ _ free in
      distinct_always (apply digest m call) calls both.1
        (distinct_after call m.entries _ (apply-Change digest m call) both.0 distinct)

  invalidated :
      (m : Manager) (token : Text) (now_ms : ℕ)
      → is_distinct m.entries ≡ true
      → (invalidate digest m token now_ms).1 ≡ true
      → (is_present (digest token) (invalidate digest m token now_ms).0.entries ≡ false)
        × (is_empty token ≡ false)
  unfolding update_peak invalidate
  invalidated m token now_ms distinct done =
      elim (Option-cases (find_existing digest m token now_ms)) [
        | inl nothing ↦ let wrong = (rw (invalidate, nothing) at done) in cc
        | inr (entry, found) ↦
            rw (invalidate, found)
              (
                present-cleared (digest token) m.entries distinct,
                (find_existing-some digest m token now_ms entry found).2,
              )
      ]

  refused_absent :
      (is_csrf_accepted : Entry → Bool) (m : Manager) (token : Text) (now_ms : ℕ)
      (require_elevated : Bool)
      → is_present (digest token) m.entries ≡ false
      → is_empty token ≡ false
      → (validate_with digest is_csrf_accepted m token now_ms require_elevated).1 ≡ invalid
  unfolding validate_with
  refused_absent is_csrf_accepted m token now_ms require_elevated absent filled =
      rw (filled, find-none (digest token) m.entries absent) refl

  distinct_new : is_distinct new_manager.entries ≡ true
  unfolding is_distinct empty_entries
  distinct_new = refl

  -- A session that `invalidate` has ended is not accepted again. After any calls of a new manager
  -- in which no drawn token has the digest of a known one, a token is invalidated; then, whatever
  -- calls follow that draw no token of its digest, both validations of that token answer `invalid`
  -- at every time.
  pub revoked_forever :
      (history later : List Call) (token csrf : Text) (revoked_ms now_ms : ℕ)
      (require_elevated : Bool)
      → is_collision_free digest new_manager history ≡ true
      → (invalidate digest (apply_all digest new_manager history) token revoked_ms).1 ≡ true
      → is_never_drawn digest (digest token) later ≡ true
      → ((validate digest
            (apply_all digest
              (invalidate digest (apply_all digest new_manager history) token revoked_ms).0
              later)
            token
            now_ms
            require_elevated).1
          ≡ invalid)
        × ((validate_mutation digest
              (apply_all digest
                (invalidate digest (apply_all digest new_manager history) token revoked_ms).0
                later)
              token
              csrf
              now_ms
              require_elevated).1
            ≡ invalid)
  revoked_forever history later token csrf revoked_ms now_ms require_elevated free done drawn =
      let m = apply_all digest new_manager history in
      let gone =
        invalidated m token revoked_ms (distinct_always new_manager history free distinct_new)
          done in
      let absent =
        absent_forever (invalidate digest m token revoked_ms).0 later (digest token) drawn gone.0 in
      (
        refused_absent _ _ token now_ms require_elevated absent gone.1,
        refused_absent _ _ token now_ms require_elevated absent gone.1,
      )
