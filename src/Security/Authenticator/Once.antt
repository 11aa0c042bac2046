-- ===== src/Security/Authenticator/Once.antt =====
-- src/security/AuthService.cpp: an accepted request is not accepted again.
use power_monitor_sensor.Common.{
  ◌≡◌, refl, ap, List, [], ◌∷◌, if◌then◌else◌, All, Bool-cases, inl, inr,
}
use power_monitor_sensor.Common.Texts.{Text}
use power_monitor_sensor.Security.ReplayWindow.{
  ReplayRememberResult, accepted, replayed, capacity_exceeded, Entry, Request, remember,
  remember_all,
}
use power_monitor_sensor.Security.ReplayWindow.Protection.{IsRecent, accepted_once}
use power_monitor_sensor.Security.Authenticator.{
  ok, nonce_replayed, SignedRequest, check, cache_request, is_ok, replay_result, verify, verify_all,
}
use power_monitor_sensor.Security.Authenticator.Soundness.{accepted_check}

only_accepted : (result : ReplayRememberResult) → replay_result result ≡ ok → result ≡ accepted
only_accepted accepted h = refl
only_accepted replayed h = cc
only_accepted capacity_exceeded h = cc

module _ (sha256 : Text → Text) (hmac : Text → Text → Text) (expected_device_id key : Text) where
  -- The requests that reach the nonce cache.
  unfoldable cached : List SignedRequest → List Request
  cached [] = []
  cached (r ∷ rs) =
      let rest = cached rs in
      if is_ok (check sha256 hmac expected_device_id key r)
      then cache_request sha256 hmac expected_device_id key r ∷ rest
      else rest

  -- The call is within its window of the first one.
  abbrev pub IsSoon : SignedRequest → SignedRequest → Type 0
  IsSoon first r =
      IsRecent (cache_request sha256 hmac expected_device_id key first)
        (cache_request sha256 hmac expected_device_id key r)

  verify_all-cached :
      (entries : List Entry) (rs : List SignedRequest)
      → verify_all sha256 hmac expected_device_id key entries rs ≡ remember_all entries (cached rs)
  unfolding verify_all verify cached remember_all
  verify_all-cached entries [] = refl
  verify_all-cached entries (r ∷ rs) =
      elim (Bool-cases (is_ok (check sha256 hmac expected_device_id key r))) [
        | inl passes ↦ rw passes (
            verify_all-cached
              (remember entries (cache_request sha256 hmac expected_device_id key r)).0 rs)
        | inr fails ↦ rw fails (verify_all-cached entries rs)
      ]

  cached-soon :
      (first : SignedRequest) (rs : List SignedRequest)
      → All (IsSoon first) rs
      → All (IsRecent (cache_request sha256 hmac expected_device_id key first)) (cached rs)
  unfolding cached
  cached-soon first [] hs = tt
  cached-soon first (r ∷ rs) hs =
      elim (Bool-cases (is_ok (check sha256 hmac expected_device_id key r))) [
        | inl passes ↦ rw passes (hs.0, cached-soon first rs hs.1)
        | inr fails ↦ rw fails (cached-soon first rs hs.1)
      ]

  -- A replayed request is refused: after `verify` has accepted a request, and whatever requests come
  -- in between, a request with the same nonce that passes every other test is answered
  -- `nonce_replayed`, where it and those in between come at most 300 seconds after the first one.
  pub verify_once :
      (entries : List Entry) (first again : SignedRequest) (between : List SignedRequest)
      → (verify sha256 hmac expected_device_id key entries first).1 ≡ ok
      → again.nonce ≡ first.nonce
      → All (IsSoon first) between
      → IsSoon first again
      → check sha256 hmac expected_device_id key again ≡ ok
      → (verify sha256 hmac expected_device_id key
          (verify_all sha256 hmac expected_device_id key
            (verify sha256 hmac expected_device_id key entries first).0
            between)
          again).1
        ≡ nonce_replayed
  unfolding verify
  verify_once entries first again between h same soon late passes =
      let good = accepted_check sha256 hmac expected_device_id key entries first h in
      let r = cache_request sha256 hmac expected_device_id key first in
      let stored = only_accepted (remember entries r).1 (rw (verify, good) at h) in
      let refused =
        accepted_once entries r (cache_request sha256 hmac expected_device_id key again)
          (cached between) stored (ap sha256 same) (cached-soon first between soon) late in
      rw (good, passes, verify_all-cached (remember entries r).0 between, refused) refl
