-- ===== src/Network/Clock/Samples.antt =====
-- src/network/ClockService.cpp: a large step of the time is trusted after three consistent samples.
use power_monitor_sensor.Common.{
  ℕ, ◌+◌, ◌*◌, ◌≤◌, ◌≡◌, ◌↔◌, refl, Bool, true, false, u8, u64, if◌then◌else◌, arith, Bool-cases,
  inl, inr, ◌⊎◌,
}
use power_monitor_sensor.Network.Clock.{
  require_confirmation, classify_candidate, candidates_consistent, ClockService, Sample, plausible,
  candidate_utc_ms, confirming, accepting, revoking, confirmed, classified, persisting, publishing,
  update, sampled,
}
use power_monitor_sensor.Network.Clock.Steps.{
  IsStep, consistent, AreConsistent, step_minimum, consistent_exact,
}

sampled_step :
    (build_utc_ms : ℕ) (c : ClockService) (sample : Sample) (completed : Bool)
    → completed ≡ true
    → classify_candidate (candidate_utc_ms sample) c.last_trusted_utc_ms build_utc_ms
      ≡ require_confirmation
    → sampled build_utc_ms completed c sample ≡ confirmed (confirming c sample) sample
unfolding sampled classified
sampled_step build_utc_ms c sample false h large = cc
sampled_step build_utc_ms c sample true h large = rw large refl

update_step :
    (build_utc_ms : ℕ) (c : ClockService) (sample : Sample)
    → IsStep build_utc_ms c.last_trusted_utc_ms sample
    → update build_utc_ms c sample ≡ publishing (confirmed (confirming c sample) sample) sample
unfolding update
update_step build_utc_ms c sample s =
    rw (sampled_step build_utc_ms c sample sample.completed s.is_complete s.is_large) refl

confirmed_early :
    (pending : ClockService) (sample : Sample)
    → pending.pending_candidate_count ≤ 2
    → confirmed pending sample ≡ revoking pending
unfolding confirmed
confirmed_early pending sample h = ground arith

confirmed_late :
    (pending : ClockService) (sample : Sample)
    → 3 ≤ pending.pending_candidate_count
    → confirmed pending sample ≡ accepting pending sample
unfolding confirmed
confirmed_late pending sample h = ground arith

publishing_revoked :
    (c : ClockService) (sample : Sample)
    → publishing (revoking c) sample ≡ record (revoking c) { synchronized = false }
unfolding publishing revoking
publishing_revoked c sample = elim (Bool-cases (plausible sample)) [
  | inl fine ↦ rw fine refl
  | inr early ↦ rw early refl
]

persisting_kept :
    (c : ClockService) (sample : Sample) → (persisting c sample).synchronized ≡ c.synchronized
unfolding persisting
persisting_kept c sample = ground arith

step-plausible :
    (build_utc_ms trusted : ℕ) (sample : Sample)
    → IsStep build_utc_ms trusted sample
    → plausible sample ≡ true
unfolding classify_candidate candidate_utc_ms
step-plausible build_utc_ms trusted sample s = elim (Bool-cases (plausible sample)) [
  | inl fine ↦ fine
  | inr early ↦ let wrong = (rw early at s.is_large) in cc
]

publishing_accepted :
    (c : ClockService) (sample : Sample)
    → plausible sample ≡ true
    → (publishing (accepting c sample) sample).synchronized ≡ true
unfolding publishing accepting persisting
publishing_accepted c sample fine = rw fine (
    persisting_kept
      (record (accepting c sample) {
        synchronized = true;
        last_trusted_utc_ms = u64 (sample.now * 1000);
      })
      sample)

-- Behind a step, with `count` candidates pending behind it and no trust.
pub record IsPending (c its : ClockService) (sample : Sample) (count : ℕ) : Type 0 where
  pub untrusted : its.synchronized ≡ false
  pub trusted_kept : its.last_trusted_utc_ms ≡ c.last_trusted_utc_ms
  pub count_is : its.pending_candidate_count ≡ count
  pub utc_is : its.pending_candidate_utc_ms ≡ candidate_utc_ms sample
  pub monotonic_is : its.pending_candidate_monotonic_ms ≡ sample.monotonic_ms

update-IsPending :
    (build_utc_ms : ℕ) (c : ClockService) (sample : Sample) (count : ℕ)
    → IsStep build_utc_ms c.last_trusted_utc_ms sample
    → (confirming c sample).pending_candidate_count ≡ count
    → count ≤ 2
    → IsPending c (update build_utc_ms c sample) sample count
unfolding revoking confirming
update-IsPending build_utc_ms c sample count s e h =
    rw
      (
        update_step build_utc_ms c sample s,
        confirmed_early (confirming c sample) sample (omega arith),
        publishing_revoked (confirming c sample) sample,
      )
      (record {
        untrusted = refl;
        trusted_kept = refl;
        count_is = e;
        utc_is = refl;
        monotonic_is = refl;
      })

-- The counter behind one more step.
confirming_count :
    (c its : ClockService) (first second : Sample) (count : ℕ)
    → IsPending c its first count
    → (confirming its second).pending_candidate_count
      ≡ (if consistent first second then u8 (count + 1) else 1)
unfolding confirming
confirming_count c its first second count p = rw (p.utc_is, p.monotonic_is, p.count_is) refl

later-IsStep :
    (build_utc_ms : ℕ) (c its : ClockService) (first second : Sample) (count : ℕ)
    → IsPending c its first count
    → IsStep build_utc_ms c.last_trusted_utc_ms second
    → IsStep build_utc_ms its.last_trusted_utc_ms second
later-IsStep build_utc_ms c its first second count p s = rw p.trusted_kept s

final_step :
    (build_utc_ms : ℕ) (c : ClockService) (sample : Sample)
    → IsStep build_utc_ms c.last_trusted_utc_ms sample
    → 3 ≤ (confirming c sample).pending_candidate_count
    → (update build_utc_ms c sample).synchronized ≡ true
final_step build_utc_ms c sample s h =
    rw (update_step build_utc_ms c sample s, confirmed_late (confirming c sample) sample h)
      (publishing_accepted (confirming c sample) sample
        (step-plausible build_utc_ms c.last_trusted_utc_ms sample s))

first_count :
    (c : ClockService) (sample : Sample)
    → c.pending_candidate_utc_ms ≡ 0
    → (confirming c sample).pending_candidate_count ≡ 1
unfolding confirming candidates_consistent
first_count c sample empty = rw empty refl

-- A further step is trusted just where two are pending and it is consistent with the last.
third_step :
    (build_utc_ms : ℕ) (c its : ClockService) (first second : Sample) (count : ℕ)
    → IsPending c its first count
    → IsStep build_utc_ms its.last_trusted_utc_ms second
    → (count ≡ 1) ⊎ (count ≡ 2)
    → ((update build_utc_ms its second).synchronized ≡ true)
      ↔ ((count ≡ 2) × (consistent first second ≡ true))
third_step build_utc_ms c its first second count p s which =
    let counted = confirming_count c its first second count p in
    elim (Bool-cases (consistent first second)) [
      | inr apart ↦
          let one : (confirming its second).pending_candidate_count ≡ 1 = (rw apart at counted) in
          let q = update-IsPending build_utc_ms its second 1 s one (omega arith) in
          (λ h. let wrong = q.untrusted in cc, λ h. cc)
      | inl close ↦
          let more : (confirming its second).pending_candidate_count ≡ u8 (count + 1) =
            (rw close at counted) in
          elim which [
            | inl one ↦
                let q = update-IsPending build_utc_ms its second 2 s (omega arith) (omega arith) in
                (λ h. let wrong = q.untrusted in cc, λ h. absurd (omega arith))
            | inr two ↦
                let trusted = final_step build_utc_ms its second s (omega arith) in
                (λ h. (two, close), λ h. trusted)
          ]
    ]

second_count :
    (close : Bool) (n : ℕ)
    → n ≡ (if close then u8 (1 + 1) else 1)
    → ((n ≡ 1) ⊎ (n ≡ 2)) × ((n ≡ 2) ↔ (close ≡ true))
second_count close n h = ground arith

-- A step of the time is trusted after three samples and not before: where no candidate is pending,
-- of three completed samples, each plausible and too far from the last trusted time to be taken at
-- once, the first and the second leave the clock untrusted, and the third makes it trusted exactly
-- where the second is consistent with the first, and the third with the second: neither clock goes
-- back between them, and what passes on the two differs by at most five minutes.
pub three_samples_exact :
    (build_utc_ms : ℕ) (c : ClockService) (first second third : Sample)
    → c.pending_candidate_utc_ms ≡ 0
    → IsStep build_utc_ms c.last_trusted_utc_ms first
    → IsStep build_utc_ms c.last_trusted_utc_ms second
    → IsStep build_utc_ms c.last_trusted_utc_ms third
    → ((update build_utc_ms c first).synchronized ≡ false)
      × ((update build_utc_ms (update build_utc_ms c first) second).synchronized ≡ false)
      × (((update build_utc_ms
              (update build_utc_ms (update build_utc_ms c first) second)
              third).synchronized
            ≡ true)
          ↔ (AreConsistent first second × AreConsistent second third))
three_samples_exact build_utc_ms c first second third empty a b d =
    let one = update build_utc_ms c first in
    let p = update-IsPending build_utc_ms c first 1 a (first_count c first empty) (omega arith) in
    let its_b = later-IsStep build_utc_ms c one first second 1 p b in
    let n = (confirming one second).pending_candidate_count in
    let (which, close) =
      second_count (consistent first second) n (confirming_count c one first second 1 p) in
    let two = update build_utc_ms one second in
    let q = update-IsPending build_utc_ms one second n its_b refl (omega arith) in
    let its_d : IsStep build_utc_ms two.last_trusted_utc_ms third =
      later-IsStep build_utc_ms one two second third n q
        (later-IsStep build_utc_ms c one first third 1 p d) in
    let last = third_step build_utc_ms one two second third n q its_d which in
    let early =
      consistent_exact first second (step_minimum build_utc_ms c.last_trusted_utc_ms first a) in
    let late =
      consistent_exact second third (step_minimum build_utc_ms c.last_trusted_utc_ms second b) in
    (
      p.untrusted,
      q.untrusted,
      (
        λ h. (early.0 (close.0 (last.0 h).0), late.0 (last.0 h).1),
        λ h. last.1 (close.1 (early.1 h.0), late.1 h.1),
      ),
    )
