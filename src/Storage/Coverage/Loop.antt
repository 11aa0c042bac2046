-- ===== src/Storage/Coverage/Loop.antt =====
-- src/storage/SyncCoverage.h: the loop of deriveSyncCoverage, and how it ends.
use power_monitor_sensor.Common.{
  ℕ, zero, suc, ◌+◌, ◌-◌, ◌^◌, ◌≤◌, ◌<◌, ◌≡◌, refl, ◌⊎◌, inl, inr, true, false, List, arith, leb,
  Bool-cases, sym,
}
use mathlib.Core.Bool.{and-false}
use power_monitor_sensor.Storage.Coverage.{empty_coverage, contains, Cover, cover_from, desired_end}
use power_monitor_sensor.Storage.Coverage.Account.{
  in_ranges, missing, missing_none, Accounted, skip-Accounted, take-Accounted,
}

-- How the loop ends before the round for `last`: it has passed no more unavailable sequences than it
-- may, and has not gone over its limit; and it has reached the limit, or there is a record to be sent
-- later, or it has passed as many unavailable sequences as it may.
abbrev pub StopsAt : List ℕ → List ℕ → ℕ → ℕ → ℕ → ℕ → Type 0
StopsAt selected observed maximum after limit last =
    (missing selected after last ≤ maximum)
    × (last ≤ limit)
    × ((last ≡ limit)
        ⊎ ((contains selected last ≡ false)
            × ((contains observed last ≡ true) ⊎ (maximum ≤ missing selected after last))))

take-few :
    (selected : List ℕ) (after sequence maximum : ℕ)
    → contains selected sequence ≡ true
    → missing selected after sequence ≤ maximum
    → missing selected after (suc sequence) ≤ maximum
unfolding missing
take-few selected after sequence maximum used few = ground arith

skip-few :
    (selected : List ℕ) (after sequence maximum count : ℕ)
    → count ≡ missing selected after sequence
    → leb maximum count ≡ false
    → missing selected after (suc sequence) ≤ maximum
unfolding missing
skip-few selected after sequence maximum count counted room = ground arith

-- The loop keeps its account, whatever it stops at.
cover_from-Accounted :
    (selected observed : List ℕ) (maximum after limit rounds sequence : ℕ) (c : Cover)
    → sequence + rounds ≡ limit
    → limit ≤ 2 ^ 64
    → after < sequence
    → missing selected after sequence ≤ maximum
    → Accounted selected observed after sequence c
    → (last : ℕ) × (after < last)
      × StopsAt selected observed maximum after limit last
      × Accounted selected observed after last
          (cover_from selected observed maximum rounds sequence c)
unfolding cover_from
cover_from-Accounted selected observed maximum after limit zero sequence c e small above few a =
    (sequence, above, (few, omega arith, inl (omega arith)), a)
cover_from-Accounted selected observed maximum after limit (suc rounds) sequence c e small above few
      a =
    elim (Bool-cases (contains selected sequence)) [
      | inl used ↦
          rw (used, and-false (contains observed sequence))
            (cover_from-Accounted selected observed maximum after limit rounds (suc sequence) _
              (omega arith) small (omega arith) (take-few selected after sequence maximum used few)
              (take-Accounted selected observed after sequence c above used a))
      | inr free ↦ elim (Bool-cases (contains observed sequence)) [
        | inl seen ↦ rw (free, seen) (sequence, above, (few, omega arith, inr (free, inl seen)), a)
        | inr unseen ↦ elim (Bool-cases (leb maximum c.unavailable_count)) [
          | inl enough ↦
              let full : maximum ≤ missing selected after sequence = ground (arith, a.counted) in
              rw (free, unseen, enough)
                (sequence, above, (few, omega arith, inr (free, inr full)), a)
          | inr room ↦
              rw (free, unseen, room)
                (cover_from-Accounted selected observed maximum after limit rounds (suc sequence) _
                  (omega arith) small (omega arith)
                  (skip-few selected after sequence maximum c.unavailable_count a.counted room)
                  (skip-Accounted selected observed after sequence c (omega arith) above free unseen
                    a))
        ]
      ]
    ]

start-Accounted :
    (selected observed : List ℕ) (after : ℕ)
    → Accounted selected observed after (suc after) (record {
      plan = empty_coverage;
      unavailable_count = 0;
      current = record { start_sequence = 0; end_sequence = 0 };
      range_open = false;
    })
start-Accounted selected observed after = record {
  exact = λ x. unfold in_ranges in ground arith;
  kept = λ x lo hi seen. absurd (omega arith);
  open_end = λ o. cc;
  counted = sym (missing_none selected after (suc after) (omega arith));
  ended = inr (omega arith, refl);
}

desired_bound :
    (selected : List ℕ) (maximum_scanned : ℕ)
    → maximum_scanned < 2 ^ 64
    → desired_end selected maximum_scanned < 2 ^ 64
desired_bound selected maximum_scanned h = ground arith

-- The loop of the whole function, with the sorted lists.
abbrev pub covered : List ℕ → List ℕ → ℕ → ℕ → ℕ → Cover
covered selected observed after maximum_scanned maximum =
    cover_from selected observed maximum (desired_end selected maximum_scanned - after) (suc after)
      (record {
        plan = empty_coverage;
        unavailable_count = 0;
        current = record { start_sequence = 0; end_sequence = 0 };
        range_open = false;
      })

pub covered-Accounted :
    (selected observed : List ℕ) (after maximum_scanned maximum : ℕ)
    → maximum_scanned < 2 ^ 64
    → after < maximum_scanned
    → (last : ℕ) × (after < last)
      × StopsAt selected observed maximum after
          (suc after + (desired_end selected maximum_scanned - after))
          last
      × Accounted selected observed after last
          (covered selected observed after maximum_scanned maximum)
covered-Accounted selected observed after maximum_scanned maximum small above =
    cover_from-Accounted selected observed maximum after
      (suc after + (desired_end selected maximum_scanned - after))
      (desired_end selected maximum_scanned - after) (suc after) _ refl
      (omega (arith, desired_bound selected maximum_scanned small)) (omega arith)
      (omega (arith, missing_none selected after (suc after) (omega arith)))
      (start-Accounted selected observed after)
