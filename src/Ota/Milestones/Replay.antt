-- ===== src/Ota/Milestones/Replay.antt =====
-- src/ota/OtaUpdatePolicy.cpp: the reports that a device makes, one after another, until the last.
use power_monitor_sensor.Common.{
  ℕ, zero, suc, ◌-◌, ◌<◌, ◌≡◌, refl, leb, ◌==◌, ◌&&◌, &&-eq-true, if◌then◌else◌, Bool, true, none,
  some, List, [], ◌∷◌, ◌++◌, all_below, all_below_sound, get_or, take, drop,
}
use power_monitor_sensor.Common.Texts.{Text, codes, text_eq, texts_eq, texts_eq→eq}
use power_monitor_sensor.Ota.Milestones.{install_milestones, next_report_milestone}

-- The milestones reported from `last` on for `desired`, each delivered before the next is chosen.
-- No list of reports is longer than eight.
unfoldable pub replay : ℕ → Text → Text → List Text
replay zero last desired = []
replay (suc fuel) last desired = elim (next_report_milestone last desired) [
  | none ↦ []
  | some m ↦ m ∷ replay fuel m desired
]

-- The texts that a report leaves behind it: nothing, the milestones of an installation, the wait for
-- the schedule, and the ends.
abbrev pub reported_texts : List Text
reported_texts =
    ([] ∷ install_milestones)
    ++ codes "waiting_for_schedule"
      ∷ codes "failed"
      ∷ codes "rollback_detected"
      ∷ codes "rolled_back"
      ∷ []

abbrev pub reported : ℕ → Text
reported i = get_or reported_texts i []

-- How many milestones of the table stand reported behind the i-th text: behind a wait for the schedule
-- the first one, and behind an end none.
abbrev pub made : ℕ → ℕ
made i = if leb i 8 then i else (if i == 9 then 1 else 0)

-- The milestones of the table from the i-th text up to the number `end`.
abbrev pub between : ℕ → ℕ → List Text
between i end = take (end - made i) (drop (made i) install_milestones)

-- What a wait for the schedule still reports.
abbrev pub wait_reports : ℕ → List Text
wait_reports i =
    if i == 0
    then codes "manifest_authenticated" ∷ codes "waiting_for_schedule" ∷ []
    else (if i == 1 then codes "waiting_for_schedule" ∷ [] else [])

-- What a failure still reports: itself, once.
abbrev pub failure_reports : ℕ → List Text
failure_reports i = if i == 10 then [] else codes "failed" ∷ []

-- What a rollback still reports; the sixth milestone is the reboot.
abbrev pub rollback_reports : ℕ → List Text
rollback_reports i =
    if leb i 9
    then between i 6 ++ codes "rollback_detected" ∷ codes "rolled_back" ∷ []
    else (if i == 11 then codes "rolled_back" ∷ [] else [])

installs_in_order : ℕ → ℕ → Bool
installs_in_order j i = texts_eq (replay 10 (reported i) (reported j)) (between i j)

ends_in_order : ℕ → Bool
ends_in_order i =
    texts_eq (replay 10 (reported i) (codes "waiting_for_schedule")) (wait_reports i)
    && texts_eq (replay 10 (reported i) (codes "failed")) (failure_reports i)
    && texts_eq (replay 10 (reported i) (codes "rolled_back")) (rollback_reports i)

install_table : all_below 9 (λ j. all_below 13 (installs_in_order j)) ≡ true
unfolding all_below installs_in_order replay next_report_milestone text_eq texts_eq
install_table = refl

end_table : all_below 13 ends_in_order ≡ true
unfolding all_below ends_in_order replay next_report_milestone text_eq texts_eq
end_table = refl

-- From each of the thirteen texts that can stand as the last report, the reports that follow, each
-- chosen behind the one before, are these. For nothing or a milestone of the table: the milestones
-- from there up to it, in the order of the table and with none left out, where a wait for the schedule
-- stands as the first milestone and an end as nothing. For a wait for the schedule: the first milestone
-- and the wait, as far as they are missing, and nothing behind a later report. For a failure: the
-- failure, unless it is the last report. For a rollback: the milestones up to the reboot, the detection
-- and the rollback; behind the detection the rollback alone; and nothing behind a failure or a
-- rollback.
pub replay_in_order :
    (i j : ℕ)
    → i < 13
    → j < 9
    → (replay 10 (reported i) (reported j) ≡ between i j)
      × (replay 10 (reported i) (codes "waiting_for_schedule") ≡ wait_reports i)
      × (replay 10 (reported i) (codes "failed") ≡ failure_reports i)
      × (replay 10 (reported i) (codes "rolled_back") ≡ rollback_reports i)
unfolding installs_in_order ends_in_order
replay_in_order i j h k =
    let installs =
      all_below_sound 13 (installs_in_order j)
        (all_below_sound 9 (λ j. all_below 13 (installs_in_order j)) install_table j k) i h in
    let ends = all_below_sound 13 ends_in_order end_table i h in
    let waits = texts_eq (replay 10 (reported i) (codes "waiting_for_schedule")) (wait_reports i) in
    let fails = texts_eq (replay 10 (reported i) (codes "failed")) (failure_reports i) in
    let rolls = texts_eq (replay 10 (reported i) (codes "rolled_back")) (rollback_reports i) in
    let (front, rolled) = &&-eq-true (waits && fails) rolls ends in
    let (waited, failed) = &&-eq-true waits fails front in
    (
      texts_eq→eq _ _ installs,
      texts_eq→eq _ _ waited,
      texts_eq→eq _ _ failed,
      texts_eq→eq _ _ rolled,
    )
