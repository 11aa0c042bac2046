-- ===== src/Ota/Milestones.antt =====
-- src/ota/OtaUpdatePolicy.cpp: which milestone of an update is reported to the server next.
pub mod Replay
use power_monitor_sensor.Common.{
  ℕ, suc, ◌+◌, ◌<◌, ◌≤◌, Bool, true, false, not, ◌&&◌, ◌||◌, Option, none, some, List, [], ◌∷◌, leb,
  ltb, get_or, is_empty, if◌then◌else◌,
}
use power_monitor_sensor.Common.Texts.{Text, codes, text_eq}

-- OtaManifestV2.h
pub data State : Type 0 where
  idle manifest_check manifest_unavailable manifest_received manifest_authenticated : State
  manifest_rejected waiting_for_schedule waiting_for_resources download_starting : State
  downloading binary_verifying partition_writing partition_written reboot_pending : State
  rebooting post_boot_validation validated completed failed rollback_detected rolled_back : State

abbrev pub install_milestones : List Text
install_milestones =
    codes "manifest_authenticated"
    ∷ codes "download_started"
    ∷ codes "downloading"
    ∷ codes "binary_verified"
    ∷ codes "partition_written"
    ∷ codes "rebooting"
    ∷ codes "post_boot_validation"
    ∷ codes "validated"
    ∷ []

abbrev pub position_in : ℕ → List Text → Text → Option ℕ
position_in index [] value = none
position_in index (m ∷ ms) value =
    if text_eq value m then some index else position_in (suc index) ms value

-- `none` stands for -1.
unfoldable pub milestone_index : Text → Option ℕ
milestone_index = position_in 0 install_milestones

-- delivered + 1, as an index.
abbrev pub following : Option ℕ → ℕ
following none = 0
following (some i) = suc i

-- delivered < other, delivered >= other on ints from -1 up.
abbrev pub below : Option ℕ → Option ℕ → Bool
below i j = ltb (following i) (following j)

unfoldable pub report_milestone_for_state : State → Text
report_milestone_for_state manifest_authenticated = codes "manifest_authenticated"
report_milestone_for_state waiting_for_schedule = codes "waiting_for_schedule"
report_milestone_for_state download_starting = codes "download_started"
report_milestone_for_state downloading = codes "downloading"
report_milestone_for_state binary_verifying = codes "downloading"
report_milestone_for_state partition_writing = codes "binary_verified"
report_milestone_for_state partition_written = codes "partition_written"
report_milestone_for_state reboot_pending = codes "partition_written"
report_milestone_for_state rebooting = codes "rebooting"
report_milestone_for_state post_boot_validation = codes "post_boot_validation"
report_milestone_for_state validated = codes "validated"
report_milestone_for_state completed = codes "validated"
report_milestone_for_state failed = codes "failed"
report_milestone_for_state rollback_detected = codes "rolled_back"
report_milestone_for_state rolled_back = codes "rolled_back"
report_milestone_for_state _ = codes ""

-- The index that has been delivered; a wait for the schedule counts as the manifest.
unfoldable pub delivered_index : Text → Option ℕ
unfolding milestone_index
delivered_index last_reported =
    if text_eq last_reported (codes "waiting_for_schedule")
    then milestone_index (codes "manifest_authenticated")
    else milestone_index last_reported

-- The branch for "rolled_back".
unfoldable pub next_of_rollback : Text → Option Text
unfolding milestone_index delivered_index
next_of_rollback last_reported =
    if text_eq last_reported (codes "rolled_back") || text_eq last_reported (codes "failed")
    then none
    else (if text_eq last_reported (codes "rollback_detected")
        then some (codes "rolled_back")
        else (if below (delivered_index last_reported) (milestone_index (codes "rebooting"))
            then some (get_or install_milestones (following (delivered_index last_reported)) [])
            else some (codes "rollback_detected")))

-- `none` stands for the null pointer.
unfoldable pub next_report_milestone : Text → Text → Option Text
unfolding milestone_index delivered_index next_of_rollback
next_report_milestone last_reported desired =
    if is_empty desired || text_eq last_reported desired
    then none
    else (if text_eq desired (codes "waiting_for_schedule")
        then (if is_empty last_reported
            then some (codes "manifest_authenticated")
            else (if text_eq last_reported (codes "manifest_authenticated")
                then some (codes "waiting_for_schedule")
                else none))
        else (if text_eq desired (codes "failed")
            then (if text_eq last_reported (codes "failed") then none else some (codes "failed"))
            else (if text_eq desired (codes "rolled_back")
                then next_of_rollback last_reported
                else (let target = milestone_index desired in
                    let delivered = delivered_index last_reported in
                    if leb (following target) 0 || leb (following target) (following delivered)
                    then none
                    else some (get_or install_milestones (following delivered) [])))))

unfoldable pub report_state_accepts_failure_evidence : Text → Bool
report_state_accepts_failure_evidence state =
    text_eq state (codes "failed")
    || text_eq state (codes "rollback_detected")
    || text_eq state (codes "rolled_back")
