-- ===== src/Ota/Partition.antt =====
-- src/ota/OtaUpdatePolicy.cpp, validateSelectedPartition: the boot partition after an update.
use power_monitor_sensor.Common.{
  ℕ, ◌≤◌, ◌<◌, ◌≡◌, ◌↔◌, Bool, true, not, ◌&&◌, ◌||◌, Option, none, some, arith, ltb, ◌==◌,
  if◌then◌else◌,
}
use power_monitor_sensor.Common.Texts.{Text, codes, text_eq, text_eq_iff}

pub record PartitionVerificationEvidence : Type 0 where
  pub expected_present : Bool
  pub selected_present : Bool
  pub running_present : Bool
  pub expected_is_ota_app : Bool
  pub selected_not_running : Bool
  pub selected_state_available : Bool
  pub selected_state_new : Bool
  pub descriptor_available : Bool
  pub expected_type : ℕ
  pub selected_type : ℕ
  pub expected_subtype : ℕ
  pub selected_subtype : ℕ
  pub expected_address : ℕ
  pub selected_address : ℕ
  pub expected_size : ℕ
  pub selected_size : ℕ
  pub expected_label : Text
  pub selected_label : Text
  pub project_name : Text
  pub version : Text
  pub build_hash : Text

-- `none` is the return of true, with the error cleared; `some` the error of a return of false.
unfoldable pub validate_selected_partition :
    PartitionVerificationEvidence → Text → Text → Text → ℕ → Option Text
validate_selected_partition e expected_project expected_version expected_build_hash image_size =
    if not e.expected_present || not e.selected_present || not e.running_present
    then some (codes "ota_partition_identity_unavailable")
    else (if not e.expected_is_ota_app
        then some (codes "ota_target_partition_not_ota_app")
        else (if not e.selected_not_running
            then some (codes "ota_target_partition_is_running")
            else (if not (e.selected_address == e.expected_address)
                then some (codes "ota_boot_partition_address_mismatch")
                else (if not (text_eq e.selected_label e.expected_label)
                    then some (codes "ota_boot_partition_label_mismatch")
                    else (if not (e.selected_type == e.expected_type)
                        then some (codes "ota_boot_partition_type_mismatch")
                        else (if not (e.selected_subtype == e.expected_subtype)
                            then some (codes "ota_boot_partition_subtype_mismatch")
                            else (if not (e.selected_size == e.expected_size)
                                  || image_size == 0
                                  || ltb e.selected_size image_size
                                then some (codes "ota_boot_partition_size_mismatch")
                                else (if not e.selected_state_available || not e.selected_state_new
                                    then some (codes "ota_boot_partition_state_invalid")
                                    else (if not e.descriptor_available
                                        then some
                                            (codes "ota_boot_partition_descriptor_unavailable")
                                        else (if not (text_eq e.project_name expected_project)
                                            then some (codes "ota_boot_partition_project_mismatch")
                                            else (if not (text_eq e.version expected_version)
                                                then some
                                                    (codes "ota_boot_partition_version_mismatch")
                                                else (if not
                                                      (text_eq e.build_hash expected_build_hash)
                                                    then some (
                                                        codes
                                                          "ota_boot_partition_build_hash_mismatch")
                                                    else none))))))))))))

-- What a selected partition must be to be booted: the erased target, holding exactly the image.
pub record IsInstalled (e : PartitionVerificationEvidence) (project version build_hash : Text)
    (image_size : ℕ) : Type 0 where
  pub present : (e.expected_present && e.selected_present && e.running_present) ≡ true
  pub ota_app : e.expected_is_ota_app ≡ true
  pub idle : e.selected_not_running ≡ true
  pub address : e.selected_address ≡ e.expected_address
  pub label : e.selected_label ≡ e.expected_label
  pub kind : e.selected_type ≡ e.expected_type
  pub subkind : e.selected_subtype ≡ e.expected_subtype
  pub size : e.selected_size ≡ e.expected_size
  pub nonempty : 0 < image_size
  pub fits : image_size ≤ e.selected_size
  pub fresh : (e.selected_state_available && e.selected_state_new && e.descriptor_available) ≡ true
  pub right_project : e.project_name ≡ project
  pub right_version : e.version ≡ version
  pub right_build : e.build_hash ≡ build_hash

-- A selected partition passes exactly if it is another than the running one, is the expected one by
-- address, label, type, subtype and size, has room for the image, is in the state of a new image,
-- and describes the expected project, version and build.
pub validate_selected_partition-IsInstalled :
    (e : PartitionVerificationEvidence) (project version build_hash : Text) (image_size : ℕ)
    → (validate_selected_partition e project version build_hash image_size ≡ none)
      ↔ IsInstalled e project version build_hash image_size
unfolding validate_selected_partition
validate_selected_partition-IsInstalled e project version build_hash image_size =
    let label = text_eq_iff e.selected_label e.expected_label in
    let same_project = text_eq_iff e.project_name project in
    let same_version = text_eq_iff e.version version in
    let same_build = text_eq_iff e.build_hash build_hash in (λ h. ground arith, λ h. ground arith)
