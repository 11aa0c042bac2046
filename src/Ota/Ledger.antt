-- ===== src/Ota/Ledger.antt =====
-- src/ota/OtaStageLedger.h and .cpp: the record of the last stage, kept over a reset in RTC memory.
pub mod Stages
pub mod Survival
pub mod Loss
mod Examples
use Prim.Native.Nat.{bit_xor}
use power_monitor_sensor.Common.{
  ℕ, ◌+◌, ◌-◌, ◌*◌, ◌≡◌, Bool, true, false, ◌&&◌, Option, none, some, List, [], ◌∷◌, ◌==◌, take,
  u32, if◌then◌else◌,
}
use power_monitor_sensor.Ota.Ledger.Stages.{Stage, boot, failure_persisted, default_context}
use power_monitor_sensor.Common.Texts.{Text, codes}

-- The text fields hold what stands before their first NUL.
pub record Snapshot : Type 0 where
  pub stage : Stage
  pub sequence : ℕ
  pub monotonic_ms : ℕ
  pub bytes_received : ℕ
  pub image_size : ℕ
  pub free_internal_bytes : ℕ
  pub largest_internal_block_bytes : ℕ
  pub free_psram_bytes : ℕ
  pub task_stack_high_water_bytes : ℕ
  pub boot_count : ℕ
  pub reset_reason_code : ℕ
  pub attempt : ℕ
  pub evidence_sequence : ℕ
  pub update_open : Bool
  pub reboot_expected : Bool
  pub boot_id : Text
  pub firmware_version : Text
  pub build_hash : Text
  pub deployment_id : Text
  pub operation_context : Text
  pub current_task : Text
  pub last_error : Text
  pub running_partition : Text
  pub target_partition : Text

abbrev pub new_snapshot : Snapshot
new_snapshot = record {
  stage = boot;
  sequence = 0;
  monotonic_ms = 0;
  bytes_received = 0;
  image_size = 0;
  free_internal_bytes = 0;
  largest_internal_block_bytes = 0;
  free_psram_bytes = 0;
  task_stack_high_water_bytes = 0;
  boot_count = 0;
  reset_reason_code = 0;
  attempt = 0;
  evidence_sequence = 0;
  update_open = false;
  reboot_expected = false;
  boot_id = [];
  firmware_version = [];
  build_hash = [];
  deployment_id = [];
  operation_context = [];
  current_task = [];
  last_error = [];
  running_partition = [];
  target_partition = [];
}

pub record RetainedRecord : Type 0 where
  pub magic : ℕ
  pub version : ℕ
  pub size : ℕ
  pub checksum : ℕ
  pub snapshot : Snapshot

abbrev pub ledger_magic : ℕ
ledger_magic = 0x504D4F54

abbrev pub ledger_version : ℕ
ledger_version = 4

-- The retained record, and what a reset loses.
pub record Ledger : Type 0 where
  pub retained : RetainedRecord
  pub prior : Snapshot
  pub runtime_evidence_sequence : ℕ

-- What the platform tells: the clock, the heaps, the stack, the task and the partitions.
pub record Platform : Type 0 where
  pub millis : ℕ
  pub free_internal : ℕ
  pub largest_internal : ℕ
  pub free_psram : ℕ
  pub stack_high_water : ℕ
  pub task : Option Text
  pub running : Option Text
  pub target : Option Text

-- strncpy into a filled array; a null pointer leaves it empty.
abbrev pub copy_text : ℕ → Option Text → Text
copy_text capacity none = []
copy_text capacity (some source) = take (capacity - 1) source

abbrev pub hash_bytes : ℕ → List ℕ → ℕ
hash_bytes value [] = value
hash_bytes value (byte ∷ bytes) = hash_bytes (u32 (bit_xor value byte * 16777619)) bytes

abbrev pub bound : Option Text → ℕ → ℕ → Snapshot → Snapshot
bound deployment_id attempt evidence_sequence s = record s {
  deployment_id = copy_text 37 deployment_id;
  attempt = attempt;
  evidence_sequence = evidence_sequence;
}

abbrev pub sequenced : ℕ → Snapshot → Snapshot
sequenced evidence_sequence s = record s { evidence_sequence = evidence_sequence }

-- The arguments of `record`.
pub record Entry : Type 0 where
  pub stage : Stage
  pub bytes_received : ℕ
  pub image_size : ℕ
  pub update_open : Bool
  pub reboot_expected : Bool
  pub operation_context : Option Text

abbrev pub context_or : Option Text → Text → Text
context_or none default = default
context_or (some context) default = context

unfoldable pub entered : Entry → Platform → Snapshot → Snapshot
unfolding default_context
entered e p s = record s {
  stage = e.stage;
  sequence = u32 (s.sequence + 1);
  monotonic_ms = p.millis;
  bytes_received = e.bytes_received;
  image_size = e.image_size;
  free_internal_bytes = p.free_internal;
  largest_internal_block_bytes = p.largest_internal;
  free_psram_bytes = p.free_psram;
  task_stack_high_water_bytes = p.stack_high_water;
  update_open = e.update_open;
  reboot_expected = e.reboot_expected;
  operation_context =
      copy_text 24 (some (context_or e.operation_context (default_context e.stage)));
  current_task = copy_text 17 p.task;
  running_partition = copy_text 17 p.running;
  target_partition = copy_text 17 p.target;
}

-- The arguments of `beginBoot`.
pub record Boot : Type 0 where
  pub boot_id : Option Text
  pub firmware_version : Option Text
  pub build_hash : Option Text
  pub boot_count : ℕ
  pub reset_reason_code : ℕ

-- The new record, before its checksum.
abbrev pub booted : ℕ → Boot → Platform → Snapshot → RetainedRecord
booted size_of_record b p prior = record {
  magic = ledger_magic;
  version = ledger_version;
  size = size_of_record;
  checksum = 0;
  snapshot = record new_snapshot {
    stage = boot;
    sequence = u32 (prior.sequence + 1);
    boot_count = b.boot_count;
    reset_reason_code = b.reset_reason_code;
    boot_id = copy_text 65 b.boot_id;
    firmware_version = copy_text 32 b.firmware_version;
    build_hash = copy_text 65 b.build_hash;
    operation_context = copy_text 24 (some (codes "idle"));
    current_task = copy_text 17 p.task;
    running_partition = copy_text 17 p.running;
    target_partition = copy_text 17 p.target;
  };
}

-- The error is written without a new checksum; then `record` asks again for a valid record.
unfoldable pub with_error : Option Text → Ledger → Ledger
with_error failure_code l = record l {
  retained = record l.retained {
    snapshot = record l.retained.snapshot { last_error = copy_text 49 failure_code };
  };
}

-- A reset loses all but the retained record.
abbrev pub reset : Ledger → Ledger
reset l = record { retained = l.retained; prior = new_snapshot; runtime_evidence_sequence = 0 }

unfoldable pub headed : ℕ → RetainedRecord → Bool
headed size_of_record r =
    r.magic == ledger_magic && r.version == ledger_version && r.size == size_of_record

-- `representation` is the memory of a record, and `size_of_record` its size: the layout, with its
-- padding, is the compiler's.
module _ (representation : RetainedRecord → List ℕ) (size_of_record : ℕ) where
  abbrev pub checksum_of : RetainedRecord → ℕ
  checksum_of source = hash_bytes 2166136261 (representation (record source { checksum = 0 }))

  unfoldable pub valid : RetainedRecord → Bool
  unfolding headed
  valid r = headed size_of_record r && r.checksum == checksum_of r

  unfoldable pub commit : RetainedRecord → RetainedRecord
  commit r = record r { checksum = checksum_of r }

  -- The operations below that ask for a valid record first.
  unfoldable pub if_valid : Ledger → (Snapshot → Snapshot) → Ledger
  unfolding valid commit
  if_valid l change =
      if valid l.retained
      then record l {
        retained = commit (record l.retained { snapshot = change l.retained.snapshot });
      }
      else l

  unfoldable pub current : Ledger → Snapshot
  unfolding valid
  current l = if valid l.retained then l.retained.snapshot else new_snapshot

  -- `prior` is the snapshot of the last boot, where its record is valid.
  unfoldable pub begin_boot : Boot → Platform → Ledger → Ledger
  unfolding current commit
  begin_boot b p l = record {
    prior = current l;
    runtime_evidence_sequence = 0;
    retained = commit (booted size_of_record b p (current l));
  }

  unfoldable pub bind_deployment : Option Text → ℕ → ℕ → Ledger → Ledger
  unfolding if_valid
  bind_deployment deployment_id attempt evidence_sequence l =
      if_valid (record l { runtime_evidence_sequence = evidence_sequence })
        (bound deployment_id attempt evidence_sequence)

  unfoldable pub set_evidence_sequence : ℕ → Ledger → Ledger
  unfolding if_valid
  set_evidence_sequence evidence_sequence l =
      if_valid (record l { runtime_evidence_sequence = evidence_sequence })
        (sequenced evidence_sequence)

  -- `record`, by another name.
  unfoldable pub record_stage : Entry → Platform → Ledger → Ledger
  unfolding if_valid entered
  record_stage e p l = if_valid l (entered e p)

  unfoldable pub record_failure : Option Text → ℕ → ℕ → Bool → Platform → Ledger → Ledger
  unfolding valid record_stage with_error
  record_failure failure_code bytes_received image_size update_open p l =
      if valid l.retained
      then record_stage
          (record {
            stage = failure_persisted;
            bytes_received = bytes_received;
            image_size = image_size;
            update_open = update_open;
            reboot_expected = false;
            operation_context = some (codes "ota_active");
          })
          p (with_error failure_code l)
      else l
