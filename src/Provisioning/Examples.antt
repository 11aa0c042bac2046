-- ===== src/Provisioning/Examples.antt =====
-- The theorems of the provisioning journal at a concrete journal.
use power_monitor_sensor.Common.{◌≡◌, refl, some, [], ◌∷◌, arith}
use power_monitor_sensor.Provisioning.Journal.{
  Journal, encode, decode, recovery_action, conflict, restore_credentials,
  rollback_config_and_restore_credentials,
}
use power_monitor_sensor.Provisioning.Journal.RoundTrip.{decode-encode}

abbrev journal : Journal
journal = record {
  previous_config_generation = 7;
  enrollment_token = 1 ∷ 2 ∷ 3 ∷ [];
  admin_salt = [];
  admin_hash = 9 ∷ 255 ∷ [];
}

decode-encode_example : decode (encode journal) ≡ some journal
decode-encode_example = decode-encode journal refl (omega arith)

older_conflicts : recovery_action 7 6 ≡ conflict
unfolding recovery_action
older_conflicts = refl

same_restores : recovery_action 7 7 ≡ restore_credentials
unfolding recovery_action
same_restores = refl

newer_rolls_back : recovery_action 7 8 ≡ rollback_config_and_restore_credentials
unfolding recovery_action
newer_rolls_back = refl
