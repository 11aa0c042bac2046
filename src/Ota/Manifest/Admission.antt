-- ===== src/Ota/Manifest/Admission.antt =====
-- src/ota/OtaManifestV2.cpp: which manifests the policy admits, and what a device can be led to.
use Prim.Native.Nat.{Ordering}
use Ordering.{lt, eq, gt}
use power_monitor_sensor.Common.{
  ℕ, ◌≤◌, ◌≡◌, ◌↔◌, ◌⊎◌, refl, sym, ◌∙◌, Bool, true, false, not, ◌&&◌, ◌||◌, Option, none, some,
  List, [], ◌∷◌, if◌then◌else◌, arith, Bool-cases, Option-cases, &&-eq-true, inl, inr, All,
}
use power_monitor_sensor.Common.Int.{pos, leb_ℤ}
use power_monitor_sensor.Common.Texts.{Text, text_eq, text_eq_iff}
use power_monitor_sensor.Common.Orders.{flip}
use power_monitor_sensor.Ota.Calendar.{parse_utc_timestamp}
use power_monitor_sensor.Ota.Version.{valid_semver, compare_semver}
use power_monitor_sensor.Ota.Version.Order.{compare_semver_order}
use power_monitor_sensor.Ota.Manifest.{
  Manifest, PolicyContext, PolicyError, project_incompatible, hardware_incompatible,
  protocol_incompatible, valid_labels, valid_values, check_partition, check_version, check_target,
  check_times, valid_manifest, validate_policy,
}
use power_monitor_sensor.Ota.Manifest.Fields.{compatible_hardware}

-- The times of the manifest are valid ones, and the present is within them.
abbrev pub IsCurrent : Manifest → PolicyContext → Option ℕ → Option ℕ → Type 0
IsCurrent m c (some not_before) (some expires_at) =
    (leb_ℤ (pos not_before) c.now_unix_seconds ≡ true)
    × (leb_ℤ (pos expires_at) c.now_unix_seconds ≡ false)
IsCurrent m c _ _ = ⊥

abbrev pub IsNewer : Manifest → Ordering → Type 0
IsNewer m lt = m.allow_downgrade ≡ true
IsNewer m eq = ⊥
IsNewer m gt = Unit

abbrev pub IsFor : Manifest → PolicyContext → Type 0
IsFor m c =
    (m.project_name ≡ c.project_name)
    × (compatible_hardware m.hardware_target c.hardware_target ≡ true)
    × (m.protocol_version ≡ c.current_protocol)
    × (m.protocol_min ≡ c.current_protocol)
    × (m.protocol_max ≡ c.current_protocol)

abbrev pub HasRoom : Manifest → PolicyContext → Type 0
HasRoom m c = (1 ≤ c.partition_size_bytes) × (m.size_bytes ≤ c.partition_size_bytes)

partition_exact : (m : Manifest) (c : PolicyContext) → (check_partition m c ≡ none) ↔ HasRoom m c
partition_exact m c = ground arith

version_exact :
    (m : Manifest) (c : PolicyContext) (order : Ordering)
    → (check_version m c order ≡ none) ↔ (IsNewer m order × HasRoom m c)
version_exact m c lt = ground (arith, partition_exact m c)
version_exact m c eq = ground arith
version_exact m c gt = ground (arith, partition_exact m c)

guards :
    (project hardware version least most : Bool) (next : Option PolicyError)
    → ((if not project
          then some project_incompatible
          else (if not hardware
              then some hardware_incompatible
              else (if not version || not least || not most
                  then some protocol_incompatible
                  else next)))
        ≡ none)
      ↔ ((project ≡ true)
          × (hardware ≡ true)
          × (version ≡ true)
          × (least ≡ true)
          × (most ≡ true)
          × (next ≡ none))
guards project hardware version least most next = ground arith

target_exact :
    (m : Manifest) (c : PolicyContext)
    → (check_target m c ≡ none)
      ↔ (IsFor m c × IsNewer m (compare_semver m.version c.current_version) × HasRoom m c)
unfolding check_target
target_exact m c =
    let order = compare_semver m.version c.current_version in
    let project = text_eq_iff m.project_name c.project_name in
    let version = text_eq_iff m.protocol_version c.current_protocol in
    let least = text_eq_iff m.protocol_min c.current_protocol in
    let most = text_eq_iff m.protocol_max c.current_protocol in
    let tests =
      guards (text_eq m.project_name c.project_name)
        (compatible_hardware m.hardware_target c.hardware_target)
        (text_eq m.protocol_version c.current_protocol) (text_eq m.protocol_min c.current_protocol)
        (text_eq m.protocol_max c.current_protocol) (check_version m c order) in
    let rest = version_exact m c order in
    (
      λ h.
          let (p, fits, v, l, u, next) = tests.0 h in
          ((project.0 p, fits, version.0 v, least.0 l, most.0 u), (rest.0 next).0, (rest.0 next).1),
      λ h.
          let ((p, fits, v, l, u), grows, room) = h in
          tests.1 (project.1 p, fits, version.1 v, least.1 l, most.1 u, rest.1 (grows, room)),
    )

times_exact :
    (m : Manifest) (c : PolicyContext) (not_before expires_at : Option ℕ)
    → (check_times m c not_before expires_at ≡ none) ↔ (
        IsCurrent m c not_before expires_at
        × (IsFor m c × IsNewer m (compare_semver m.version c.current_version) × HasRoom m c))
unfolding check_times
times_exact m c none expires_at = ground arith
times_exact m c (some not_before) none = ground arith
times_exact m c (some not_before) (some expires_at) = ground (arith, target_exact m c)

-- The policy admits a manifest exactly where it is for this device, its times are valid and the
-- present is within them, project, hardware and the three protocols fit, its version is newer, or
-- older and a downgrade is allowed, and the image fits into a partition that is there.
pub validate_policy_exact :
    (m : Manifest) (c : PolicyContext)
    → (validate_policy m c ≡ none) ↔ (
        (m.device_id ≡ c.device_id)
        × IsCurrent m c (parse_utc_timestamp m.not_before) (parse_utc_timestamp m.expires_at)
        × (IsFor m c × IsNewer m (compare_semver m.version c.current_version) × HasRoom m c))
unfolding validate_policy
validate_policy_exact m c = ground (
  arith,
  text_eq_iff m.device_id c.device_id,
  times_exact m c (parse_utc_timestamp m.not_before) (parse_utc_timestamp m.expires_at),
)

-- What a device runs behind a manifest that is offered to it: an admitted one is installed.
abbrev pub is_none : Option PolicyError → Bool
is_none none = true
is_none (some error) = false

unfoldable pub offered : Text → Manifest × PolicyContext → Text
offered version (m, c) =
    if valid_manifest m && is_none (validate_policy m (record c { current_version = version }))
    then m.version
    else version

unfoldable pub offered_all : Text → List (Manifest × PolicyContext) → Text
unfolding offered
offered_all version [] = version
offered_all version (offer ∷ offers) = offered_all (offered version offer) offers

abbrev pub KeepsUp : Manifest × PolicyContext → Type 0
KeepsUp offer = offer.0.allow_downgrade ≡ false

-- The version is the same text, or a newer one.
abbrev pub IsAhead : Text → Text → Type 0
IsAhead version later = (later ≡ version) ⊎ (compare_semver version later ≡ lt)

valid_version : (m : Manifest) → valid_manifest m ≡ true → valid_semver m.version ≡ true
unfolding valid_manifest
valid_version m h =
    let (_, both) = &&-eq-true (valid_labels m) (valid_semver m.version && valid_values m) h in
    (&&-eq-true (valid_semver m.version) (valid_values m) both).0

newer :
    (m : Manifest) (order : Ordering)
    → m.allow_downgrade ≡ false
    → IsNewer m order
    → flip order ≡ lt
newer m lt keeps h = cc
newer m eq keeps h = absurd h
newer m gt keeps h = refl

one-IsAhead :
    (version : Text) (m : Manifest) (c : PolicyContext)
    → valid_semver version ≡ true
    → m.allow_downgrade ≡ false
    → (valid_semver (offered version (m, c)) ≡ true) × IsAhead version (offered version (m, c))
unfolding offered
one-IsAhead version m c v keeps =
    let its = record c { current_version = version } in
    elim (Bool-cases (valid_manifest m && is_none (validate_policy m its))) [
      | inr refused ↦ rw refused (v, inl refl)
      | inl both ↦
          let (valid, accepted) =
            &&-eq-true (valid_manifest m) (is_none (validate_policy m its)) both in
          elim (Option-cases (validate_policy m its)) [
            | inr (error, known) ↦ let wrong = (rw known at accepted) in cc
            | inl admitted ↦
                let good = valid_version m valid in
                let (_, _, (_, grows, _)) = (validate_policy_exact m its).0 admitted in
                let turned = (compare_semver_order m.version version version good v v).0 in
                rw both
                  (good, inr (rw turned (newer m (compare_semver m.version version) keeps grows)))
          ]
    ]

IsAhead-goes :
    (a b c : Text)
    → valid_semver a ≡ true
    → valid_semver b ≡ true
    → valid_semver c ≡ true
    → IsAhead a b
    → IsAhead b c
    → IsAhead a c
IsAhead-goes a b c x y z (inl same) (inl equal) = inl (equal ∙ same)
IsAhead-goes a b c x y z (inl same) (inr later) = inr (rw (sym same) later)
IsAhead-goes a b c x y z (inr later) (inl same) = inr (rw same later)
IsAhead-goes a b c x y z (inr later) (inr more) =
    inr ((compare_semver_order a b c x y z).1 later more)

-- Where no manifest allows a downgrade, a device with a valid version that is offered any sequence
-- of manifests, at any times, and installs those that are valid and admitted, has in the end a valid
-- version, which is the text it had or one that compares as newer: it never gets back.
pub offered_all-IsAhead :
    (offers : List (Manifest × PolicyContext)) (version : Text)
    → valid_semver version ≡ true
    → All KeepsUp offers
    → (valid_semver (offered_all version offers) ≡ true)
      × IsAhead version (offered_all version offers)
unfolding offered_all
offered_all-IsAhead [] version v keeps = (v, inl refl)
offered_all-IsAhead ((m, c) ∷ offers) version v (now, later) =
    let next = offered version (m, c) in
    let (good, step) = one-IsAhead version m c v now in
    let (valid, rest) = offered_all-IsAhead offers next good later in
    (valid, IsAhead-goes version next (offered_all next offers) v good valid step rest)
