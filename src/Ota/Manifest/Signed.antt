-- ===== src/Ota/Manifest/Signed.antt =====
-- src/ota/OtaManifestV2.cpp: the signed text of a manifest fixes the manifest.
use power_monitor_sensor.Common.{
  ◌≡◌, refl, ap, Bool, true, false, some, drop, is_empty, arith, Option-cases, inl, inr,
}
use power_monitor_sensor.Common.Texts.{Text}
use power_monitor_sensor.Ota.Manifest.{
  Manifest, append_fields, fields_of, opened, canonical_manifest,
}
use power_monitor_sensor.Ota.Manifest.Readback.{read_fields_back}

-- One text has one flag and one rest.
same_opening :
    (flag other : Bool) (rest more : Text)
    → opened flag (some rest) ≡ opened other (some more)
    → (flag ≡ other) × (rest ≡ more)
same_opening true true rest more h = (refl, ap (drop 23) h)
same_opening true false rest more h = ground arith
same_opening false true rest more h = ground arith
same_opening false false rest more h = (refl, ap (drop 24) h)

-- The manifest with the fields that are not signed taken from another.
abbrev pub unsigned_from : Manifest → Manifest → Manifest
unsigned_from m other = record m {
  available = other.available;
  manifest_hmac = other.manifest_hmac;
}

same_manifest :
    (m n : Manifest)
    → m.allow_downgrade ≡ n.allow_downgrade
    → fields_of m ≡ fields_of n
    → unsigned_from m n ≡ n
same_manifest m n flags fields = cc

same_fields :
    (m n : Manifest) (output : Text)
    → append_fields (fields_of m) ≡ some output
    → append_fields (fields_of n) ≡ some output
    → fields_of m ≡ fields_of n
same_fields m n output h g =
    let left = (read_fields_back (fields_of m) output h).0 in
    let right = (read_fields_back (fields_of n) output g).0 in cc

-- The canonical text that the HMAC covers fixes the manifest: two manifests with one text, which is
-- not the empty one of a failure, agree in every field but `available` and the HMAC itself.
pub canonical_manifest_fixes :
    (m n : Manifest)
    → is_empty (canonical_manifest m) ≡ false
    → canonical_manifest m ≡ canonical_manifest n
    → unsigned_from m n ≡ n
unfolding canonical_manifest
canonical_manifest_fixes m n filled same = elim (Option-cases (append_fields (fields_of m))) [
  | inl failed ↦ let wrong = (rw failed at filled) in cc
  | inr (rest, found) ↦ elim (Option-cases (append_fields (fields_of n))) [
    | inl failed ↦ let wrong = (rw (found, failed) at same) in ground arith
    | inr (more, known) ↦
        let (flags, rests) =
          same_opening m.allow_downgrade n.allow_downgrade rest more (rw (found, known) at same) in
        let again : append_fields (fields_of n) ≡ some rest = rw rests known in
        same_manifest m n flags (same_fields m n rest found again)
  ]
]
