-- ===== src/Network/Endpoint/Failures.antt =====
-- src/network/ServerSyncPolicy.cpp: how long a cached address is used.
use power_monitor_sensor.Common.{
  ℕ, ◌<◌, ◌≡◌, refl, Bool, true, false, ◌||◌, none, some, List, [], ◌∷◌, arith, if◌then◌else◌,
}
use power_monitor_sensor.Common.Texts.{Text, text_eq_refl}
use power_monitor_sensor.Network.Endpoint.{
  EndpointAddressCache, empty_cache, lookup, update, record_transport_failure, after_reports,
}

-- Two failures stand side by side; `failed` says whether the report before the list was a failure.
unfoldable pub fails_twice : Bool → List Bool → Bool
fails_twice failed [] = false
fails_twice failed (true ∷ reports) = fails_twice false reports
fails_twice failed (false ∷ reports) = failed || fails_twice true reports

-- The cache of an address in use, with the failures since the last success.
abbrev in_use : Text → ℕ → ℕ → Bool → EndpointAddressCache
in_use host port address failed = record {
  host = host;
  address = address;
  port = port;
  transport_failures = if failed then 1 else 0;
}

empty_stays :
    (host : Text) (port : ℕ) (reports : List Bool)
    → lookup (after_reports empty_cache reports) host port ≡ none
unfolding after_reports lookup record_transport_failure
empty_stays host port [] = refl
empty_stays host port (true ∷ reports) = empty_stays host port reports
empty_stays host port (false ∷ reports) = empty_stays host port reports

known_lookup :
    (host : Text) (port address : ℕ) (failed : Bool)
    → 0 < address
    → lookup (in_use host port address failed) host port ≡ some address
unfolding lookup
known_lookup host port address failed known = ground (arith, text_eq_refl host)

known_failure :
    (host : Text) (port address : ℕ) (failed : Bool)
    → 0 < address
    → (record_transport_failure (in_use host port address failed)).0
      ≡ (if failed then empty_cache else in_use host port address true)
unfolding record_transport_failure
known_failure host port address true known = ground arith
known_failure host port address false known = ground arith

in_use-lookup :
    (host : Text) (port address : ℕ) (failed : Bool) (reports : List Bool)
    → 0 < address
    → lookup (after_reports (in_use host port address failed) reports) host port
      ≡ (if fails_twice failed reports then none else some address)
unfolding after_reports fails_twice
in_use-lookup host port address failed [] known = known_lookup host port address failed known
in_use-lookup host port address failed (true ∷ reports) known =
    in_use-lookup host port address false reports known
in_use-lookup host port address true (false ∷ reports) known =
    rw (known_failure host port address true known) (empty_stays host port reports)
in_use-lookup host port address false (false ∷ reports) known =
    rw (known_failure host port address false known)
      (in_use-lookup host port address true reports known)

-- After an update with an address, a lookup of the same host and port gives that address until two
-- transports in a row have failed, and nothing from then on.
pub lookup-after_reports :
    (c : EndpointAddressCache) (host : Text) (port address : ℕ) (reports : List Bool)
    → 0 < address
    → lookup (after_reports (update c host port address) reports) host port
      ≡ (if fails_twice false reports then none else some address)
lookup-after_reports c host port address reports known =
    in_use-lookup host port address false reports known
