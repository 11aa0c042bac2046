-- ===== src/Network/Endpoint.antt =====
-- src/network/ServerSyncPolicy.cpp, EndpointAddressCache: the address of the configured server.
pub mod Failures
use power_monitor_sensor.Common.{
  ℕ, suc, ◌+◌, ◌%◌, ◌^◌, Bool, true, false, not, ◌&&◌, ◌||◌, Option, none, some, List, [], ◌∷◌, ltb,
  ◌==◌, if◌then◌else◌,
}
use power_monitor_sensor.Common.Texts.{Text, text_eq}

pub record EndpointAddressCache : Type 0 where
  pub host : Text
  pub address : ℕ
  pub port : ℕ
  pub transport_failures : ℕ

abbrev pub empty_cache : EndpointAddressCache
empty_cache = record { host = []; address = 0; port = 0; transport_failures = 0 }

-- `none` stands for the result false, with 0 in the address.
unfoldable pub lookup : EndpointAddressCache → Text → ℕ → Option ℕ
lookup c host port =
    if c.address == 0 || not (text_eq c.host host) || not (c.port == port)
    then none
    else some c.address

abbrev pub update : EndpointAddressCache → Text → ℕ → ℕ → EndpointAddressCache
update c host port address = record {
  host = host;
  address = address;
  port = port;
  transport_failures = 0;
}

-- ++transport_failures_ on a uint8.
abbrev pub one_more_failure : EndpointAddressCache → EndpointAddressCache
one_more_failure c = record c { transport_failures = (c.transport_failures + 1) % 2 ^ 8 }

unfoldable pub record_transport_failure : EndpointAddressCache → EndpointAddressCache × Bool
record_transport_failure c =
    if c.address == 0
    then (c, false)
    else (if ltb (one_more_failure c).transport_failures 2
        then (one_more_failure c, false)
        else (empty_cache, true))

abbrev pub record_transport_success : EndpointAddressCache → EndpointAddressCache
record_transport_success c = record c { transport_failures = 0 }

unfoldable pub configured : EndpointAddressCache → Bool
configured c = not (c.address == 0)

-- What the transports report, from one lookup of the address to the next; `true` is a success.
abbrev pub on_report : Bool → EndpointAddressCache → EndpointAddressCache
on_report true c = record_transport_success c
on_report false c = (record_transport_failure c).0

unfoldable pub after_reports : EndpointAddressCache → List Bool → EndpointAddressCache
after_reports c [] = c
after_reports c (report ∷ reports) = after_reports (on_report report c) reports
