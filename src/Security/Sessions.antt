-- ===== src/Security/Sessions.antt =====
-- src/security/AuthService.h and .cpp: the sessions of local browsers.
pub mod Calls
pub mod Entries
pub mod History
pub mod Revocation
pub mod Opening
mod Examples
use power_monitor_sensor.Common.{
  ℕ, zero, suc, ◌+◌, ◌*◌, max, min, Bool, true, false, not, ◌&&◌, ◌||◌, Option, none, some, List,
  [], ◌∷◌, leb, ltb, u32, u64, is_empty, if◌then◌else◌,
}
use power_monitor_sensor.Common.Texts.{Text, text_eq}

pub data LocalSessionResult : Type 0 where
  ok missing invalid expired csrf_rejected elevation_required : LocalSessionResult

pub record Session : Type 0 where
  pub token : Text
  pub csrf : Text
  pub expires_ms : ℕ
  pub elevated : Bool
  pub reused : Bool
  pub refreshed : Bool
  pub capacity_reached : Bool

abbrev pub no_session : Session
no_session = record {
  token = [];
  csrf = [];
  expires_ms = 0;
  elevated = false;
  reused = false;
  refreshed = false;
  capacity_reached = false;
}

-- `capacity` is left out: it is always the same.
pub record Metrics : Type 0 where
  pub active : ℕ
  pub peak_active : ℕ
  pub created : ℕ
  pub reused : ℕ
  pub refreshed : ℕ
  pub expired : ℕ
  pub invalid : ℕ
  pub revoked : ℕ
  pub capacity_rejections : ℕ

pub record Entry : Type 0 where
  pub used : Bool
  pub token_digest : Text
  pub csrf_digest : Text
  pub created_ms : ℕ
  pub last_seen_ms : ℕ
  pub expires_ms : ℕ
  pub elevated_until_ms : ℕ
  pub generation : ℕ

abbrev pub empty_entry : Entry
empty_entry = record {
  used = false;
  token_digest = [];
  csrf_digest = [];
  created_ms = 0;
  last_seen_ms = 0;
  expires_ms = 0;
  elevated_until_ms = 0;
  generation = 0;
}

pub record Manager : Type 0 where
  pub entries : List Entry
  pub metrics : Metrics
  pub next_generation : ℕ

abbrev pub k_capacity : ℕ
k_capacity = 6

unfoldable pub empty_entries : ℕ → List Entry
empty_entries zero = []
empty_entries (suc capacity) = empty_entry ∷ empty_entries capacity

abbrev pub no_metrics : Metrics
no_metrics = record {
  active = 0;
  peak_active = 0;
  created = 0;
  reused = 0;
  refreshed = 0;
  expired = 0;
  invalid = 0;
  revoked = 0;
  capacity_rejections = 0;
}

abbrev pub new_manager : Manager
new_manager = record {
  entries = empty_entries k_capacity;
  metrics = no_metrics;
  next_generation = 1;
}

-- Two digests are of one length, and equal where no byte differs.
abbrev pub is_entry_of : Text → Entry → Bool
is_entry_of token_digest entry = entry.used && text_eq entry.token_digest token_digest

-- The entry that the code's pointer refers to.
unfoldable pub find : Text → List Entry → Option Entry
find token_digest [] = none
find token_digest (entry ∷ entries) =
    let rest = find token_digest entries in
    if is_entry_of token_digest entry then some entry else rest

-- An assignment through that pointer.
unfoldable pub assign : Text → Entry → List Entry → List Entry
assign token_digest value [] = []
assign token_digest value (entry ∷ entries) =
    let rest = assign token_digest value entries in
    if is_entry_of token_digest entry then value ∷ entries else entry ∷ rest

abbrev pub is_over : ℕ → Entry → Bool
is_over now_ms entry = entry.used && leb entry.expires_ms now_ms

-- purge_expired, and how many entries it counts.
unfoldable pub purged : ℕ → List Entry → List Entry
purged now_ms [] = []
purged now_ms (entry ∷ entries) =
    (if is_over now_ms entry then empty_entry else entry) ∷ purged now_ms entries

unfoldable pub count_over : ℕ → List Entry → ℕ
count_over now_ms [] = 0
count_over now_ms (entry ∷ entries) =
    (if is_over now_ms entry then 1 else 0) + count_over now_ms entries

unfoldable pub purge_expired : ℕ → Manager → Manager
purge_expired now_ms m = record m {
  entries = purged now_ms m.entries;
  metrics = record m.metrics { expired = u64 (m.metrics.expired + count_over now_ms m.entries) };
}

unfoldable pub count_used : List Entry → ℕ
count_used [] = 0
count_used (entry ∷ entries) = (if entry.used then 1 else 0) + count_used entries

unfoldable pub update_peak : Manager → Manager
update_peak m =
    let active = u32 (count_used m.entries) in
    record m {
      metrics = record m.metrics {
        active = active;
        peak_active = max m.metrics.peak_active active;
      };
    }

unfoldable pub is_available : List Entry → Bool
is_available [] = false
is_available (entry ∷ entries) = not entry.used || is_available entries

-- The assignments to *available, the first entry not used.
unfoldable pub place : Entry → List Entry → List Entry
place value [] = []
place value (entry ∷ entries) =
    let rest = place value entries in if not entry.used then value ∷ entries else entry ∷ rest

-- Every entry = {}.
unfoldable pub emptied : List Entry → List Entry
emptied [] = []
emptied (entry ∷ entries) = empty_entry ∷ emptied entries
