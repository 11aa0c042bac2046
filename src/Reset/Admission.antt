-- ===== src/Reset/Admission.antt =====
-- src/reset/DataResetPolicy.cpp: the admission owner and the reading-sync leases, shared by tasks.
-- Each function is one atomic access of the shared words, or a step of a task between two of them.
pub mod Safety
mod Examples
use power_monitor_sensor.Common.{
  ℕ, zero, suc, ◌+◌, ◌-◌, ◌≡◌, Bool, true, false, not, ◌&&◌, ◌||◌, List, [], ◌∷◌, ◌++◌, ◌==◌, u32,
  ◌%◌, ◌^◌, if◌then◌else◌,
}

pub data AdmissionOwner : Type 0 where
  idle reset disruptive_operation : AdmissionOwner

abbrev pub owner_value : AdmissionOwner → ℕ
owner_value idle = 0
owner_value reset = 1
owner_value disruptive_operation = 2

abbrev pub is_owner : AdmissionOwner → AdmissionOwner → Bool
is_owner a b = owner_value a == owner_value b

-- g_admission_owner and g_reading_sync_in_flight.
pub record Shared : Type 0 where
  pub owner : AdmissionOwner
  pub in_flight : ℕ

-- The result, and `newly_acquired`.
unfoldable pub claim_reset_admission : Shared → Shared × Bool × Bool
claim_reset_admission s =
    if is_owner s.owner idle
    then (record s { owner = reset }, true, true)
    else (s, is_owner s.owner reset, false)

unfoldable pub release_reset_admission : Shared → Shared
release_reset_admission s = if is_owner s.owner reset then record s { owner = idle } else s

unfoldable pub reset_admission_active : Shared → Bool
reset_admission_active s = is_owner s.owner reset

unfoldable pub claim_disruptive_admission : Shared → Shared × Bool
claim_disruptive_admission s =
    if is_owner s.owner idle then (record s { owner = disruptive_operation }, true) else (s, false)

unfoldable pub release_disruptive_admission : Shared → Shared
release_disruptive_admission s =
    if is_owner s.owner disruptive_operation then record s { owner = idle } else s

-- Where a task stands in `tryBeginReadingSync` and `finishReadingSync`: it has not begun, passed the
-- first test, counted itself, holds the lease, is about to load the counter, or has loaded it.
pub data Reader : Type 0 where
  away checked counted holding leaving : Reader
  loaded : ℕ → Reader

-- One step of a task; `spurious` lets compare_exchange_weak fail for no reason. From `holding` the
-- task calls `finishReadingSync`.
unfoldable pub reader_step : Bool → Shared → Reader → Shared × Reader
reader_step spurious s away = (s, if reset_admission_active s then away else checked)
reader_step spurious s checked = (record s { in_flight = u32 (s.in_flight + 1) }, counted)
reader_step spurious s counted = (s, if reset_admission_active s then leaving else holding)
reader_step spurious s holding = (s, leaving)
reader_step spurious s leaving = (s, loaded s.in_flight)
reader_step spurious s (loaded current) =
    if current == 0
    then (s, away)
    else (if not spurious && s.in_flight == current
        then (record s { in_flight = current - 1 }, away)
        else (s, loaded s.in_flight))

-- `attested`: the reset, owning admission, has seen no reading sync in flight.
pub record System : Type 0 where
  pub shared : Shared
  pub readers : List Reader
  pub attested : Bool

-- The interleavings of the reading tasks with the task that runs the reset.
pub data Step : System → System → Type 0 where
  read :
      (spurious : Bool) (s : System) (before : List Reader) (task : Reader) (after : List Reader)
      → s.readers ≡ before ++ task ∷ after
      → Step s (record s {
        shared = (reader_step spurious s.shared task).0;
        readers = before ++ (reader_step spurious s.shared task).1 ∷ after;
      })
  claim : (s : System) → Step s (record s { shared = (claim_reset_admission s.shared).0 })
  attest :
      (s : System)
      → reset_admission_active s.shared ≡ true
      → s.shared.in_flight ≡ 0
      → Step s (record s { attested = true })
  release :
      (s : System)
      → Step s (record s { shared = release_reset_admission s.shared; attested = false })
  disrupt : (s : System) → Step s (record s { shared = (claim_disruptive_admission s.shared).0 })
  restore : (s : System) → Step s (record s { shared = release_disruptive_admission s.shared })

abbrev pub away_readers : ℕ → List Reader
away_readers zero = []
away_readers (suc n) = away ∷ away_readers n

abbrev pub boot : ℕ → System
boot n = record {
  shared = record { owner = idle; in_flight = 0 };
  readers = away_readers n;
  attested = false;
}

-- The states that `n` reading tasks can reach.
pub data Reach (n : ℕ) : System → Type 0 where
  start : Reach n (boot n)
  later : {s t : System} → Reach n s → Step s t → Reach n t
