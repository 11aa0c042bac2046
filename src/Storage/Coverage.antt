-- ===== src/Storage/Coverage.antt =====
-- src/storage/SyncCoverage.h: the contiguous range of sequences that a page of readings covers.
pub mod Limit
pub mod Account
pub mod Loop
pub mod Exact
use power_monitor_sensor.Common.{
  ℕ, zero, suc, ◌+◌, ◌-◌, ◌%◌, ◌^◌, min, Bool, true, false, not, ◌&&◌, ◌||◌, List, [], ◌∷◌, ◌++◌,
  leb, ltb, ◌==◌, is_empty, u64, if◌then◌else◌,
}

pub record SequenceRange : Type 0 where
  pub start_sequence : ℕ
  pub end_sequence : ℕ

pub record SyncCoveragePlan : Type 0 where
  pub end_sequence : ℕ
  pub unavailable_sequence_ranges : List SequenceRange

abbrev pub empty_coverage : SyncCoveragePlan
empty_coverage = record { end_sequence = 0; unavailable_sequence_ranges = [] }

-- std::sort and std::unique: insertion into a sorted list without repeats.
unfoldable pub insert_unique : ℕ → List ℕ → List ℕ
insert_unique x [] = x ∷ []
insert_unique x (y ∷ ys) =
    if ltb y x then y ∷ insert_unique x ys else (if x == y then y ∷ ys else x ∷ y ∷ ys)

unfoldable pub sort_unique : List ℕ → List ℕ
sort_unique [] = []
sort_unique (x ∷ xs) = insert_unique x (sort_unique xs)

-- std::binary_search on a sorted list: membership.
unfoldable pub contains : List ℕ → ℕ → Bool
contains [] sequence = false
contains (first ∷ others) sequence = sequence == first || contains others sequence

abbrev pub last_of : List ℕ → ℕ
last_of [] = 0
last_of (x ∷ []) = x
last_of (x ∷ y ∷ ys) = last_of (y ∷ ys)

-- The variables of the loop.
pub record Cover : Type 0 where
  pub plan : SyncCoveragePlan
  pub unavailable_count : ℕ
  pub current : SequenceRange
  pub range_open : Bool

abbrev pub push_range : SyncCoveragePlan → SequenceRange → SyncCoveragePlan
push_range plan range = record plan {
  unavailable_sequence_ranges = plan.unavailable_sequence_ranges ++ range ∷ [];
}

-- One unavailable sequence more.
unfoldable pub add_unavailable : ℕ → Cover → Cover
add_unavailable sequence c =
    let counted = record c { unavailable_count = c.unavailable_count + 1 } in
    if not c.range_open
    then record counted {
      current = record { start_sequence = sequence; end_sequence = sequence };
      range_open = true;
    }
    else (if sequence == u64 (c.current.end_sequence + 1)
        then record counted { current = record c.current { end_sequence = sequence } }
        else record counted {
          plan = push_range c.plan c.current;
          current = record { start_sequence = sequence; end_sequence = sequence };
        })

unfoldable pub add_selected : Cover → Cover
add_selected c =
    if c.range_open then record c { plan = push_range c.plan c.current; range_open = false } else c

abbrev pub ended_at : ℕ → Cover → Cover
ended_at sequence c = record c { plan = record c.plan { end_sequence = sequence } }

-- The loop, `rounds` being what is left of it; both early exits return the variables as they are.
unfoldable pub cover_from : List ℕ → List ℕ → ℕ → ℕ → ℕ → Cover → Cover
cover_from selected observed maximum zero sequence c = c
cover_from selected observed maximum (suc rounds) sequence c =
    let skip =
      cover_from selected observed maximum rounds (suc sequence)
        (ended_at sequence (add_unavailable sequence c)) in
    let take =
      cover_from selected observed maximum rounds (suc sequence)
        (ended_at sequence (add_selected c)) in
    if contains observed sequence && not (contains selected sequence)
    then c
    else (if not (contains selected sequence)
        then (if leb maximum c.unavailable_count then c else skip)
        else take)

unfoldable pub closed_plan : Cover → SyncCoveragePlan
closed_plan c = if c.range_open then push_range c.plan c.current else c.plan

-- `selected` is sorted.
abbrev pub desired_end : List ℕ → ℕ → ℕ
desired_end selected maximum_scanned =
    if is_empty selected then maximum_scanned else min maximum_scanned (last_of selected)

unfoldable pub derive_sync_coverage : ℕ → ℕ → List ℕ → List ℕ → ℕ → SyncCoveragePlan
derive_sync_coverage after_sequence maximum_scanned selected_syncable observed_syncable maximum =
    let selected = sort_unique selected_syncable in
    let observed = sort_unique observed_syncable in
    let covered =
      cover_from selected observed maximum (desired_end selected maximum_scanned - after_sequence)
        (suc after_sequence)
        (record {
          plan = empty_coverage;
          unavailable_count = 0;
          current = record { start_sequence = 0; end_sequence = 0 };
          range_open = false;
        }) in
    if leb maximum_scanned after_sequence || maximum == 0 || after_sequence == 2 ^ 64 - 1
    then empty_coverage
    else closed_plan covered
