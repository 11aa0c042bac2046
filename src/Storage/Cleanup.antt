-- ===== src/Storage/Cleanup.antt =====
-- src/storage/StoragePolicy.cpp, buildCleanupPlan: which segments a cleanup removes, oldest first.
pub mod Order
pub mod Plan
pub mod Target
use power_monitor_sensor.Common.{
  ℕ, suc, ◌+◌, ◌-◌, ◌%◌, ◌^◌, Bool, true, false, not, ◌&&◌, ◌||◌, Option, none, some, List, [], ◌∷◌,
  ◌++◌, leb, ltb, ◌==◌, u64, get_elem?, if◌then◌else◌,
}
use power_monitor_sensor.Common.Texts.{Text}
use power_monitor_sensor.Storage.Segments.{
  SegmentMetadata, segment_bytes, SegmentEligibility, eligible_age, eligible_emergency,
  unacknowledged, time_untrusted, RetentionContext, segment_eligibility,
}

pub record CleanupPlan : Type 0 where
  pub candidate_indexes : List ℕ
  pub eligible_bytes : ℕ
  pub protected_unacknowledged_bytes : ℕ
  pub protected_untrusted_bytes : ℕ
  pub expected_reclaimed_bytes : ℕ

abbrev pub empty_plan : CleanupPlan
empty_plan = record {
  candidate_indexes = [];
  eligible_bytes = 0;
  protected_unacknowledged_bytes = 0;
  protected_untrusted_bytes = 0;
  expected_reclaimed_bytes = 0;
}

-- The body of the first loop, and the loop, with the vector of eligible indexes.
unfoldable pub count_segment : SegmentEligibility → ℕ → CleanupPlan → CleanupPlan
count_segment eligible_age bytes plan = record plan {
  eligible_bytes = u64 (plan.eligible_bytes + bytes);
}
count_segment eligible_emergency bytes plan = record plan {
  eligible_bytes = u64 (plan.eligible_bytes + bytes);
}
count_segment unacknowledged bytes plan = record plan {
  protected_unacknowledged_bytes = u64 (plan.protected_unacknowledged_bytes + bytes);
}
count_segment time_untrusted bytes plan = record plan {
  protected_untrusted_bytes = u64 (plan.protected_untrusted_bytes + bytes);
}
count_segment _ bytes plan = plan

unfoldable pub push_eligible : SegmentEligibility → ℕ → List ℕ → List ℕ
push_eligible eligible_age index eligible = eligible ++ index ∷ []
push_eligible eligible_emergency index eligible = eligible ++ index ∷ []
push_eligible _ index eligible = eligible

unfoldable pub scan :
    RetentionContext → ℕ → List SegmentMetadata → CleanupPlan → List ℕ → CleanupPlan × List ℕ
scan context index [] plan eligible = (plan, eligible)
scan context index (segment ∷ segments) plan eligible =
    let eligibility = segment_eligibility segment context in
    scan context (suc index) segments (count_segment eligibility (segment_bytes segment) plan)
      (push_eligible eligibility index eligible)

-- < of std::string.
unfoldable pub text_lt : Text → Text → Bool
text_lt [] [] = false
text_lt [] (y ∷ ys) = true
text_lt (x ∷ xs) [] = false
text_lt (x ∷ xs) (y ∷ ys) = ltb x y || (x == y && text_lt xs ys)

abbrev pub segment_before : SegmentMetadata → SegmentMetadata → Bool
segment_before a b =
    if not (a.first_sequence == b.first_sequence)
    then ltb a.first_sequence b.first_sequence
    else text_lt a.record_path b.record_path

-- The comparison of two indexes. The code indexes within the vector only.
abbrev pub before_in : Option SegmentMetadata → Option SegmentMetadata → Bool
before_in (some a) (some b) = segment_before a b
before_in _ _ = false

unfoldable pub index_before : List SegmentMetadata → ℕ → ℕ → Bool
index_before segments left right = before_in (get_elem? segments left) (get_elem? segments right)

-- std::sort, as an insertion sort; equal elements keep their order here, which it leaves open.
unfoldable pub insert_sorted : (ℕ → ℕ → Bool) → ℕ → List ℕ → List ℕ
insert_sorted lt x [] = x ∷ []
insert_sorted lt x (y ∷ ys) = if lt y x then y ∷ insert_sorted lt x ys else x ∷ y ∷ ys

unfoldable pub sort : (ℕ → ℕ → Bool) → List ℕ → List ℕ
unfolding insert_sorted
sort lt [] = []
sort lt (x ∷ xs) = insert_sorted lt x (sort lt xs)

abbrev pub bytes_of : Option SegmentMetadata → ℕ
bytes_of none = 0
bytes_of (some segment) = segment_bytes segment

-- The body of the last loop, and the loop with its break.
abbrev pub add_candidate : List SegmentMetadata → ℕ → CleanupPlan → CleanupPlan
add_candidate segments index plan = record plan {
  candidate_indexes = plan.candidate_indexes ++ index ∷ [];
  expected_reclaimed_bytes =
      u64 (plan.expected_reclaimed_bytes + bytes_of (get_elem? segments index));
}

unfoldable pub choose : List SegmentMetadata → ℕ → List ℕ → CleanupPlan → CleanupPlan
choose segments needed [] plan = plan
choose segments needed (index ∷ indexes) plan =
    let rest = choose segments needed indexes (add_candidate segments index plan) in
    if not (needed == 0) && leb needed plan.expected_reclaimed_bytes then plan else rest

unfoldable pub needed_bytes : ℕ → ℕ → ℕ
needed_bytes free_bytes target_free_bytes =
    if ltb free_bytes target_free_bytes then target_free_bytes - free_bytes else 0

unfoldable pub build_cleanup_plan : List SegmentMetadata → RetentionContext → ℕ → ℕ → CleanupPlan
build_cleanup_plan segments context free_bytes target_free_bytes =
    let (plan, eligible) = scan context 0 segments empty_plan [] in
    let needed = needed_bytes free_bytes target_free_bytes in
    let chosen = choose segments needed (sort (index_before segments) eligible) plan in
    if not (target_free_bytes == 0) && needed == 0 then plan else chosen
