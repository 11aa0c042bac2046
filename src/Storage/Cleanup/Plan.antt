-- ===== src/Storage/Cleanup/Plan.antt =====
-- src/storage/StoragePolicy.cpp, buildCleanupPlan: what stands in the list of candidates.
use power_monitor_sensor.Common.{
  ℕ, suc, ◌≡◌, refl, inl, inr, Bool, true, not, ◌&&◌, Option, none, some, List, [], ◌∷◌, ◌++◌,
  arith, ap, ◌∙◌, sym, leb, ◌==◌, get_elem?, length, All, All-append, Bool-cases,
}
use mathlib.Core.List.{append_assoc}
use power_monitor_sensor.Storage.Segments.{
  SegmentMetadata, segment_bytes, SegmentEligibility, eligible_age, eligible_emergency,
  RetentionContext, segment_eligibility,
}
use power_monitor_sensor.Storage.Segments.Removal.{is_eligible, IsRemovable, eligible-IsRemovable}
use power_monitor_sensor.Storage.Cleanup.{
  CleanupPlan, empty_plan, count_segment, push_eligible, scan, insert_sorted, sort, choose,
  needed_bytes, build_cleanup_plan, index_before,
}

-- Index `i` is that of a removable segment.
abbrev pub Removes : RetentionContext → Option SegmentMetadata → Type 0
Removes context none = ⊥
Removes context (some segment) = IsRemovable segment context

get_elem?-middle {ℓ} :
    {A : Type ℓ} (xs : List A) (y : A) (ys : List A) → get_elem? (xs ++ y ∷ ys) (length xs) ≡ some y
get_elem?-middle [] y ys = refl
get_elem?-middle (x ∷ xs) y ys = get_elem?-middle xs y ys

length-snoc {ℓ} : {A : Type ℓ} (xs : List A) (y : A) → length (xs ++ y ∷ []) ≡ suc (length xs)
length-snoc [] y = refl
length-snoc (x ∷ xs) y = ap suc (length-snoc xs y)

pub scan_candidates :
    (context : RetentionContext) (index : ℕ) (segments : List SegmentMetadata) (plan : CleanupPlan)
    (eligible : List ℕ)
    → ((scan context index segments plan eligible).0.candidate_indexes ≡ plan.candidate_indexes)
      × ((scan context index segments plan eligible).0.expected_reclaimed_bytes
          ≡ plan.expected_reclaimed_bytes)
unfolding scan
scan_candidates context index [] plan eligible = (refl, refl)
scan_candidates context index (segment ∷ segments) plan eligible = ground (
  arith,
  counted (segment_eligibility segment context) (segment_bytes segment) plan,
  scan_candidates context (suc index) segments
      (count_segment (segment_eligibility segment context) (segment_bytes segment) plan)
      (push_eligible (segment_eligibility segment context) index eligible),
)
  where
    counted :
        (e : SegmentEligibility) (bytes : ℕ) (plan : CleanupPlan)
        → ((count_segment e bytes plan).candidate_indexes ≡ plan.candidate_indexes)
          × ((count_segment e bytes plan).expected_reclaimed_bytes ≡ plan.expected_reclaimed_bytes)
    counted e bytes plan = unfold count_segment in ground arith

module _ (all : List SegmentMetadata) (context : RetentionContext) where
  abbrev Good : ℕ → Type 0
  Good i = Removes context (get_elem? all i)

  push-Good :
      (e : SegmentEligibility) (index : ℕ) (eligible : List ℕ)
      → (is_eligible e ≡ true → Good index)
      → All Good eligible
      → All Good (push_eligible e index eligible)
  unfolding push_eligible
  push-Good eligible_age index eligible h good =
      All-append Good eligible (index ∷ []) good (h refl, tt)
  push-Good eligible_emergency index eligible h good =
      All-append Good eligible (index ∷ []) good (h refl, tt)
  push-Good _ index eligible h good = good

  -- The loop over a suffix of the segments, `index` being the length of what stands before it.
  scan-Good :
      (before segments : List SegmentMetadata) (index : ℕ) (plan : CleanupPlan) (eligible : List ℕ)
      → all ≡ before ++ segments
      → length before ≡ index
      → All Good eligible
      → All Good (scan context index segments plan eligible).1
  unfolding scan
  scan-Good before [] index plan eligible e len good = good
  scan-Good before (segment ∷ segments) index plan eligible e len good =
      scan-Good (before ++ segment ∷ []) segments (suc index) _ _
        (e ∙ sym (append_assoc before (segment ∷ []) segments))
        (length-snoc before segment ∙ ap suc len)
        (push-Good (segment_eligibility segment context) index eligible
          (λ h. rw at (eligible-IsRemovable segment context h)) good)
    where
      at : get_elem? all index ≡ some segment
      at = rw (e, ← len) (get_elem?-middle before segment segments)

  insert-Good :
      (lt : ℕ → ℕ → Bool) (x : ℕ) (ys : List ℕ)
      → Good x
      → All Good ys
      → All Good (insert_sorted lt x ys)
  unfolding insert_sorted
  insert-Good lt x [] g h = (g, tt)
  insert-Good lt x (y ∷ ys) g h = elim (Bool-cases (lt y x)) [
    | inl e ↦ rw e (h.0, insert-Good lt x ys g h.1)
    | inr e ↦ rw e (g, h)
  ]

  sort-Good : (lt : ℕ → ℕ → Bool) (xs : List ℕ) → All Good xs → All Good (sort lt xs)
  unfolding sort
  sort-Good lt [] h = tt
  sort-Good lt (x ∷ xs) h = insert-Good lt x (sort lt xs) h.0 (sort-Good lt xs h.1)

  choose-Good :
      (needed : ℕ) (indexes : List ℕ) (plan : CleanupPlan)
      → All Good plan.candidate_indexes
      → All Good indexes
      → All Good (choose all needed indexes plan).candidate_indexes
  unfolding choose
  choose-Good needed [] plan h k = h
  choose-Good needed (index ∷ indexes) plan h k =
      elim (Bool-cases (not (needed == 0) && leb needed plan.expected_reclaimed_bytes)) [
        | inl e ↦ rw e h
        | inr e ↦ rw e (
            choose-Good needed indexes _
              (All-append Good plan.candidate_indexes (index ∷ []) h (k.0, tt)) k.1)
      ]

-- Every index that a plan removes is that of a removable segment of the list, whatever the pressure
-- and the target.
pub candidates_removable :
    (segments : List SegmentMetadata) (context : RetentionContext) (free target : ℕ)
    → All
        (λ i. Removes context (get_elem? segments i))
        (build_cleanup_plan segments context free target).candidate_indexes
unfolding build_cleanup_plan
candidates_removable segments context free target =
    elim (Bool-cases (not (target == 0) && needed == 0)) [
      | inl e ↦ rw (e, none_yet) tt
      | inr e ↦ rw e (
          choose-Good segments context needed (sort (index_before segments) scanned.1) scanned.0
            (rw none_yet tt)
            (sort-Good segments context (index_before segments) scanned.1
              (scan-Good segments context [] segments 0 empty_plan [] refl refl tt)))
    ]
  where
    needed : ℕ
    needed = needed_bytes free target

    scanned : CleanupPlan × List ℕ
    scanned = scan context 0 segments empty_plan []

    none_yet : scanned.0.candidate_indexes ≡ []
    none_yet = (scan_candidates context 0 segments empty_plan []).0
