-- ===== src/Storage/Cleanup/Target.antt =====
-- src/storage/StoragePolicy.cpp, buildCleanupPlan: how much of the eligible segments a plan takes.
use power_monitor_sensor.Common.{
  ℕ, ◌+◌, ◌-◌, ◌≤◌, ◌<◌, ◌≡◌, refl, ◌⊎◌, inl, inr, false, not, ◌&&◌, List, [], ◌∷◌, ◌++◌, arith, ap,
  ◌∙◌, sym, leb, ◌==◌, u64, get_elem?, Bool-cases,
}
use mathlib.Core.List.{append-nil, append_assoc}
use power_monitor_sensor.Storage.Segments.{SegmentMetadata, RetentionContext}
use power_monitor_sensor.Storage.Cleanup.{
  CleanupPlan, empty_plan, scan, sort, index_before, bytes_of, add_candidate, choose, needed_bytes,
  build_cleanup_plan,
}
use power_monitor_sensor.Storage.Cleanup.Order.{IsRemovalOrder, sorted-IsRemovalOrder}
use power_monitor_sensor.Storage.Cleanup.Plan.{scan_candidates}

module _ (segments : List SegmentMetadata) where
  -- The bytes that the removal of the indexes adds, as a 64-bit sum.
  abbrev pub reclaimed : ℕ → List ℕ → ℕ
  reclaimed sum [] = sum
  reclaimed sum (index ∷ indexes) =
      reclaimed (u64 (sum + bytes_of (get_elem? segments index))) indexes

  -- Each index is taken while the bytes of those before it are fewer than what is missing.
  abbrev pub IsShort : ℕ → ℕ → List ℕ → Type 0
  IsShort missing sum [] = Unit
  IsShort missing sum (index ∷ indexes) =
      (sum < missing) × IsShort missing (u64 (sum + bytes_of (get_elem? segments index))) indexes

  -- What the last loop does to a plan: it takes the front of the indexes.
  record TakesFront (needed : ℕ) (indexes : List ℕ) (plan its : CleanupPlan) : Type 0 where
    pub taken : List ℕ
    pub rest : List ℕ
    pub front : taken ++ rest ≡ indexes
    pub candidates : its.candidate_indexes ≡ plan.candidate_indexes ++ taken
    pub bytes : its.expected_reclaimed_bytes ≡ reclaimed plan.expected_reclaimed_bytes taken
    pub while_short : 0 < needed → IsShort needed plan.expected_reclaimed_bytes taken
    pub ends : (rest ≡ []) ⊎ ((0 < needed) × (needed ≤ its.expected_reclaimed_bytes))

  one_more :
      (needed index : ℕ) (indexes : List ℕ) (plan its : CleanupPlan)
      → (0 < needed → plan.expected_reclaimed_bytes < needed)
      → TakesFront needed indexes (add_candidate segments index plan) its
      → TakesFront needed (index ∷ indexes) plan its
  one_more needed index indexes plan its short c = record {
    taken = index ∷ c.taken;
    rest = c.rest;
    front = ap (◌∷◌ index) c.front;
    candidates = c.candidates ∙ append_assoc plan.candidate_indexes (index ∷ []) c.taken;
    bytes = c.bytes;
    while_short = λ h. (short h, c.while_short h);
    ends = c.ends;
  }

  choose-TakesFront :
      (needed : ℕ) (indexes : List ℕ) (plan : CleanupPlan)
      → TakesFront needed indexes plan (choose segments needed indexes plan)
  unfolding choose
  choose-TakesFront needed [] plan = record {
    taken = [];
    rest = [];
    front = refl;
    candidates = sym (append-nil plan.candidate_indexes);
    bytes = refl;
    while_short = λ h. tt;
    ends = inl refl;
  }
  choose-TakesFront needed (index ∷ indexes) plan =
      elim (Bool-cases (not (needed == 0) && leb needed plan.expected_reclaimed_bytes)) [
        | inl enough ↦ rw enough (record {
          taken = [];
          rest = index ∷ indexes;
          front = refl;
          candidates = sym (append-nil plan.candidate_indexes);
          bytes = refl;
          while_short = λ h. tt;
          ends = inr (ground arith);
        })
        | inr short ↦ rw short (
            one_more needed index indexes plan
              (choose segments needed indexes (add_candidate segments index plan))
              (λ h. ground arith)
              (choose-TakesFront needed indexes (add_candidate segments index plan)))
      ]

-- How a plan for a target follows from the order of removal, of which it leaves `rest`.
abbrev pub Reaches :
    List SegmentMetadata → (free target : ℕ) → CleanupPlan → (rest : List ℕ) → Type 0
Reaches segments free target plan rest =
    ((target ≡ 0) × (rest ≡ []))
    ⊎ ((0 < target) × (target ≤ free) × (plan.candidate_indexes ≡ []))
    ⊎ ((free < target)
        × IsShort segments (target - free) 0 plan.candidate_indexes
        × ((rest ≡ []) ⊎ (target ≤ free + plan.expected_reclaimed_bytes)))

pub record IsOldestNeeded (segments : List SegmentMetadata) (context : RetentionContext)
    (free target : ℕ) (plan : CleanupPlan) : Type 0 where
  pub order : List ℕ
  pub rest : List ℕ
  pub ordered : IsRemovalOrder segments context order
  pub front : plan.candidate_indexes ++ rest ≡ order
  pub bytes : plan.expected_reclaimed_bytes ≡ reclaimed segments 0 plan.candidate_indexes
  pub reaches : Reaches segments free target plan rest

module _ (segments : List SegmentMetadata) (context : RetentionContext) (free target : ℕ)
    (start : CleanupPlan) (order : List ℕ) (ordered : IsRemovalOrder segments context order)
    (fresh : (start.candidate_indexes ≡ []) × (start.expected_reclaimed_bytes ≡ 0)) where
  nothing-IsOldestNeeded :
      0 < target → target ≤ free → IsOldestNeeded segments context free target start
  nothing-IsOldestNeeded some_target enough = record {
    order = order;
    rest = order;
    ordered = ordered;
    front = rw fresh.0 refl;
    bytes = rw (fresh.0, fresh.1) refl;
    reaches = inr (inl (some_target, enough, fresh.0));
  }

  loop-IsOldestNeeded :
      (its : CleanupPlan)
      → (target ≡ 0) ⊎ (free < target)
      → TakesFront segments (needed_bytes free target) order start its
      → IsOldestNeeded segments context free target its
  unfolding needed_bytes
  loop-IsOldestNeeded its which c =
      let candidates : its.candidate_indexes ≡ c.taken = rw fresh.0 at c.candidates in
      record {
        order = order;
        rest = c.rest;
        ordered = ordered;
        front = rw candidates c.front;
        bytes = rw (fresh.1, ← candidates) at c.bytes;
        reaches = elim which [
          | inl all ↦
              let nothing : needed_bytes free target ≡ 0 = ground arith in
              elim c.ends [
                | inl whole ↦ inl (all, whole)
                | inr (needed, enough) ↦ absurd (omega arith)
              ]
          | inr more ↦
              let missing : needed_bytes free target ≡ target - free = ground arith in
              let short = c.while_short (omega arith) in
              let ends : (c.rest ≡ []) ⊎ (target ≤ free + its.expected_reclaimed_bytes) =
                elim c.ends [ inl whole ↦ inl whole | inr (needed, enough) ↦ inr (omega arith) ] in
              inr (inr (more, rw (missing, fresh.1, ← candidates) at short, ends))
        ];
      }

-- Whatever the target, a plan takes the front of an order of removal, in which each eligible segment
-- stands once and no other, the oldest first: by the first sequence, and then by the path. Without a
-- target it takes all of them, and with the target free already none. Otherwise each one is taken
-- while those before it reclaim fewer bytes than are missing, and either all are taken or the target
-- is reached. The bytes that it expects to reclaim are those of what it takes, as a 64-bit sum.
pub plan_meets_target :
    (segments : List SegmentMetadata) (context : RetentionContext) (free target : ℕ)
    → IsOldestNeeded segments context free target (build_cleanup_plan segments context free target)
unfolding build_cleanup_plan needed_bytes
plan_meets_target segments context free target =
    let start = (scan context 0 segments empty_plan []).0 in
    let order = sort (index_before segments) (scan context 0 segments empty_plan []).1 in
    let ordered = sorted-IsRemovalOrder segments context empty_plan in
    let fresh = scan_candidates context 0 segments empty_plan [] in
    elim (Bool-cases (not (target == 0) && needed_bytes free target == 0)) [
      | inl done ↦ rw done (
          nothing-IsOldestNeeded segments context free target start order ordered fresh
            (ground arith) (ground arith))
      | inr going ↦ rw going (
          loop-IsOldestNeeded segments context free target start order ordered fresh
            (choose segments (needed_bytes free target) order start) (some_target going)
            (choose-TakesFront segments (needed_bytes free target) order start))
    ]
  where
    some_target :
        (not (target == 0) && needed_bytes free target == 0) ≡ false
        → (target ≡ 0) ⊎ (free < target)
    some_target going = ground arith
