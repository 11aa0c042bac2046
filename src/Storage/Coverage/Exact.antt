-- ===== src/Storage/Coverage/Exact.antt =====
-- src/storage/SyncCoverage.h: the loop of deriveSyncCoverage against the sequences it passes.
use power_monitor_sensor.Common.{
  ℕ, zero, suc, ◌+◌, ◌-◌, ◌^◌, ◌<◌, ◌≡◌, refl, inl, inr, max, false, not, ◌&&◌, ◌||◌, List, arith,
  leb, ltb, ◌==◌, Bool-cases,
}
use power_monitor_sensor.Storage.Coverage.{
  SyncCoveragePlan, sort_unique, contains, Cover, closed_plan, desired_end, derive_sync_coverage,
}
use power_monitor_sensor.Storage.Coverage.Limit.{IsLimit, desired_end-IsLimit}
use power_monitor_sensor.Storage.Coverage.Account.{
  in_ranges, in_ranges-snoc, contains-sort, lists, missing, Accounted,
}
use power_monitor_sensor.Storage.Coverage.Loop.{StopsAt, covered, covered-Accounted}

closed_plan_lem :
    (c : Cover) (x : ℕ)
    → (in_ranges (closed_plan c).unavailable_sequence_ranges x ≡ lists c x)
      × ((closed_plan c).end_sequence ≡ c.plan.end_sequence)
unfolding closed_plan
closed_plan_lem c x = ground (arith, in_ranges-snoc c.plan.unavailable_sequence_ranges c.current x)

-- A plan over the lists `selected` and `observed` is right at `x`.
abbrev pub CoversAt : ℕ → List ℕ → List ℕ → SyncCoveragePlan → ℕ → Type 0
CoversAt after selected observed plan x =
    (in_ranges plan.unavailable_sequence_ranges x
      ≡ (ltb after x && leb x plan.end_sequence && not (contains selected x)))
    × ((ltb after x && leb x plan.end_sequence && contains observed x && not (contains selected x))
        ≡ false)

closed-CoversAt :
    (after last : ℕ) (selected observed : List ℕ) (c : Cover) (x : ℕ)
    → after < last
    → Accounted selected observed after last c
    → CoversAt after selected observed (closed_plan c) x
closed-CoversAt after last selected observed c x above a =
    let closed = closed_plan_lem c x in
    (ground (arith, closed, a.exact x, a.ended), ground (arith, closed, a.kept x, a.ended))

derived-CoversAt :
    (after maximum_scanned : ℕ) (selected observed : List ℕ) (maximum x : ℕ)
    → maximum_scanned < 2 ^ 64
    → CoversAt after
        (sort_unique selected)
        (sort_unique observed)
        (derive_sync_coverage after maximum_scanned selected observed maximum)
        x
unfolding derive_sync_coverage
derived-CoversAt after maximum_scanned selected observed maximum x small =
    elim (Bool-cases (leb maximum_scanned after || maximum == 0 || after == 2 ^ 64 - 1)) [
      | inl refused ↦ rw refused (unfold in_ranges in ground arith)
      | inr going ↦ rw going (
          let (last, above, stop, a) =
            covered-Accounted (sort_unique selected) (sort_unique observed) after maximum_scanned
              maximum small (ground arith) in
          closed-CoversAt after last (sort_unique selected) (sort_unique observed) _ x above a)
    ]

-- For a 64-bit maximum, at every sequence number: it lies in the plan's unavailable ranges exactly if
-- it is above the cursor, at most the plan's end and not selected; and none up to the plan's end was
-- observed as syncable and not selected, so no retained record is skipped or declared lost.
pub coverage_exact :
    (after maximum_scanned : ℕ) (selected observed : List ℕ) (maximum x : ℕ)
    → maximum_scanned < 2 ^ 64
    → CoversAt after selected observed
        (derive_sync_coverage after maximum_scanned selected observed maximum)
        x
coverage_exact after maximum_scanned selected observed maximum x small =
    rw (contains-sort selected x, contains-sort observed x) at
      (derived-CoversAt after maximum_scanned selected observed maximum x small)

missing-sort :
    (selected : List ℕ) (after bound : ℕ)
    → missing (sort_unique selected) after bound ≡ missing selected after bound
unfolding missing
missing-sort selected after zero = refl
missing-sort selected after (suc last) =
    rw (missing-sort selected after last, contains-sort selected last) refl

limit_lem : (after desired : ℕ) → suc (max after desired) ≡ suc after + (desired - after)
limit_lem after desired = omega arith

-- The plan over the lists ends at the limit, or for a reason.
abbrev pub EndsFor : ℕ → ℕ → List ℕ → List ℕ → ℕ → SyncCoveragePlan → ℕ → Type 0
EndsFor after maximum_scanned selected observed maximum plan limit =
    IsLimit selected maximum_scanned limit
    × StopsAt selected observed maximum after (suc (max after limit))
        (suc (max after plan.end_sequence))

-- For a 64-bit maximum above the cursor and some room for unavailable sequences, the plan goes on to
-- a limit and not over it, unless the next sequence is not selected and either was observed as
-- syncable, or the sequences above the cursor that are not selected take all the room; of those it has
-- never more than there is room for. The limit is the maximum, where
-- nothing is selected or something at the maximum or behind it, and otherwise the greatest selected
-- sequence, in whatever order the selected ones are given.
pub coverage_maximal :
    (after maximum_scanned : ℕ) (selected observed : List ℕ) (maximum : ℕ)
    → maximum_scanned < 2 ^ 64
    → after < maximum_scanned
    → 0 < maximum
    → (limit : ℕ) × EndsFor after maximum_scanned selected observed maximum
        (derive_sync_coverage after maximum_scanned selected observed maximum)
        limit
unfolding derive_sync_coverage
coverage_maximal after maximum_scanned selected observed maximum small above room = (
  desired_end (sort_unique selected) maximum_scanned,
  (
    desired_end-IsLimit selected maximum_scanned,
    elim (Bool-cases (leb maximum_scanned after || maximum == 0 || after == 2 ^ 64 - 1)) [
      | inl refused ↦ absurd (ground arith)
      | inr going ↦ rw going (
          ended (
            covered-Accounted (sort_unique selected) (sort_unique observed) after maximum_scanned
              maximum small above))
    ],
  ),
)
  where
    ended :
        (last : ℕ) × (after < last)
          × StopsAt
              (sort_unique selected)
              (sort_unique observed)
              maximum
              after
              (suc after + (desired_end (sort_unique selected) maximum_scanned - after))
              last
          × Accounted
              (sort_unique selected)
              (sort_unique observed)
              after
              last
              (covered (sort_unique selected) (sort_unique observed) after maximum_scanned maximum)
        → StopsAt selected observed maximum after
            (suc (max after (desired_end (sort_unique selected) maximum_scanned)))
            (suc (
              max after
                (closed_plan (
                  covered
                    (sort_unique selected)
                    (sort_unique observed)
                    after
                    maximum_scanned
                    maximum)).end_sequence))
    ended (last, later, stop, a) =
        let c =
          covered (sort_unique selected) (sort_unique observed) after maximum_scanned maximum in
        let here : suc (max after (closed_plan c).end_sequence) ≡ last =
          omega (arith, closed_plan_lem c 0, a.ended) in
        let limit = limit_lem after (desired_end (sort_unique selected) maximum_scanned) in
        rw (here, limit)
          (rw
            (
              contains-sort selected last,
              contains-sort observed last,
              missing-sort selected after last,
            )
            at stop)
