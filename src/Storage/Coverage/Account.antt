-- ===== src/Storage/Coverage/Account.antt =====
-- src/storage/SyncCoverage.h: what the loop of deriveSyncCoverage has accounted for at each round.
use power_monitor_sensor.Common.{
  ℕ, zero, suc, ◌+◌, ◌^◌, ◌≤◌, ◌<◌, ◌≡◌, refl, ◌⊎◌, inl, Bool, true, false, not, ◌&&◌, ◌||◌, List,
  [], ◌∷◌, ◌++◌, arith, leb, ltb, ◌==◌, ◌∙◌, sym, if◌then◌else◌,
}
use mathlib.Core.Bool.{false≢true}
use native.Mathlib.Decide.{dec_lt}
use power_monitor_sensor.Storage.Coverage.{
  SequenceRange, insert_unique, sort_unique, contains, Cover, add_unavailable, add_selected,
  ended_at,
}

abbrev pub within : SequenceRange → ℕ → Bool
within r x = leb r.start_sequence x && leb x r.end_sequence

-- `x` lies in one of the ranges.
unfoldable pub in_ranges : List SequenceRange → ℕ → Bool
in_ranges [] x = false
in_ranges (r ∷ rs) x = within r x || in_ranges rs x

pub in_ranges-snoc :
    (rs : List SequenceRange) (r : SequenceRange) (x : ℕ)
    → in_ranges (rs ++ r ∷ []) x ≡ (in_ranges rs x || within r x)
unfolding in_ranges
in_ranges-snoc [] r x = ground arith
in_ranges-snoc (s ∷ rs) r x = ground (arith, in_ranges-snoc rs r x)

contains-insert :
    (y : ℕ) (ys : List ℕ) (x : ℕ) → contains (insert_unique y ys) x ≡ (x == y || contains ys x)
unfolding insert_unique contains
contains-insert y [] x = refl
contains-insert y (z ∷ ys) x = ground (arith, contains-insert y ys x)

pub contains-sort : (xs : List ℕ) (x : ℕ) → contains (sort_unique xs) x ≡ contains xs x
unfolding sort_unique contains
contains-sort [] x = refl
contains-sort (y ∷ xs) x = ground (arith, contains-insert y (sort_unique xs) x, contains-sort xs x)

-- What the variables say is unavailable: the ranges pushed, and the open one.
abbrev pub lists : Cover → ℕ → Bool
lists c x = in_ranges c.plan.unavailable_sequence_ranges x || (c.range_open && within c.current x)

-- How many sequences above `after` and below the bound are not selected.
unfoldable pub missing : List ℕ → ℕ → ℕ → ℕ
missing selected after zero = 0
missing selected after (suc last) =
    missing selected after last + (if ltb after last && not (contains selected last) then 1 else 0)

pub missing_none :
    (selected : List ℕ) (after bound : ℕ) → bound ≤ suc after → missing selected after bound ≡ 0
unfolding missing
missing_none selected after zero h = refl
missing_none selected after (suc last) h =
    ground (arith, missing_none selected after last (omega arith))

-- Before the round for `sequence`, all between `after` and it is accounted for.
pub record Accounted (selected observed : List ℕ) (after sequence : ℕ) (c : Cover) : Type 0 where
  pub exact : (x : ℕ) → lists c x ≡ (ltb after x && ltb x sequence && not (contains selected x))
  pub kept :
      (x : ℕ) → after < x → x < sequence → contains observed x ≡ true → contains selected x ≡ true
  pub open_end :
      c.range_open ≡ true
      → (c.current.start_sequence ≤ c.current.end_sequence)
        × (c.current.end_sequence + 1 ≡ sequence)
  pub counted : c.unavailable_count ≡ missing selected after sequence
  pub ended :
      (c.plan.end_sequence + 1 ≡ sequence) ⊎ ((sequence ≡ after + 1) × (c.plan.end_sequence ≡ 0))

skip-exact :
    (selected : List ℕ) (after sequence : ℕ) (c : Cover) (x : ℕ)
    → sequence < 2 ^ 64
    → after < sequence
    → contains selected sequence ≡ false
    → (c.range_open ≡ true
        → (c.current.start_sequence ≤ c.current.end_sequence)
          × (c.current.end_sequence + 1 ≡ sequence))
    → lists c x ≡ (ltb after x && ltb x sequence && not (contains selected x))
    → lists (ended_at sequence (add_unavailable sequence c)) x
      ≡ (ltb after x && ltb x (suc sequence) && not (contains selected x))
unfolding add_unavailable
skip-exact selected after sequence c x small above free open_end h =
    let here : x ≡ sequence → contains selected x ≡ false = λ e. rw e free in
    ground (arith, here, in_ranges-snoc c.plan.unavailable_sequence_ranges c.current x)

take-exact :
    (selected : List ℕ) (after sequence : ℕ) (c : Cover) (x : ℕ)
    → after < sequence
    → contains selected sequence ≡ true
    → lists c x ≡ (ltb after x && ltb x sequence && not (contains selected x))
    → lists (ended_at sequence (add_selected c)) x
      ≡ (ltb after x && ltb x (suc sequence) && not (contains selected x))
unfolding add_selected
take-exact selected after sequence c x above used h =
    let here : x ≡ sequence → contains selected x ≡ true = λ e. rw e used in
    ground (arith, here, in_ranges-snoc c.plan.unavailable_sequence_ranges c.current x)

pub skip-Accounted :
    (selected observed : List ℕ) (after sequence : ℕ) (c : Cover)
    → sequence < 2 ^ 64
    → after < sequence
    → contains selected sequence ≡ false
    → contains observed sequence ≡ false
    → Accounted selected observed after sequence c
    → Accounted selected observed after
        (suc sequence)
        (ended_at sequence (add_unavailable sequence c))
skip-Accounted selected observed after sequence c small above free unseen a = record {
  exact = λ x. skip-exact selected after sequence c x small above free a.open_end (a.exact x);
  kept = λ x lo hi seen. elim (dec_lt x sequence) [
    | yes below ↦ a.kept x lo below seen
    | no not_below ↦
        let here : x ≡ sequence = omega arith in absurd (false≢true (sym unseen ∙ rw here at seen))
  ];
  open_end = λ o. unfold add_unavailable in ground (arith, a.open_end);
  counted = unfold add_unavailable missing in ground (arith, a.counted);
  ended = inl (omega arith);
}

pub take-Accounted :
    (selected observed : List ℕ) (after sequence : ℕ) (c : Cover)
    → after < sequence
    → contains selected sequence ≡ true
    → Accounted selected observed after sequence c
    → Accounted selected observed after (suc sequence) (ended_at sequence (add_selected c))
take-Accounted selected observed after sequence c above used a = record {
  exact = λ x. take-exact selected after sequence c x above used (a.exact x);
  kept = λ x lo hi seen. elim (dec_lt x sequence) [
    | yes below ↦ a.kept x lo below seen
    | no not_below ↦ let here : x ≡ sequence = omega arith in rw here used
  ];
  open_end = λ o. unfold add_selected in ground (arith, a.open_end);
  counted = unfold add_selected missing in ground (arith, a.counted);
  ended = inl (omega arith);
}
