-- ===== src/Security/ReplayWindow/Protection.antt =====
-- include/security/AuthReplayWindow.h: what becomes of a digest that was accepted.
use power_monitor_sensor.Common.{
  ◌≤◌, ◌≡◌, refl, ◌↔◌, ◌⊎◌, inl, inr, Bool, true, not, ◌&&◌, ◌||◌, List, [], ◌∷◌, arith, leb, ltb,
  all, All, Bool-cases,
}
use power_monitor_sensor.Common.Texts.{text_eq, text_eq_refl}
use power_monitor_sensor.Security.ReplayWindow.{
  accepted, replayed, capacity_exceeded, Entry, Request, elapsed, aged, matches, visit,
  is_available, store, remember, remember_all,
}

-- The request `first` is remembered: an entry has its digest and its time.
unfoldable pub Remembers : Request → List Entry → Type 0
Remembers first [] = ⊥
Remembers first (entry ∷ entries) =
    ((entry.used ≡ true) × (entry.digest ≡ first.digest) × (entry.accepted_at ≡ first.accepted_at))
    ⊎ Remembers first entries

-- The call `r` comes within its window of the call `first`.
abbrev pub IsRecent : Request → Request → Type 0
IsRecent first r = elapsed r.accepted_at first.accepted_at ≤ r.window_seconds

aged_recent :
    (first r : Request) (entry : Entry)
    → IsRecent first r
    → entry.accepted_at ≡ first.accepted_at
    → aged r entry ≡ entry
unfolding aged
aged_recent first r entry recent e =
    elim (Bool-cases
      (entry.used && ltb r.window_seconds (elapsed r.accepted_at entry.accepted_at))) [
        | inl old ↦ absurd (not_old (rw e at old))
        | inr young ↦ rw young refl
      ]
  where
    not_old :
        (entry.used && ltb r.window_seconds (elapsed r.accepted_at first.accepted_at)) ≡ true → ⊥
    not_old h = ground arith

visit-Remembers :
    (first r : Request) (entries : List Entry)
    → IsRecent first r
    → Remembers first entries
    → Remembers first (visit r entries).0
unfolding visit Remembers
visit-Remembers first r [] recent h = elim h [ ]
visit-Remembers first r (entry ∷ entries) recent (inl (used, same, at)) =
    rw (aged_recent first r entry recent at) (elim (Bool-cases (matches r entry)) [
      | inl m ↦ rw m (inl (used, same, at))
      | inr m ↦ rw m (inl (used, same, at))
    ])
visit-Remembers first r (entry ∷ entries) recent (inr later) =
    elim (Bool-cases (matches r (aged r entry))) [
      | inl m ↦ rw m (inr later)
      | inr m ↦ rw m (inr (visit-Remembers first r entries recent later))
    ]

visit_finds :
    (first r : Request) (entries : List Entry)
    → IsRecent first r
    → r.digest ≡ first.digest
    → Remembers first entries
    → (visit r entries).1 ≡ true
unfolding visit Remembers
visit_finds first r [] recent e h = elim h [ ]
visit_finds first r (entry ∷ entries) recent e (inl (used, same, at)) =
    rw (aged_recent first r entry recent at, used, same, e, text_eq_refl first.digest) refl
visit_finds first r (entry ∷ entries) recent e (inr later) =
    elim (Bool-cases (matches r (aged r entry))) [
      | inl m ↦ rw m refl
      | inr m ↦ rw m (visit_finds first r entries recent e later)
    ]

store-Remembers :
    (first r : Request) (entries : List Entry)
    → Remembers first entries
    → Remembers first (store r entries)
unfolding store Remembers
store-Remembers first r [] h = elim h [ ]
store-Remembers first r (entry ∷ entries) (inl (used, same, at)) = rw used (inl (refl, same, at))
store-Remembers first r (entry ∷ entries) (inr later) = elim (Bool-cases entry.used) [
  | inl u ↦ rw u (inr (store-Remembers first r entries later))
  | inr u ↦ rw u (inr later)
]

stored-Remembers :
    (r : Request) (entries : List Entry)
    → is_available entries ≡ true
    → Remembers r (store r entries)
unfolding store Remembers is_available
stored-Remembers r [] h = cc
stored-Remembers r (entry ∷ entries) h = elim (Bool-cases entry.used) [
  | inl u ↦ rw u (inr (stored-Remembers r entries (rw u at h)))
  | inr u ↦ rw u (inl (refl, refl, refl))
]

-- A call that is accepted is remembered behind it.
accepted-Remembers :
    (r : Request) (entries : List Entry)
    → (remember entries r).1 ≡ accepted
    → Remembers r (remember entries r).0
unfolding remember
accepted-Remembers r entries h = elim (Bool-cases (visit r entries).1) [
  | inl seen ↦ cc (rw seen at h)
  | inr unseen ↦ elim (Bool-cases (is_available (visit r entries).0)) [
    | inl room ↦ rw (unseen, room) (stored-Remembers r (visit r entries).0 room)
    | inr full ↦ cc (rw (unseen, full) at h)
  ]
]

remember-Remembers :
    (first r : Request) (entries : List Entry)
    → IsRecent first r
    → Remembers first entries
    → Remembers first (remember entries r).0
unfolding remember
remember-Remembers first r entries recent held =
    let kept = visit-Remembers first r entries recent held in
    elim (Bool-cases (visit r entries).1) [
      | inl seen ↦ rw seen kept
      | inr unseen ↦ elim (Bool-cases (is_available (visit r entries).0)) [
        | inl room ↦ rw (unseen, room) (store-Remembers first r (visit r entries).0 kept)
        | inr full ↦ rw (unseen, full) kept
      ]
    ]

remember_all-Remembers :
    (first : Request) (entries : List Entry) (between : List Request)
    → All (IsRecent first) between
    → Remembers first entries
    → Remembers first (remember_all entries between)
unfolding remember_all
remember_all-Remembers first entries [] recent held = held
remember_all-Remembers first entries (r ∷ rs) recent held =
    remember_all-Remembers first (remember entries r).0 rs recent.1
      (remember-Remembers first r entries recent.0 held)

-- A request that was accepted is refused as a replay when its digest comes again within the window,
-- whatever other calls came in between, if they too came within their windows of it.
pub accepted_once :
    (entries : List Entry) (first again : Request) (between : List Request)
    → (remember entries first).1 ≡ accepted
    → again.digest ≡ first.digest
    → All (IsRecent first) between
    → IsRecent first again
    → (remember (remember_all (remember entries first).0 between) again).1 ≡ replayed
unfolding remember
accepted_once entries first again between ok same recent late =
    rw
      (visit_finds first again (remember_all (remember entries first).0 between) late same (
        remember_all-Remembers first (remember entries first).0 between recent
          (accepted-Remembers first entries ok)))
      refl

-- The entry is of another digest, and within the window of the call.
abbrev pub is_busy : Request → Entry → Bool
is_busy r entry =
    entry.used
    && leb (elapsed r.accepted_at entry.accepted_at) r.window_seconds
    && not (text_eq entry.digest r.digest)

visit_full :
    (r : Request) (entries : List Entry)
    → ((visit r entries).1 || is_available (visit r entries).0) ≡ not (all (is_busy r) entries)
unfolding visit is_available aged
visit_full r [] = refl
visit_full r (entry ∷ entries) = ground (arith, visit_full r entries)

-- A call is refused for want of room exactly if every entry is of another digest and within the
-- window of the call: no entry is given up before its time, and none is kept behind it.
pub capacity_exceeded_exact :
    (r : Request) (entries : List Entry)
    → ((remember entries r).1 ≡ capacity_exceeded) ↔ (all (is_busy r) entries ≡ true)
unfolding remember
capacity_exceeded_exact r entries = ground (arith, visit_full r entries)
