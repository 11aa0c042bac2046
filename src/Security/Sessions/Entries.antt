-- ===== src/Security/Sessions/Entries.antt =====
-- src/security/AuthService.cpp: which tokens the entries know, and that each is known once.
use power_monitor_sensor.Common.{
  ℕ, ◌≡◌, refl, ◌⊎◌, Bool, true, false, not, ◌&&◌, ◌||◌, none, some, List, [], ◌∷◌, arith,
}
use power_monitor_sensor.Common.Texts.{Text, text_eq, text_eq_iff, text_eq_refl}
use power_monitor_sensor.Security.Sessions.{
  Entry, empty_entry, is_entry_of, find, assign, purged, is_available, place, emptied,
}

unfoldable pub is_present : Text → List Entry → Bool
is_present token_digest [] = false
is_present token_digest (entry ∷ entries) =
    is_entry_of token_digest entry || is_present token_digest entries

unfoldable pub is_distinct : List Entry → Bool
is_distinct [] = true
is_distinct (entry ∷ entries) =
    not (entry.used && is_present entry.token_digest entries) && is_distinct entries

-- A value that is assigned to an entry of `known`: another one of it, or an empty one.
abbrev pub Replaces : Text → Entry → Type 0
Replaces known value = (value.used ≡ false) ⊎ (value.token_digest ≡ known)

pub find-none :
    (known : Text) (entries : List Entry)
    → is_present known entries ≡ false
    → find known entries ≡ none
unfolding is_present find
find-none known [] h = refl
find-none known (entry ∷ entries) h = ground (arith, find-none known entries)

pub find-some :
    (known : Text) (entries : List Entry) (entry : Entry)
    → find known entries ≡ some entry
    → (is_entry_of known entry ≡ true) × (is_present known entries ≡ true)
unfolding is_present find
find-some known [] entry h = cc
find-some known (first ∷ entries) entry h = ground (arith, find-some known entries entry)

pub present-assign :
    (known other : Text) (value : Entry) (entries : List Entry)
    → Replaces known value
    → is_present other entries ≡ false
    → is_present other (assign known value entries) ≡ false
unfolding is_present assign
present-assign known other value [] r h = refl
present-assign known other value (entry ∷ entries) r h =
    ground (arith, present-assign known other value entries r, text_eq_iff entry.token_digest known)

pub distinct-assign :
    (known : Text) (value : Entry) (entries : List Entry)
    → Replaces known value
    → is_distinct entries ≡ true
    → is_distinct (assign known value entries) ≡ true
unfolding is_distinct assign
distinct-assign known value [] r h = refl
distinct-assign known value (entry ∷ entries) r h = ground (
  arith,
  distinct-assign known value entries r,
  present-assign known entry.token_digest value entries r,
  text_eq_iff entry.token_digest known,
)

pub present-cleared :
    (known : Text) (entries : List Entry)
    → is_distinct entries ≡ true
    → is_present known (assign known empty_entry entries) ≡ false
unfolding is_distinct is_present assign
present-cleared known [] h = refl
present-cleared known (entry ∷ entries) h =
    ground (arith, present-cleared known entries, text_eq_iff entry.token_digest known)

pub present-purged :
    (now_ms : ℕ) (other : Text) (entries : List Entry)
    → is_present other entries ≡ false
    → is_present other (purged now_ms entries) ≡ false
unfolding is_present purged
present-purged now_ms other [] h = refl
present-purged now_ms other (entry ∷ entries) h =
    ground (arith, present-purged now_ms other entries)

pub distinct-purged :
    (now_ms : ℕ) (entries : List Entry)
    → is_distinct entries ≡ true
    → is_distinct (purged now_ms entries) ≡ true
unfolding is_distinct purged
distinct-purged now_ms [] h = refl
distinct-purged now_ms (entry ∷ entries) h =
    ground (arith, distinct-purged now_ms entries, present-purged now_ms entry.token_digest entries)

pub present-place :
    (value : Entry) (other : Text) (entries : List Entry)
    → is_present other entries ≡ false
    → text_eq value.token_digest other ≡ false
    → is_present other (place value entries) ≡ false
unfolding is_present place
present-place value other [] h n = refl
present-place value other (entry ∷ entries) h n = ground (arith, present-place value other entries)

pub distinct-place :
    (value : Entry) (entries : List Entry)
    → is_present value.token_digest entries ≡ false
    → is_distinct entries ≡ true
    → is_distinct (place value entries) ≡ true
unfolding is_distinct is_present place
distinct-place value [] n h = refl
distinct-place value (entry ∷ entries) n h = ground (
  arith,
  distinct-place value entries,
  present-place value entry.token_digest entries,
  text_eq_iff value.token_digest entry.token_digest,
  text_eq_refl entry.token_digest,
)

pub distinct-emptied : (entries : List Entry) → is_distinct (emptied entries) ≡ true
unfolding is_distinct is_present emptied
distinct-emptied [] = refl
distinct-emptied (entry ∷ entries) = ground (arith, distinct-emptied entries)

pub present-emptied :
    (other : Text) (entries : List Entry) → is_present other (emptied entries) ≡ false
unfolding is_present emptied
present-emptied other [] = refl
present-emptied other (entry ∷ entries) = ground (arith, present-emptied other entries)

-- What was placed or assigned is found.
pub find-place :
    (value : Entry) (entries : List Entry)
    → value.used ≡ true
    → is_available entries ≡ true
    → is_present value.token_digest entries ≡ false
    → find value.token_digest (place value entries) ≡ some value
unfolding is_present find place is_available
find-place value [] u a n = cc
find-place value (entry ∷ entries) u a n =
    ground (arith, find-place value entries u, text_eq_refl value.token_digest)

pub find-assign :
    (known : Text) (value : Entry) (entries : List Entry)
    → is_entry_of known value ≡ true
    → is_present known entries ≡ true
    → find known (assign known value entries) ≡ some value
unfolding is_present find assign
find-assign known value [] v h = cc
find-assign known value (entry ∷ entries) v h = ground (arith, find-assign known value entries v)
