-- ===== src/Security/Canonical/Fixed.antt =====
-- src/security/Crypto.h: a canonical target is its own canonical form.
use power_monitor_sensor.Common.{
  ◌≡◌, refl, true, false, Option, none, some, List, [], ◌∷◌, ◌++◌, arith, all, is_empty, All,
  &&-eq-true, Bool-cases, inl, inr,
}
use power_monitor_sensor.Common.Texts.{Text}
use power_monitor_sensor.Security.Canonical.{
  before, behind, pieces, contains, starts_with_slash, percent_decode_query_component, both,
  decode_item, with_item, decode_items, with_path, split_canonical_target, sort, join_items,
  encode_pairs, with_query, canonical_path_query, canonical_of, canonical_target,
}
use power_monitor_sensor.Security.Canonical.Percent.{is_bytes}
use power_monitor_sensor.Security.Canonical.Pieces.{
  before_joined, behind_joined, before_whole, behind_whole, contains-before, before_lacks,
  before_bytes, behind_bytes, pieces_bytes, contains-append, has_bytes, decode_bytes,
}
use power_monitor_sensor.Security.Canonical.Sorting.{sort_twice, sort-All}
use power_monitor_sensor.Security.Canonical.Items.{
  IsEncoded, decode_joined, join_lacks, join-filled,
}

-- The path is one that a split gives.
abbrev IsPath : Text → Type 0
IsPath path =
    (starts_with_slash path ≡ true) × (contains b'#' path ≡ false) × (contains b'?' path ≡ false)

slash-append :
    (path more : Text) → starts_with_slash path ≡ true → starts_with_slash (path ++ more) ≡ true
slash-append [] more h = cc
slash-append (c ∷ path) more h = h

-- A path and encoded pairs, put together, are split and encoded into the same pairs.
split_joined :
    (path : Text) (pairs : List (Text × Text))
    → IsPath path
    → All IsEncoded pairs
    → (query : List (Text × Text)) × (split_canonical_target (with_query path pairs)
        ≡ some (path, query))
      × (encode_pairs query ≡ pairs)
unfolding split_canonical_target encode_pairs
split_joined path [] (slash, hash, question) hs = (
  [],
  rw (before_whole b'?' path question, behind_whole b'?' path question, slash, hash) refl,
  refl,
)
split_joined path (pair ∷ pairs) (slash, hash, question) hs =
    let items = join_items (pair ∷ pairs) in
    let (query, d, back) = decode_joined pair pairs hs in
    let lacks =
      contains-append b'#' path (b'?' ∷ items) hash
        (join_lacks b'#' (pair ∷ pairs) refl refl refl hs) in
    (
      query,
      rw
          (
            before_joined b'?' path items question,
            behind_joined b'?' path items question,
            slash-append path (b'?' ∷ items) slash,
            lacks,
            join-filled pair pairs,
            d,
          )
          refl,
      back,
    )

-- A pair of byte texts, or nothing; and a query of such pairs.
abbrev HasPair : Option (Text × Text) → Type 0
HasPair none = Unit
HasPair (some (key, value)) = (is_bytes key ≡ true) × (is_bytes value ≡ true)

abbrev HasQuery : Option (List (Text × Text)) → Type 0
HasQuery none = Unit
HasQuery (some query) = All IsEncoded (encode_pairs query)

both_bytes :
    (key value : Option Text)
    → has_bytes key ≡ true
    → has_bytes value ≡ true
    → HasPair (both key value)
both_bytes none value k v = tt
both_bytes (some key) none k v = tt
both_bytes (some key) (some value) k v = (k, v)

item_bytes : (item : Text) → is_bytes item ≡ true → HasPair (decode_item item)
item_bytes item h =
    both_bytes (percent_decode_query_component (before b'=' item))
      (percent_decode_query_component (behind b'=' item))
      (decode_bytes (before b'=' item) (before_bytes b'=' item h))
      (decode_bytes (behind b'=' item) (behind_bytes b'=' item h))

more_encoded :
    (item : Option (Text × Text)) (query : Option (List (Text × Text)))
    → HasPair item
    → HasQuery query
    → HasQuery (with_item item query)
unfolding encode_pairs
more_encoded none query h hs = tt
more_encoded (some item) none h hs = tt
more_encoded (some item) (some query) h hs = ((item, refl, h.0, h.1), hs)

items_encoded : (items : List Text) → all is_bytes items ≡ true → HasQuery (decode_items items)
unfolding decode_items encode_pairs
items_encoded [] h = tt
items_encoded (item ∷ items) h =
    let split = &&-eq-true (is_bytes item) (all is_bytes items) h in
    let rest = items_encoded items split.1 in
    elim (Bool-cases (is_empty item)) [
      | inl empty ↦ rw empty rest
      | inr filled ↦
          rw filled
            (more_encoded (decode_item item) (decode_items items) (item_bytes item split.0) rest)
    ]

slash-before :
    (target : Text)
    → starts_with_slash target ≡ true
    → starts_with_slash (before b'?' target) ≡ true
unfolding before
slash-before [] h = cc
slash-before (c ∷ target) h = ground arith

-- What a split gives: a path, and a query whose encoding can be split again.
abbrev Gives : Option (Text × List (Text × Text)) → Type 0
Gives none = Unit
Gives (some (path, query)) = IsPath path × All IsEncoded (encode_pairs query)

with_path-Gives :
    (path : Text) (query : Option (List (Text × Text)))
    → IsPath path
    → HasQuery query
    → Gives (with_path path query)
with_path-Gives path none p h = tt
with_path-Gives path (some query) p h = (p, h)

split-Gives : (target : Text) → is_bytes target ≡ true → Gives (split_canonical_target target)
unfolding split_canonical_target encode_pairs
split-Gives target h =
    let items = behind b'?' target in
    elim (Bool-cases (starts_with_slash target)) [
      | inr other ↦ rw other tt
      | inl slash ↦ elim (Bool-cases (contains b'#' target)) [
        | inl hash ↦ rw (slash, hash) tt
        | inr plain ↦
            let path : IsPath (before b'?' target) = (
              slash-before target slash,
              before_lacks b'?' b'#' target plain,
              contains-before b'?' target,
            ) in
            elim (Bool-cases (is_empty items)) [
              | inl none_left ↦ rw (slash, plain, none_left) (path, tt)
              | inr filled ↦
                  rw (slash, plain, filled)
                    (with_path-Gives (before b'?' target) (decode_items (pieces b'&' items)) path (
                      items_encoded (pieces b'&' items)
                        (pieces_bytes b'&' items (behind_bytes b'?' target h))))
            ]
      ]
    ]

canonical_again :
    (path : Text) (query : List (Text × Text))
    → IsPath path
    → All IsEncoded (encode_pairs query)
    → canonical_target (canonical_path_query path query) ≡ some (canonical_path_query path query)
unfolding canonical_target canonical_path_query
canonical_again path query p hs =
    let pairs = sort (encode_pairs query) in
    let (found, d, back) = split_joined path pairs p (sort-All IsEncoded (encode_pairs query) hs) in
    rw (d, back, sort_twice (encode_pairs query)) refl

fixed :
    (result : Option (Text × List (Text × Text))) (output : Text)
    → Gives result
    → canonical_of result ≡ some output
    → canonical_target output ≡ some output
fixed none output h e = cc
fixed (some (path, query)) output (p, hs) e = let again = canonical_again path query p hs in cc

-- The canonical form of a target is its own canonical form: where `canonicalTarget` gives an output
-- for a target of bytes, it gives the same output for that output.
pub canonical_target_fixed :
    (target output : Text)
    → is_bytes target ≡ true
    → canonical_target target ≡ some output
    → canonical_target output ≡ some output
unfolding canonical_target
canonical_target_fixed target output h e =
    fixed (split_canonical_target target) output (split-Gives target h) e
