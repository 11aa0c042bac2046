-- ===== src/Security/Canonical/Items.antt =====
-- src/security/Crypto.h: encoded items, joined, are decoded to what was encoded.
use power_monitor_sensor.Common.{
  ℕ, ◌≡◌, refl, true, false, some, List, [], ◌∷◌, arith, ◌==◌, is_empty, All,
}
use power_monitor_sensor.Common.Texts.{Text}
use power_monitor_sensor.Security.Canonical.{
  pieces, contains, percent_encode, decode_item, decode_items, encode_pair, item_text, join_items,
  encode_pairs,
}
use power_monitor_sensor.Security.Canonical.Percent.{
  is_bytes, is_separator, decode-percent_encode, encoded_plain,
}
use power_monitor_sensor.Security.Canonical.Pieces.{
  before_joined, behind_joined, pieces_whole, pieces_joined, contains-append,
}

-- The pair is the encoding of a pair of byte texts.
abbrev pub IsEncoded : Text × Text → Type 0
IsEncoded pair =
    (source : Text × Text) × (pair ≡ encode_pair source)
    × (is_bytes source.0 ≡ true)
    × (is_bytes source.1 ≡ true)

item_lacks :
    (separator : ℕ) (pair : Text × Text)
    → is_separator separator ≡ true
    → (separator == b'=') ≡ false
    → IsEncoded pair
    → contains separator (item_text pair) ≡ false
item_lacks separator pair s other (source, e, key, value) = rw e (
    contains-append separator (percent_encode source.0) (b'=' ∷ percent_encode source.1)
      (encoded_plain separator source.0 s key)
      (ground (arith, encoded_plain separator source.1 s value)))

item-filled : (pair : Text × Text) → is_empty (item_text pair) ≡ false
item-filled ([], value) = refl
item-filled (c ∷ key, value) = refl

decode-item_text :
    (source : Text × Text)
    → is_bytes source.0 ≡ true
    → is_bytes source.1 ≡ true
    → decode_item (item_text (encode_pair source)) ≡ some source
decode-item_text (key, value) k v =
    rw
      (
        before_joined b'=' (percent_encode key) (percent_encode value)
            (encoded_plain b'=' key refl k),
        behind_joined b'=' (percent_encode key) (percent_encode value)
            (encoded_plain b'=' key refl k),
        decode-percent_encode key k,
        decode-percent_encode value v,
      )
      refl

-- The items decode to a query that is encoded as `pairs` again.
abbrev DecodesTo : List (Text × Text) → List Text → Type 0
DecodesTo pairs items =
    (query : List (Text × Text)) × (decode_items items ≡ some query) × (encode_pairs query ≡ pairs)

one_more :
    (pair : Text × Text) (pairs : List (Text × Text)) (items : List Text)
    → IsEncoded pair
    → DecodesTo pairs items
    → DecodesTo (pair ∷ pairs) (item_text pair ∷ items)
unfolding decode_items encode_pairs
one_more pair pairs items (source, e, key, value) (query, d, back) = rw e (
  source ∷ query,
  rw (item-filled (encode_pair source), decode-item_text source key value, d) refl,
  rw back refl,
)

pub decode_joined :
    (pair : Text × Text) (pairs : List (Text × Text))
    → All IsEncoded (pair ∷ pairs)
    → DecodesTo (pair ∷ pairs) (pieces b'&' (join_items (pair ∷ pairs)))
unfolding join_items decode_items encode_pairs
decode_joined pair [] hs =
    rw (pieces_whole b'&' (item_text pair) (item_lacks b'&' pair refl refl hs.0))
      (one_more pair [] [] hs.0 ([], refl, refl))
decode_joined pair (next ∷ pairs) hs =
    rw
      (pieces_joined b'&' (item_text pair) (join_items (next ∷ pairs))
        (item_lacks b'&' pair refl refl hs.0))
      (one_more pair (next ∷ pairs) (pieces b'&' (join_items (next ∷ pairs))) hs.0
        (decode_joined next pairs hs.1))

pub join_lacks :
    (separator : ℕ) (pairs : List (Text × Text))
    → is_separator separator ≡ true
    → (separator == b'=') ≡ false
    → (separator == b'&') ≡ false
    → All IsEncoded pairs
    → contains separator (join_items pairs) ≡ false
unfolding join_items
join_lacks separator [] s n m hs = refl
join_lacks separator (pair ∷ []) s n m hs = item_lacks separator pair s n hs.0
join_lacks separator (pair ∷ next ∷ pairs) s n m hs =
    contains-append separator (item_text pair) (b'&' ∷ join_items (next ∷ pairs))
      (item_lacks separator pair s n hs.0)
      (ground (arith, join_lacks separator (next ∷ pairs) s n m hs.1))

pub join-filled :
    (pair : Text × Text) (pairs : List (Text × Text)) → is_empty (join_items (pair ∷ pairs)) ≡ false
unfolding join_items
join-filled pair [] = item-filled pair
join-filled ([], value) (next ∷ pairs) = refl
join-filled (c ∷ key, value) (next ∷ pairs) = refl
