-- ===== src/Security/Canonical.antt =====
-- src/security/Crypto.h: the canonical form of a request, which is what is signed.
pub mod Percent
pub mod Pieces
pub mod Sorting
pub mod Items
pub mod Fixed
mod Examples
use power_monitor_sensor.Common.{
  ℕ, ◌+◌, ◌-◌, ◌*◌, ◌/◌, ◌%◌, Bool, true, false, not, ◌&&◌, ◌||◌, Option, none, some, List, [], ◌∷◌,
  ◌++◌, map, leb, ltb, ◌==◌, u8, is_empty, any, if◌then◌else◌,
}
use power_monitor_sensor.Common.Texts.{Text, codes}

abbrev pub is_between : ℕ → ℕ → ℕ → Bool
is_between first last c = leb first c && leb c last

unfoldable pub ascii_unreserved : ℕ → Bool
ascii_unreserved c =
    is_between b'a' b'z' c
    || is_between b'A' b'Z' c
    || is_between b'0' b'9' c
    || c == b'-'
    || c == b'.'
    || c == b'_'
    || c == b'~'

-- digits[n]
abbrev pub upper_digit : ℕ → ℕ
upper_digit n = if ltb n 10 then b'0' + n else b'A' + n - 10

unfoldable pub percent_encode : Text → Text
percent_encode [] = []
percent_encode (c ∷ input) =
    if ascii_unreserved c
    then c ∷ percent_encode input
    else b'%' ∷ upper_digit (c / 16) ∷ upper_digit (c % 16) ∷ percent_encode input

abbrev pub percent_nibble : ℕ → ℕ
percent_nibble c =
    if is_between b'0' b'9' c
    then c - b'0'
    else (if is_between b'a' b'f' c
        then c - b'a' + 10
        else (if is_between b'A' b'F' c then c - b'A' + 10 else 0xFF))

abbrev pub prepend : ℕ → Option Text → Option Text
prepend c none = none
prepend c (some output) = some (c ∷ output)

abbrev pub unescaped : ℕ → ℕ
unescaped c = if c == b'+' then b' ' else c

-- The loop of percentDecodeQueryComponent; the last clause has two characters behind the first.
unfoldable pub percent_decode_query_component : Text → Option Text
percent_decode_query_component [] = some []
percent_decode_query_component (c ∷ []) = if c == b'%' then none else some (unescaped c ∷ [])
percent_decode_query_component (c ∷ high ∷ []) =
    let rest = percent_decode_query_component (high ∷ []) in
    if c == b'%' then none else prepend (unescaped c) rest
percent_decode_query_component (c ∷ high ∷ low ∷ input) =
    let rest = percent_decode_query_component (high ∷ low ∷ input) in
    let behind = percent_decode_query_component input in
    if not (c == b'%')
    then prepend (unescaped c) rest
    else (if percent_nibble high == 0xFF || percent_nibble low == 0xFF
        then none
        else prepend (u8 (percent_nibble high * 16 + percent_nibble low)) behind)

-- substr(0, find(separator))
unfoldable pub before : ℕ → Text → Text
before separator [] = []
before separator (c ∷ input) =
    let rest = before separator input in if c == separator then [] else c ∷ rest

-- substr(find(separator) + 1), or nothing where it is npos.
unfoldable pub behind : ℕ → Text → Text
behind separator [] = []
behind separator (c ∷ input) =
    let rest = behind separator input in if c == separator then input else rest

abbrev pub push : ℕ → List Text → List Text
push c [] = (c ∷ []) ∷ []
push c (item ∷ items) = (c ∷ item) ∷ items

-- The items between the separators, as the cursor goes over them.
unfoldable pub pieces : ℕ → Text → List Text
pieces separator [] = [] ∷ []
pieces separator (c ∷ input) =
    let rest = pieces separator input in if c == separator then [] ∷ rest else push c rest

abbrev pub both : Option Text → Option Text → Option (Text × Text)
both none value = none
both (some key) none = none
both (some key) (some value) = some (key, value)

abbrev pub decode_item : Text → Option (Text × Text)
decode_item item =
    both (percent_decode_query_component (before b'=' item))
      (percent_decode_query_component (behind b'=' item))

abbrev pub with_item :
    Option (Text × Text) → Option (List (Text × Text)) → Option (List (Text × Text))
with_item none query = none
with_item (some item) none = none
with_item (some item) (some query) = some (item ∷ query)

-- The loop: an empty item is skipped, and an item that does not decode ends it.
unfoldable pub decode_items : List Text → Option (List (Text × Text))
decode_items [] = some []
decode_items (item ∷ items) =
    let rest = decode_items items in
    if is_empty item then rest else with_item (decode_item item) rest

abbrev pub starts_with_slash : Text → Bool
starts_with_slash [] = false
starts_with_slash (c ∷ target) = c == b'/'

abbrev pub contains : ℕ → Text → Bool
contains c text = any (λ (x : ℕ). x == c) text

abbrev pub with_path : Text → Option (List (Text × Text)) → Option (Text × List (Text × Text))
with_path path none = none
with_path path (some query) = some (path, query)

-- Where there is no '?', or nothing behind it, the query is empty.
unfoldable pub split_canonical_target : Text → Option (Text × List (Text × Text))
split_canonical_target target =
    let path = before b'?' target in
    let items = behind b'?' target in
    if not (starts_with_slash target) || contains b'#' target
    then none
    else (if is_empty items
        then some (path, [])
        else with_path path (decode_items (pieces b'&' items)))

-- operator< of std::string, the other way round and negated.
unfoldable pub text_le : Text → Text → Bool
text_le [] right = true
text_le (c ∷ left) [] = false
text_le (c ∷ left) (d ∷ right) = let rest = text_le left right in ltb c d || (c == d && rest)

unfoldable pub text_is : Text → Text → Bool
text_is left right = text_le left right && text_le right left

unfoldable pub pair_le : Text × Text → Text × Text → Bool
pair_le (key, value) (other_key, other_value) =
    (text_le key other_key && not (text_is key other_key))
    || (text_is key other_key && text_le value other_value)

-- std::sort on the encoded pairs.
unfoldable pub insert : Text × Text → List (Text × Text) → List (Text × Text)
insert pair [] = pair ∷ []
insert pair (first ∷ pairs) =
    let rest = insert pair pairs in
    if pair_le pair first then pair ∷ first ∷ pairs else first ∷ rest

unfoldable pub sort : List (Text × Text) → List (Text × Text)
sort [] = []
sort (pair ∷ pairs) = insert pair (sort pairs)

abbrev pub encode_pair : Text × Text → Text × Text
encode_pair (key, value) = (percent_encode key, percent_encode value)

abbrev pub item_text : Text × Text → Text
item_text (key, value) = key ++ (b'=' ∷ value)

unfoldable pub join_items : List (Text × Text) → Text
join_items [] = []
join_items (pair ∷ []) = item_text pair
join_items (pair ∷ next ∷ pairs) = item_text pair ++ (b'&' ∷ join_items (next ∷ pairs))

unfoldable pub encode_pairs : List (Text × Text) → List (Text × Text)
encode_pairs [] = []
encode_pairs (pair ∷ pairs) = encode_pair pair ∷ encode_pairs pairs

abbrev pub with_query : Text → List (Text × Text) → Text
with_query path [] = path
with_query path (pair ∷ pairs) = path ++ (b'?' ∷ join_items (pair ∷ pairs))

unfoldable pub canonical_path_query : Text → List (Text × Text) → Text
canonical_path_query path query = with_query path (sort (encode_pairs query))

abbrev pub canonical_of : Option (Text × List (Text × Text)) → Option Text
canonical_of none = none
canonical_of (some (path, query)) = some (canonical_path_query path query)

unfoldable pub canonical_target : Text → Option Text
canonical_target target = canonical_of (split_canonical_target target)

-- std::toupper in the "C" locale.
abbrev pub upper : ℕ → ℕ
upper c = if is_between b'a' b'z' c then c - 32 else c

unfoldable pub canonical_request : Text → Text → Text → Text → Text → Text
canonical_request method path_query timestamp nonce body_hash =
    codes "PM-HMAC-SHA256-V1\n"
    ++ (map upper method
        ++ (10 ∷ (path_query ++ (10 ∷ (timestamp ++ (10 ∷ (nonce ++ (10 ∷ body_hash))))))))
