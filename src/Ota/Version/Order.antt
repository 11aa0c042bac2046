-- ===== src/Ota/Version/Order.antt =====
-- src/ota/OtaManifestV2.cpp: the order of versions is total and transitive.
use Prim.Native.Nat.{compare, Ordering}
use Ordering.{lt, eq, gt}
use power_monitor_sensor.Common.{
  ℕ, ◌≡◌, ◌↔◌, refl, ap, true, false, not, some, List, [], ◌∷◌, ltb, ◌==◌, length, if◌then◌else◌,
  arith, Bool-cases, Option-cases, inl, inr,
}
use power_monitor_sensor.Common.Texts.{Text, text_eq, text_eq→eq, text_eq_refl}
use power_monitor_sensor.Common.Orders.{
  flip, chain, IsOrder, compare-IsOrder, by_key-IsOrder, chain-IsOrder, list_order,
  list_order-IsOrder, text_order, text_order_exact, text_order_refl, chain_same, agree-IsOrder,
  list_order_exact, list_order_refl, compare_exact, compare_refl,
}
use power_monitor_sensor.Ota.Version.{
  Semver, numeric_identifier, compare_numeric_identifier, compare_kinds, compare_prerelease,
  compare_core, compare_tail, compare_parsed, parse_semver, valid_semver, compare_semver,
}

-- Identifiers as the specification orders them: numbers first, by their length, then by bytes.
abbrev class_of : Text → ℕ
class_of identifier = if numeric_identifier identifier then 0 else 1

abbrev size_of : Text → ℕ
size_of identifier = if numeric_identifier identifier then length identifier else 0

abbrev identifier_order : Text → Text → Ordering
identifier_order left right =
    chain (compare (class_of left) (class_of right))
      (chain (compare (size_of left) (size_of right)) (text_order left right))

identifier_order-IsOrder : IsOrder identifier_order
identifier_order-IsOrder =
    chain-IsOrder (λ a b. compare (class_of a) (class_of b))
      (λ a b. chain (compare (size_of a) (size_of b)) (text_order a b))
      (by_key-IsOrder compare class_of compare-IsOrder)
      (chain-IsOrder (λ a b. compare (size_of a) (size_of b)) text_order
        (by_key-IsOrder compare size_of compare-IsOrder)
        (list_order-IsOrder compare compare-IsOrder))

identifier_order_refl : (s : Text) → identifier_order s s ≡ eq
identifier_order_refl s =
    rw (compare_refl (class_of s), compare_refl (size_of s), text_order_refl s) refl

by_size :
    (m n : ℕ) (next : Ordering)
    → (if not (m == n) then (if ltb m n then lt else gt) else next) ≡ chain (compare m n) next
by_size m n next = ground arith

text_eq-text_order : (s t : Text) → text_order s t ≡ eq → text_eq s t ≡ true
text_eq-text_order s t h = rw (text_order_exact s t h) (text_eq_refl t)

identifier_order_exact : (s t : Text) → identifier_order s t ≡ eq → s ≡ t
identifier_order_exact s t h =
    let by_class =
      chain_same (compare (class_of s) (class_of t))
        (chain (compare (size_of s) (size_of t)) (text_order s t)) h in
    let by_bytes = chain_same (compare (size_of s) (size_of t)) (text_order s t) by_class.1 in
    text_order_exact s t by_bytes.1

absorbs : (o p : Ordering) → (o ≡ eq → true ≡ false) → o ≡ chain o p
absorbs lt p h = refl
absorbs eq p h = let wrong = h refl in cc
absorbs gt p h = refl

not_same : (o : Ordering) → (o ≡ eq → true ≡ false) → elim o [ lt ↦ lt | _ ↦ gt ] ≡ o
not_same lt h = refl
not_same eq h = let wrong = h refl in cc
not_same gt h = refl

compare_kinds_lem :
    (s t : Text)
    → text_eq s t ≡ false
    → compare_kinds (numeric_identifier s) (numeric_identifier t) s t ≡ identifier_order s t
unfolding compare_kinds compare_numeric_identifier
compare_kinds_lem s t differ = elim (Bool-cases (numeric_identifier s)) [
  | inl a ↦ elim (Bool-cases (numeric_identifier t)) [
    | inl b ↦ rw (a, b) (by_size (length s) (length t) (text_order s t))
    | inr b ↦ rw (a, b) refl
  ]
  | inr a ↦ elim (Bool-cases (numeric_identifier t)) [
    | inl b ↦ rw (a, b) refl
    | inr b ↦ rw (a, b) (not_same (text_order s t) (λ h. let same = text_eq-text_order s t h in cc))
  ]
]

compare_prerelease_lem :
    (ss ts : List Text) → compare_prerelease ss ts ≡ list_order identifier_order ss ts
unfolding compare_prerelease list_order
compare_prerelease_lem [] [] = refl
compare_prerelease_lem [] (t ∷ ts) = refl
compare_prerelease_lem (s ∷ ss) [] = refl
compare_prerelease_lem (s ∷ ss) (t ∷ ts) = elim (Bool-cases (text_eq s t)) [
  | inl same ↦
      rw (text_eq→eq s t same, text_eq_refl t, identifier_order_refl t)
        (compare_prerelease_lem ss ts)
  | inr differ ↦
      rw (differ, compare_kinds_lem s t differ)
        (absorbs (identifier_order s t) (list_order identifier_order ss ts)
          (λ h. let same = identifier_order_exact s t h in let known = text_eq_refl t in cc))
]

-- A release is behind its prereleases.
abbrev released : List Text → ℕ
released [] = 1
released (identifier ∷ identifiers) = 0

abbrev tail_order : List Text → List Text → Ordering
tail_order ss ts = chain (compare (released ss) (released ts)) (list_order identifier_order ss ts)

compare_tail_lem : (ss ts : List Text) → compare_tail ss ts ≡ tail_order ss ts
unfolding list_order
compare_tail_lem [] [] = refl
compare_tail_lem [] (t ∷ ts) = refl
compare_tail_lem (s ∷ ss) [] = refl
compare_tail_lem (s ∷ ss) (t ∷ ts) = compare_prerelease_lem (s ∷ ss) (t ∷ ts)

compare_tail-IsOrder : IsOrder compare_tail
compare_tail-IsOrder = agree-IsOrder compare_tail tail_order compare_tail_lem (
    chain-IsOrder (λ a b. compare (released a) (released b)) (list_order identifier_order)
      (by_key-IsOrder compare released compare-IsOrder)
      (list_order-IsOrder identifier_order identifier_order-IsOrder))

compare_parsed-IsOrder : IsOrder compare_parsed
compare_parsed-IsOrder =
    chain-IsOrder (λ a b. compare_core a.core b.core)
      (λ a b. compare_tail a.prerelease b.prerelease)
      (chain-IsOrder (λ a b. compare a.core.0 b.core.0)
        (λ a b. chain (compare a.core.1 b.core.1) (compare a.core.2 b.core.2))
        (by_key-IsOrder compare (λ a. a.core.0) compare-IsOrder)
        (chain-IsOrder (λ a b. compare a.core.1 b.core.1) (λ a b. compare a.core.2 b.core.2)
          (by_key-IsOrder compare (λ a. a.core.1) compare-IsOrder)
          (by_key-IsOrder compare (λ a. a.core.2) compare-IsOrder)))
      (by_key-IsOrder compare_tail (λ a. a.prerelease) compare_tail-IsOrder)

compare_tail_exact : (ss ts : List Text) → compare_tail ss ts ≡ eq → ss ≡ ts
compare_tail_exact ss ts h =
    let whole : tail_order ss ts ≡ eq = let known = compare_tail_lem ss ts in cc in
    list_order_exact identifier_order identifier_order_exact ss ts
      (chain_same (compare (released ss) (released ts)) (list_order identifier_order ss ts) whole).1

compare_tail_refl : (ss : List Text) → compare_tail ss ss ≡ eq
compare_tail_refl ss =
    rw
      (
        compare_tail_lem ss ss,
        compare_refl (released ss),
        list_order_refl identifier_order identifier_order_refl ss,
      )
      refl

compare_parsed_exact : (a b : Semver) → compare_parsed a b ≡ eq → a ≡ b
compare_parsed_exact a b h =
    let (cores, tails) =
      chain_same (compare_core a.core b.core) (compare_tail a.prerelease b.prerelease) h in
    let (majors, others) =
      chain_same (compare a.core.0 b.core.0)
        (chain (compare a.core.1 b.core.1) (compare a.core.2 b.core.2)) cores in
    let (minors, patches) =
      chain_same (compare a.core.1 b.core.1) (compare a.core.2 b.core.2) others in
    let major = compare_exact a.core.0 b.core.0 majors in
    let minor = compare_exact a.core.1 b.core.1 minors in
    let patch = compare_exact a.core.2 b.core.2 patches in
    let prerelease = compare_tail_exact a.prerelease b.prerelease tails in cc

compare_parsed_refl : (a : Semver) → compare_parsed a a ≡ eq
compare_parsed_refl a =
    rw
      (
        compare_refl a.core.0,
        compare_refl a.core.1,
        compare_refl a.core.2,
        compare_tail_refl a.prerelease,
      )
      refl

-- The version that a text is parsed into.
valid_parsed :
    (version : Text)
    → valid_semver version ≡ true
    → (parsed : Semver) × (parse_semver version ≡ some parsed)
unfolding valid_semver
valid_parsed version h = elim (Option-cases (parse_semver version)) [
  | inl failed ↦ let wrong = (rw failed at h) in cc
  | inr found ↦ found
]

same_version :
    (a b : Text)
    → valid_semver a ≡ true
    → valid_semver b ≡ true
    → (compare_semver a b ≡ eq) ↔ (parse_semver a ≡ parse_semver b)
unfolding compare_semver
same_version a b x y =
    let (p, parsed_a) = valid_parsed a x in
    let (q, parsed_b) = valid_parsed b y in
    rw (parsed_a, parsed_b)
      (
        λ h. ap some (compare_parsed_exact p q h),
        λ h. let same : p ≡ q = cc in rw same (compare_parsed_refl q),
      )

-- On valid versions the comparison is a total order: the other way round it gives the opposite, and
-- a version below a second, which is below a third, is below the third; versions that compare as
-- equal compare alike with any third, and they are those that are parsed into the same numbers and
-- prerelease identifiers, whatever their build metadata.
pub compare_semver_order :
    (a b c : Text)
    → valid_semver a ≡ true
    → valid_semver b ≡ true
    → valid_semver c ≡ true
    → (compare_semver b a ≡ flip (compare_semver a b))
      × (compare_semver a b ≡ lt → compare_semver b c ≡ lt → compare_semver a c ≡ lt)
      × (compare_semver a b ≡ eq → compare_semver a c ≡ compare_semver b c)
      × ((compare_semver a b ≡ eq) ↔ (parse_semver a ≡ parse_semver b))
unfolding compare_semver
compare_semver_order a b c x y z =
    let (p, parsed_a) = valid_parsed a x in
    let (q, parsed_b) = valid_parsed b y in
    let (r, parsed_c) = valid_parsed c z in
    let o = compare_parsed-IsOrder in
    let same = same_version a b x y in
    (
      rw (parsed_a, parsed_b) (o.flips p q),
      rw (parsed_a, parsed_b, parsed_c) (o.goes p q r),
      rw (parsed_a, parsed_b, parsed_c) (o.blind p q r),
      same,
    )
