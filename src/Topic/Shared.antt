-- ===== src/Topic/Shared.antt =====
-- `_shared_filter_to_actual` and `topic_matches` of topic_matching.py: filters with a prefix
-- that the broker strips.
use fast_mqtt.Prelude.{
  ◌≡◌, refl, ap, List, [], ◌∷◌, ◌++◌, true, false, Option, none, some, has, inl, inr, Bool-cases,
  arith, ◌==◌, if◌then◌else◌, drop, ok, ◌>>=◌,
}
use fast_mqtt.Utf8.{Text}
use fast_mqtt.Topic.{
  slash, starts_with, after_slash, share_prefix, strip_prefix, shared_filter_to_actual,
  actual_matches, topic_matches,
}

after_slash-append :
    (group rest : Text) → has slash group ≡ false → after_slash (group ++ slash ∷ rest) ≡ some rest
unfolding after_slash has
after_slash-append [] rest h = refl
after_slash-append (c ∷ group) rest h =
    let other : (c == slash) ≡ false = ground arith in
    rw other (after_slash-append group rest (ground arith))

-- If the group has no "/", `topic_matches` of `$share/<group>/<filter>`, under any stripped prefixes,
-- answers what `_topic_matches` of the filter does.
pub topic_matches-shared :
    (group filter topic : Text) (prefixes : List Text)
    → has slash group ≡ false
    → topic_matches (share_prefix ++ (group ++ slash ∷ filter)) topic prefixes
      ≡ ok (actual_matches filter topic)
unfolding topic_matches shared_filter_to_actual starts_with
topic_matches-shared group filter topic prefixes h =
    ap
      (λ shared.
        elim shared [ some actual ↦ ok actual | none ↦ strip_prefix whole prefixes ] >>= λ actual.
        ok (actual_matches actual topic))
      (after_slash-append group filter h)
  where
    whole : Text
    whole = share_prefix ++ (group ++ slash ∷ filter)

starts_with-slash :
    (prefix s : Text)
    → starts_with (prefix ++ slash ∷ []) s ≡ true
    → (rest : Text) × (after_slash s ≡ some rest)
unfolding starts_with after_slash
starts_with-slash [] [] h = absurd (cc)
starts_with-slash [] (c ∷ s) h = elim (Bool-cases (c == slash)) [
  | inl same ↦ (s, rw same refl)
  | inr other ↦ absurd (let different : (slash == c) ≡ false = ground arith in cc)
]
starts_with-slash (p ∷ prefix) [] h = absurd (cc)
starts_with-slash (p ∷ prefix) (c ∷ s) h = elim (Bool-cases (c == slash)) [
  | inl same ↦ (s, rw same refl)
  | inr other ↦ rw other (starts_with-slash prefix s (ground arith))
]

strip_prefix-total :
    (filter : Text) (prefixes : List Text)
    → (actual : Text) × (strip_prefix filter prefixes ≡ ok actual)
unfolding strip_prefix
strip_prefix-total filter [] = (filter, refl)
strip_prefix-total filter (prefix ∷ prefixes) =
    elim (Bool-cases (starts_with (prefix ++ slash ∷ []) filter)) [
      | inl starts ↦
          let (rest, e) = starts_with-slash prefix filter starts in (rest, rw (starts, e) refl)
      | inr other ↦
          let (actual, e) = strip_prefix-total filter prefixes in (actual, rw (other, e) refl)
    ]

-- `topic_matches` never raises: it answers what `_topic_matches` does for some actual filter.
pub topic_matches_total :
    (filter topic : Text) (prefixes : List Text)
    → (actual : Text) × (topic_matches filter topic prefixes ≡ ok (actual_matches actual topic))
unfolding topic_matches shared_filter_to_actual
topic_matches_total filter topic prefixes =
    go (if starts_with share_prefix filter then after_slash (drop 7 filter) else none)
  where
    go :
        (shared : Option Text)
        → (actual : Text) × ((elim shared [
          | some actual ↦ ok actual
          | none ↦ strip_prefix filter prefixes
        ]
              >>= λ actual. ok (actual_matches actual topic))
            ≡ ok (actual_matches actual topic))
    go (some actual) = (actual, refl)
    go none = let (actual, e) = strip_prefix-total filter prefixes in (actual, rw e refl)
