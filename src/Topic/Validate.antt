-- ===== src/Topic/Validate.antt =====
-- src/zmqtt/_internal/types/topic.py: which texts are topics, and which are filters.
use fast_mqtt.Prelude.{zero, ◌++◌, ok-injective, Bool-cases, inl, inr, subst, sym, ap, ◌∙◌}
use fast_mqtt.Topic.{
  after_slash, strip_prefix, starts_with, or_index_error, share_prefix, shared_filter_to_actual,
  topic_matches,
}
use fast_mqtt.Prelude.{
  ℕ, suc, ◌-◌, ◌≡◌, ◌↔◌, refl, List, [], ◌∷◌, Bool, true, false, ◌&&◌, ◌||◌, not, Option, none,
  some, arith,
}
use fast_mqtt.Prelude.{
  has, is_empty, drop, length, get_elem?, ltb, ◌==◌, if◌then◌else◌, Result, ok, err, index_error,
  invalid_topic_error, refuse, ◌>>◌, bind-ok, refuse-ok,
}
use fast_mqtt.Utf8.{Text, text_eq}
use fast_mqtt.Topic.{slash, hash, plus, dollar, split, actual_matches}
use fast_mqtt.Topic.Matching.{Plain, plain_nil, plain_cons, Plain-split, actual_matches-plain}

-- `validate_publish`
unfoldable pub validate_publish : Text → Result (Unit {0})
unfolding has
validate_publish topic =
    refuse (is_empty topic) invalid_topic_error
    >> refuse (has hash topic || has plus topic) invalid_topic_error
    >> refuse (has dollar (drop 1 topic)) invalid_topic_error

-- `validate_response_topic`
unfoldable pub validate_response_topic : Text → Result (Unit {0})
unfolding validate_publish
validate_response_topic topic = validate_publish topic

-- `topic.index(c)`, for a character that is there
unfoldable pub index_of : ℕ → Text → ℕ
index_of c [] = 0
index_of c (d ∷ s) = if c == d then 0 else suc (index_of c s)

-- `topic[idx - 1] != "/"`
abbrev pub after_separator : Option ℕ → Result (Unit {0})
after_separator none = err index_error
after_separator (some c) = refuse (not (c == slash)) invalid_topic_error

-- `if "#" in topic`
unfoldable pub check_hash : Text → Result (Unit {0})
unfolding has index_of
check_hash topic =
    let idx = index_of hash topic in
    if has hash topic
    then (refuse (not (idx == length topic - 1)) invalid_topic_error
        >> (if ltb 0 idx then after_separator (get_elem? topic (idx - 1)) else ok tt))
    else ok tt

-- `for level in topic.split("/")`
unfoldable pub check_levels : List Text → Result (Unit {0})
unfolding has text_eq
check_levels [] = ok tt
check_levels (level ∷ levels) =
    refuse (has plus level && not (text_eq level (plus ∷ []))) invalid_topic_error
    >> check_levels levels

-- `validate_subscribe_topic`
unfoldable pub validate_subscribe_topic : Text → Result (Unit {0})
unfolding check_hash check_levels split
validate_subscribe_topic topic =
    refuse (is_empty topic) invalid_topic_error
    >> refuse (has dollar (drop 1 topic)) invalid_topic_error
    >> check_hash topic
    >> check_levels (split topic)

check_levels-Plain : {levels : List Text} → Plain levels → check_levels levels ≡ ok tt
unfolding check_levels
check_levels-Plain plain_nil = refl
check_levels-Plain (plain_cons h p rest) = rw p (check_levels-Plain rest)

neither_left : (a b : Bool) → (a || b) ≡ false → a ≡ false
neither_left a b e = ground arith

neither_right : (a b : Bool) → (a || b) ≡ false → b ≡ false
neither_right a b e = ground arith

some_injective : {a b : Text} → some a ≡ some b → a ≡ b
some_injective e = cc

-- What `validate_publish` asks for.
pub validate_publish-ok :
    (topic : Text)
    → validate_publish topic ≡ ok tt
    → (is_empty topic ≡ false)
      × (has hash topic ≡ false)
      × (has plus topic ≡ false)
      × (has dollar (drop 1 topic) ≡ false)
unfolding validate_publish
validate_publish-ok topic h =
    bind-ok
      (refuse (is_empty topic) invalid_topic_error
        >> refuse (has hash topic || has plus topic) invalid_topic_error)
      _ h
      λ _ first last. bind-ok (refuse (is_empty topic) invalid_topic_error) _ first λ _ empty wild.
        let no_wildcard = refuse-ok (has hash topic || has plus topic) invalid_topic_error wild in
        (
          refuse-ok (is_empty topic) invalid_topic_error empty,
          neither_left (has hash topic) (has plus topic) no_wildcard,
          neither_right (has hash topic) (has plus topic) no_wildcard,
          refuse-ok (has dollar (drop 1 topic)) invalid_topic_error last,
        )

after_slash-has :
    (c : ℕ) (s rest : Text) → has c s ≡ false → after_slash s ≡ some rest → has c rest ≡ false
unfolding has after_slash
after_slash-has c [] rest h e = absurd (cc)
after_slash-has c (d ∷ s) rest h e = elim (Bool-cases (d == slash)) [
  | inl slashed ↦
      let same : s ≡ rest = some_injective (rw slashed at e) in
      subst (λ t. has c t ≡ false) same (neither_right (c == d) (has c s) h)
  | inr other ↦ after_slash-has c s rest (neither_right (c == d) (has c s) h) (rw other at e)
]

drop-has : (c n : ℕ) (s : Text) → has c s ≡ false → has c (drop n s) ≡ false
unfolding has
drop-has c zero s h = h
drop-has c (suc n) [] h = h
drop-has c (suc n) (d ∷ s) h = drop-has c n s (neither_right (c == d) (has c s) h)

or_index_error-has :
    (c : ℕ) (o : Option Text) (actual : Text)
    → ((rest : Text) → o ≡ some rest → has c rest ≡ false)
    → or_index_error o ≡ ok actual
    → has c actual ≡ false
or_index_error-has c none actual h e = absurd (cc)
or_index_error-has c (some rest) actual h e =
    subst (λ t. has c t ≡ false) (ok-injective e) (h rest refl)

strip_prefix-has :
    (c : ℕ) (filter actual : Text) (prefixes : List Text)
    → has c filter ≡ false
    → strip_prefix filter prefixes ≡ ok actual
    → has c actual ≡ false
unfolding strip_prefix
strip_prefix-has c filter actual [] h e = subst (λ t. has c t ≡ false) (ok-injective e) h
strip_prefix-has c filter actual (prefix ∷ prefixes) h e =
    elim (Bool-cases (starts_with (prefix ++ slash ∷ []) filter)) [
      | inl starts ↦
          or_index_error-has c (after_slash filter) actual (λ rest. after_slash-has c filter rest h)
            (rw starts at e)
      | inr other ↦ strip_prefix-has c filter actual prefixes h (rw other at e)
    ]

-- What is left of a filter has no character that the filter does not have.
shared_filter_to_actual-has :
    (c : ℕ) (filter actual : Text) (prefixes : List Text)
    → has c filter ≡ false
    → shared_filter_to_actual filter prefixes ≡ ok actual
    → has c actual ≡ false
unfolding shared_filter_to_actual
shared_filter_to_actual-has c filter actual prefixes h e =
    go (if starts_with share_prefix filter then after_slash (drop 7 filter) else none) from e
  where
    from :
        (rest : Text)
        → (if starts_with share_prefix filter then after_slash (drop 7 filter) else none)
          ≡ some rest
        → has c rest ≡ false
    from rest k = elim (Bool-cases (starts_with share_prefix filter)) [
      | inl shared ↦ after_slash-has c (drop 7 filter) rest (drop-has c 7 filter h) (rw shared at k)
      | inr other ↦ let n : none ≡ some rest = rw other at k in absurd (cc)
    ]

    go :
        (o : Option Text)
        → ((rest : Text) → o ≡ some rest → has c rest ≡ false)
        → (elim o [ some a ↦ ok a | none ↦ strip_prefix filter prefixes ]) ≡ ok actual
        → has c actual ≡ false
    go none k j = strip_prefix-has c filter actual prefixes h j
    go (some a) k j = subst (λ t. has c t ≡ false) (ok-injective j) (k a refl)

-- If `validate_publish` accepts a topic, `validate_subscribe_topic` accepts it as a filter. If
-- `_shared_filter_to_actual` makes `actual` of that filter, by the prefixes that a broker strips, then
-- `topic_matches` answers that the filter matches `actual` and no other topic.
pub validate_publish-filter :
    (topic actual other : Text) (prefixes : List Text)
    → validate_publish topic ≡ ok tt
    → shared_filter_to_actual topic prefixes ≡ ok actual
    → (validate_subscribe_topic topic ≡ ok tt)
      × ((topic_matches topic other prefixes ≡ ok true) ↔ (actual ≡ other))
unfolding validate_subscribe_topic check_hash topic_matches
validate_publish-filter topic actual other prefixes h stripped =
    let (some_text, no_hash, no_plus, no_dollar) = validate_publish-ok topic h in
    let (to_equal, to_match) =
      actual_matches-plain actual other
        (shared_filter_to_actual-has hash topic actual prefixes no_hash stripped)
        (shared_filter_to_actual-has plus topic actual prefixes no_plus stripped) in
    let answer : topic_matches topic other prefixes ≡ ok (actual_matches actual other) =
      rw (stripped, topic_matches) refl in
    (
      rw (some_text, no_dollar, no_hash) (check_levels-Plain (Plain-split topic no_hash no_plus)),
      (λ m. to_equal (ok-injective (sym answer ∙ m)), λ e. answer ∙ ap ok (to_match e)),
    )
