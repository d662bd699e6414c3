-- ===== src/Topic/Matching.antt =====
-- `_match_parts` and `_topic_matches` of topic_matching.py against the rule of MQTT on levels.
use fast_mqtt.Prelude.{
  ℕ, ◌≡◌, ◌↔◌, refl, ap, sym, subst, List, [], ◌∷◌, true, false, has, inl, inr, Bool-cases, arith,
  ◌==◌,
}
use fast_mqtt.Utf8.{Text, text_eq}
use fast_mqtt.Topic.{split, to_first, slash, hash, plus, match_parts, actual_matches}
use fast_mqtt.Topic.Split.{text_eq_iff, split-injective}

-- MQTT's rule on levels: "#" matches the levels that are left, also none, "+" matches any one level,
-- and any other level matches itself.
pub data Matches : List Text → List Text → Type 0 where
  no_levels : Matches [] []
  any_levels : {filters topics : List Text} → Matches ((hash ∷ []) ∷ filters) topics
  any_level :
      {filters topics : List Text} {level : Text}
      → Matches filters topics
      → Matches ((plus ∷ []) ∷ filters) (level ∷ topics)
  same_level :
      {filters topics : List Text} {level : Text}
      → Matches filters topics
      → Matches (level ∷ filters) (level ∷ topics)

Matches-match_parts : (fs ts : List Text) → match_parts fs ts ≡ true → Matches fs ts
unfolding match_parts
Matches-match_parts [] [] h = no_levels
Matches-match_parts [] (t ∷ ts) h = absurd (cc)
Matches-match_parts (f ∷ fs) [] h =
    let (is_hash, _) = text_eq_iff f (hash ∷ []) in
    subst (λ l. Matches (l ∷ fs) []) (sym (is_hash h)) any_levels
Matches-match_parts (f ∷ fs) (t ∷ ts) h = elim (Bool-cases (text_eq f (hash ∷ []))) [
  | inl rest ↦
      let (is_hash, _) = text_eq_iff f (hash ∷ []) in
      subst (λ l. Matches (l ∷ fs) (t ∷ ts)) (sym (is_hash rest)) any_levels
  | inr no_rest ↦ elim (Bool-cases (text_eq f (plus ∷ []))) [
    | inl any ↦
        let (is_plus, _) = text_eq_iff f (plus ∷ []) in
        subst (λ l. Matches (l ∷ fs) (t ∷ ts)) (sym (is_plus any))
          (any_level (Matches-match_parts fs ts (rw (no_rest, any) at h)))
    | inr not_any ↦ elim (Bool-cases (text_eq f t)) [
      | inl same ↦
          let (is_same, _) = text_eq_iff f t in
          subst (λ l. Matches (f ∷ fs) (l ∷ ts)) (is_same same)
            (same_level (Matches-match_parts fs ts (rw (no_rest, not_any, same) at h)))
      | inr other ↦ let no = rw (no_rest, not_any, other) at h in absurd (cc)
    ]
  ]
]

level_tests :
    (text_eq (hash ∷ []) (hash ∷ []) ≡ true)
    × (text_eq (plus ∷ []) (hash ∷ []) ≡ false)
    × (text_eq (plus ∷ []) (plus ∷ []) ≡ true)
unfolding text_eq
level_tests = (refl, refl, refl)

match_parts-Matches : {fs ts : List Text} → Matches fs ts → match_parts fs ts ≡ true
unfolding match_parts
match_parts-Matches no_levels = refl
match_parts-Matches (any_levels {topics = []}) = level_tests.0
match_parts-Matches (any_levels {topics = t ∷ ts}) = rw level_tests.0 refl
match_parts-Matches (any_level {level = t} d) =
    rw (level_tests.1, level_tests.2) (match_parts-Matches d)
match_parts-Matches (same_level {filters = fs} {topics = ts} {level = t} d) =
    let rest = match_parts-Matches d in
    let (_, same) = text_eq_iff t t in let equal = same refl in ground arith

-- `_match_parts` answers True on the levels that the rule `Matches` relates, and on no others.
pub match_parts_iff : (fs ts : List Text) → (match_parts fs ts ≡ true) ↔ Matches fs ts
match_parts_iff fs ts = (Matches-match_parts fs ts, match_parts-Matches)

-- Levels without a wildcard.
pub data Plain : List Text → Type 0 where
  plain_nil : Plain []
  plain_cons :
      {level : Text} {levels : List Text}
      → has hash level ≡ false
      → has plus level ≡ false
      → Plain levels
      → Plain (level ∷ levels)

Plain-to_first :
    (c : ℕ) {levels : List Text}
    → (hash == c) ≡ false
    → (plus == c) ≡ false
    → Plain levels
    → Plain (to_first c levels)
unfolding has
Plain-to_first c h p plain_nil = plain_cons (rw h refl) (rw p refl) plain_nil
Plain-to_first c h p (plain_cons h' p' rest) = plain_cons (rw h h') (rw p p') rest

pub Plain-split : (s : Text) → has hash s ≡ false → has plus s ≡ false → Plain (split s)
unfolding split has
Plain-split [] h p = plain_cons refl refl plain_nil
Plain-split (c ∷ s) h p =
    let rest = Plain-split s (ground arith) (ground arith) in
    elim (Bool-cases (c == slash)) [
      | inl same ↦ rw same (plain_cons refl refl rest)
      | inr other ↦ rw other (Plain-to_first c (ground arith) (ground arith) rest)
    ]

Plain-Matches : {fs ts : List Text} → Plain fs → Matches fs ts → fs ≡ ts
unfolding has
Plain-Matches plain_nil no_levels = refl
Plain-Matches (plain_cons h p rest) any_levels = absurd (cc)
Plain-Matches (plain_cons h p rest) (any_level d) = absurd (cc)
Plain-Matches (plain_cons {level = l} h p rest) (same_level d) =
    ap (λ ls. l ∷ ls) (Plain-Matches rest d)

Matches-refl : (ts : List Text) → Matches ts ts
Matches-refl [] = no_levels
Matches-refl (t ∷ ts) = same_level (Matches-refl ts)

-- By `_topic_matches`, a filter that has neither "#" nor "+" matches one topic: itself.
pub actual_matches-plain :
    (filter topic : Text)
    → has hash filter ≡ false
    → has plus filter ≡ false
    → (actual_matches filter topic ≡ true) ↔ (filter ≡ topic)
unfolding actual_matches
actual_matches-plain filter topic h p =
    (only, λ e. subst (λ t. actual_matches filter t ≡ true) e itself)
  where
    only : actual_matches filter topic ≡ true → filter ≡ topic
    only m = split-injective filter topic (
        Plain-Matches (Plain-split filter h p)
          (Matches-match_parts (split filter) (split topic) (ground arith)))

    itself : actual_matches filter filter ≡ true
    itself = let same = match_parts-Matches (Matches-refl (split filter)) in ground arith
