-- ===== src/Subscription/Valid.antt =====
-- The filters that `validate_subscribe_topic` of types/topic.py accepts, for the trie of
-- subscription_index.py.
use fast_mqtt.Prelude.{
  ℕ, ◌-◌, ◌≡◌, ◌⊎◌, refl, ap, sym, subst, List, [], ◌∷◌, true, false, not, has, arith, inl, inr,
  Bool-cases,
}
use fast_mqtt.Prelude.{
  if◌then◌else◌, ◌==◌, ==_iff, ok, length, ltb, is_empty, drop, refuse, refuse-ok, bind-ok,
  get_elem?, ◌>>◌, invalid_topic_error,
}
use fast_mqtt.Utf8.{Text, text_eq}
use fast_mqtt.Topic.{slash, hash, dollar, split, to_first}
use fast_mqtt.Topic.Validate.{
  index_of, check_hash, check_levels, after_separator, validate_subscribe_topic,
}
use fast_mqtt.Subscription.Collect.{hash_last}

to_first-hash_last :
    (c : ℕ) (parts : List Text)
    → (c == hash) ≡ false
    → hash_last parts ≡ true
    → hash_last (to_first c parts) ≡ true
unfolding hash_last text_eq
to_first-hash_last c [] other h = rw other refl
to_first-hash_last c (part ∷ parts) other h = elim (Bool-cases (text_eq part (hash ∷ []))) [
  | inl rest ↦ rw other (no_more parts (rw rest at h))
  | inr level ↦ rw other (rw level at h)
]
  where
    no_more : (l : List Text) → is_empty l ≡ true → hash_last l ≡ true
    no_more [] e = refl
    no_more (x ∷ l) e = absurd (cc)

-- No "#", or the first one is the last character
abbrev HashEnds : Text → Type 0
HashEnds s = (has hash s ≡ false) ⊎ (index_of hash s ≡ length s - 1)

tail-HashEnds : (c : ℕ) (s : Text) → (hash == c) ≡ false → HashEnds (c ∷ s) → HashEnds s
unfolding has index_of
tail-HashEnds c s other (inl none_left) = inl (rw other at none_left)
tail-HashEnds c [] other (inr e) = inl refl
tail-HashEnds c (d ∷ s) other (inr e) = inr (let n = rw other at e in omega arith)

nothing_after : (s : Text) → HashEnds (hash ∷ s) → s ≡ []
unfolding has index_of
nothing_after [] h = refl
nothing_after (c ∷ s) (inl none_left) = absurd (cc)
nothing_after (c ∷ s) (inr e) = absurd (omega arith)

hash_last-split : (s : Text) → HashEnds s → hash_last (split s) ≡ true
unfolding hash_last split text_eq
hash_last-split [] h = refl
hash_last-split (c ∷ s) h = elim (Bool-cases (hash == c)) [
  | inl ends ↦
      let e = (==_iff hash c).0 ends in
      let k = nothing_after s (subst (λ n. HashEnds (n ∷ s)) (sym e) h) in
      subst (λ t. hash_last (split t) ≡ true) (ap (λ l. c ∷ l) (sym k))
        (subst (λ n. hash_last (split (n ∷ [])) ≡ true) e refl)
  | inr other ↦
      let ih = hash_last-split s (tail-HashEnds c s other h) in
      let plain : (c == hash) ≡ false = ground arith in
      elim (Bool-cases (c == slash)) [
        | inl slashed ↦ rw slashed ih
        | inr kept ↦ rw kept (to_first-hash_last c (split s) plain ih)
      ]
]

same_place : (i j : ℕ) → not (i == j) ≡ false → i ≡ j
same_place i j h = ground arith

checked : (filter : Text) → check_hash filter ≡ ok tt → HashEnds filter
unfolding check_hash
checked filter h = elim (Bool-cases (has hash filter)) [
  | inr absent ↦ inl absent
  | inl there ↦
      let i = index_of hash filter in
      inr (
        bind-ok (refuse (not (i == length filter - 1)) invalid_topic_error)
          (λ _. if ltb 0 i then after_separator (get_elem? filter (i - 1)) else ok tt)
          (rw there at h)
          (λ _ last _.
            same_place i (length filter - 1)
              (refuse-ok (not (i == length filter - 1)) invalid_topic_error last)))
]

-- If `validate_subscribe_topic` accepts a filter, "#" is a level of it only at the end.
pub validate_subscribe_topic-hash_last :
    (filter : Text) → validate_subscribe_topic filter ≡ ok tt → hash_last (split filter) ≡ true
unfolding validate_subscribe_topic
validate_subscribe_topic-hash_last filter h = hash_last-split filter (
    bind-ok
      (refuse (is_empty filter) invalid_topic_error
        >> refuse (has dollar (drop 1 filter)) invalid_topic_error
        >> check_hash filter)
      (λ _. check_levels (split filter)) h
      λ _ first last.
        bind-ok
          (refuse (is_empty filter) invalid_topic_error
            >> refuse (has dollar (drop 1 filter)) invalid_topic_error)
          (λ _. check_hash filter) first λ _ _ c. checked filter c)
