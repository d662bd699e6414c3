-- ===== src/Subscription/Match.antt =====
-- `match` and `select` of subscription_index.py against the table of the entries.
use fast_mqtt.Prelude.{
  ◌≡◌, ◌↔◌, refl, sym, ◌∙◌, List, [], ◌∷◌, true, false, none, some, arith, inl, inr, Bool-cases,
  map,
}
use fast_mqtt.Prelude.{ok}
use fast_mqtt.Utf8.{Text}
use fast_mqtt.Topic.{split, match_parts, actual_matches}
use fast_mqtt.Topic.Split.{text_key}
use fast_mqtt.Subscription.{
  SubscriptionEntry, SubscriptionSelection, Item, Among, here, there, actual_filter_of, item_key,
  tuple_less, select_from,
}
use fast_mqtt.Subscription.Node.{collect, is_wildcard}
use fast_mqtt.Subscription.Index.{new_index, matching, match_topic, select}
use fast_mqtt.Subscription.Best.{select_from-best}
use fast_mqtt.Subscription.Sorted.{sort-Among, Among-sort, sort-InOrder, Precedes, InOrder-Precedes}
use fast_mqtt.Subscription.Tree.{hop_of, same_path}
use fast_mqtt.Subscription.Collect.{hash_last, collect-Leads, Leads-collect, match_parts-Leads}
use fast_mqtt.Subscription.Added.{text_eq_refl}
use fast_mqtt.Subscription.Calls.{Call, calls, table_of, calls-Holds}

matching-Among :
    (topic : Text) (item : Item) (l : List Item)
    → Among item (matching topic l)
    → Among item l × (actual_matches (actual_filter_of item) topic ≡ true)
unfolding matching
matching-Among topic item [] a = elim a [ ]
matching-Among topic item (x ∷ l) a =
    elim (Bool-cases (actual_matches (actual_filter_of x) topic)) [
      | inl kept ↦ step_in kept (matching-Among topic item l) (rw kept at a)
      | inr dropped ↦ let (b, e) = matching-Among topic item l (rw dropped at a) in (there b, e)
    ]
  where
    step_in :
        {y : Item}
        → actual_matches (actual_filter_of y) topic ≡ true
        → (Among item (matching topic l)
            → Among item l × (actual_matches (actual_filter_of item) topic ≡ true))
        → Among item (y ∷ matching topic l)
        → Among item (y ∷ l) × (actual_matches (actual_filter_of item) topic ≡ true)
    step_in kept ih here = (here, kept)
    step_in kept ih (there b) = let (c, e) = ih b in (there c, e)

Among-matching :
    (topic : Text) (item : Item) {l : List Item}
    → Among item l
    → actual_matches (actual_filter_of item) topic ≡ true
    → Among item (matching topic l)
unfolding matching
Among-matching topic item here e = rw e here
Among-matching topic item (there {other = x} a) e =
    elim (Bool-cases (actual_matches (actual_filter_of x) topic)) [
      | inl kept ↦ rw kept (there (Among-matching topic item a e))
      | inr dropped ↦ rw dropped (Among-matching topic item a e)
    ]

same_path-hop_of : (parts : List Text) → same_path (map hop_of parts) parts ≡ true
unfolding same_path
same_path-hop_of [] = refl
same_path-hop_of (part ∷ parts) =
    let t = text_eq_refl part in
    elim (Bool-cases (is_wildcard part)) [
      | inl wild ↦ rw (wild, t) (same_path-hop_of parts)
      | inr plain ↦ rw (plain, t) (same_path-hop_of parts)
    ]

match_levels :
    (filter topic : Text)
    → actual_matches filter topic ≡ true
    → match_parts (split filter) (split topic) ≡ true
unfolding actual_matches
match_levels filter topic h = ground arith

held-match_topic :
    (cs : List Call) (topic : Text) (item : Item)
    → Among item (match_topic topic (calls cs new_index))
    → (table_of cs (λ j. none) item.0 ≡ some item.1)
      × (actual_matches (actual_filter_of item) topic ≡ true)
unfolding match_topic
held-match_topic cs topic item a =
    let index = calls cs new_index in
    let (filed, _, same) = calls-Holds cs in
    let (b, e) =
      matching-Among topic item (collect (split topic) index.root) (sort-Among item _ a) in
    let (path, _, c) = collect-Leads item (split topic) index.root b in
    let (held, _) = (filed path item).0 c in (sym (same item.0) ∙ held, e)

-- After any calls on a new index, `match` gives an entry whose "#" is the last level exactly when
-- the table of the calls has it and its filter matches the topic.
pub match_topic-table :
    (cs : List Call) (topic filter : Text) (entry : SubscriptionEntry)
    → hash_last (split (actual_filter_of (filter, entry))) ≡ true
    → Among (filter, entry) (match_topic topic (calls cs new_index)) ↔ (
        (table_of cs (λ j. none) filter ≡ some entry)
        × (actual_matches (actual_filter_of (filter, entry)) topic ≡ true))
unfolding match_topic
match_topic-table cs topic filter entry valid =
    let item : Item = (filter, entry) in
    let index = calls cs new_index in
    let (filed, _, same) = calls-Holds cs in
    (
      held-match_topic cs topic item,
      λ h.
          let parts = split (actual_filter_of item) in
          let led =
            match_parts-Leads parts (split topic) valid
              (match_levels (actual_filter_of item) topic h.1) in
          let stands =
            (filed (map hop_of parts) item).1 (same filter ∙ h.0, same_path-hop_of parts) in
          Among-sort item
            (Among-matching topic item (Leads-collect item index.root led stands) h.1),
    )

select_from-least :
    (item : Item) (l : List Item)
    → Among item l
    → (selection : SubscriptionSelection) × (best : Item) × (select_from l ≡ ok selection)
      × (selection.recipient ≡ some best)
      × Among best l
      × (tuple_less (item_key item) (item_key best) ≡ false)
select_from-least item [] a = elim a [ ]
select_from-least item (first ∷ items) a =
    let (selection, best, chosen, is_best, b, least) = select_from-best first items in
    (selection, best, chosen, is_best, b, least item a)

-- After any calls on a new index, if the table of the calls has an entry whose filter matches the
-- topic and has "#" as its last level only, `select` returns, and its recipient is an entry of the
-- table whose filter matches the topic and whose specificity that entry's is not less than.
pub select-table :
    (cs : List Call) (topic filter : Text) (entry : SubscriptionEntry)
    → table_of cs (λ j. none) filter ≡ some entry
    → hash_last (split (actual_filter_of (filter, entry))) ≡ true
    → actual_matches (actual_filter_of (filter, entry)) topic ≡ true
    → (selection : SubscriptionSelection) × (best : Item) × (select topic (calls cs new_index)
        ≡ ok selection)
      × (selection.recipient ≡ some best)
      × (table_of cs (λ j. none) best.0 ≡ some best.1)
      × (actual_matches (actual_filter_of best) topic ≡ true)
      × (tuple_less (item_key (filter, entry)) (item_key best) ≡ false)
unfolding select
select-table cs topic filter entry held valid matches =
    let found = (match_topic-table cs topic filter entry valid).1 (held, matches) in
    let (selection, best, chosen, is_best, among, least) =
      select_from-least (filter, entry) (match_topic topic (calls cs new_index)) found in
    let (best_held, best_matches) = held-match_topic cs topic best among in
    (selection, best, chosen, is_best, best_held, best_matches, least)

-- After any calls on a new index, of two entries of the table of the calls whose filters match the
-- topic and have "#" as their last level only, `match` lists the one of the lesser specificity, which is
-- the more specific filter, before the other.
pub match_topic-Precedes :
    (cs : List Call) (topic : Text) (first second : Item)
    → table_of cs (λ j. none) first.0 ≡ some first.1
    → table_of cs (λ j. none) second.0 ≡ some second.1
    → hash_last (split (actual_filter_of first)) ≡ true
    → hash_last (split (actual_filter_of second)) ≡ true
    → actual_matches (actual_filter_of first) topic ≡ true
    → actual_matches (actual_filter_of second) topic ≡ true
    → tuple_less (item_key first) (item_key second) ≡ true
    → Precedes first second (match_topic topic (calls cs new_index))
unfolding match_topic
match_topic-Precedes cs topic first second held held' valid valid' matches matches' less =
    let index = calls cs new_index in
    let a = (match_topic-table cs topic first.0 first.1 valid).1 (held, matches) in
    let b = (match_topic-table cs topic second.0 second.1 valid').1 (held', matches') in
    InOrder-Precedes less (sort-InOrder (matching topic (collect (split topic) index.root))) a b
