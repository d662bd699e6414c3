-- ===== src/Subscription/Best.antt =====
-- `_select_from` of subscription_index.py: the lemmas on the order of specificities, on `min`
-- and on the winners.
use fast_mqtt.Prelude.{
  ℕ, ◌≡◌, refl, sym, subst, List, [], ◌∷◌, true, false, some, Bool-cases, inl, inr, arith,
}
use fast_mqtt.Prelude.{if◌then◌else◌, ok}
use fast_mqtt.Utf8.{text_eq}
use fast_mqtt.Topic.Split.{text_eq_iff}
use fast_mqtt.Subscription.{
  Among, here, there, Item, SubscriptionSelection, item_key, tuple_less, min_key, winners,
  selection_of, select_from,
}

pub tuple_less_irrefl : (s : List ℕ) → tuple_less s s ≡ false
unfolding tuple_less
tuple_less_irrefl [] = refl
tuple_less_irrefl (a ∷ s) = let rest = tuple_less_irrefl s in ground arith

-- The order has no cycles of two or three.
pub tuple_less_mono :
    (s t u : List ℕ) → tuple_less s t ≡ true → tuple_less u t ≡ false → tuple_less u s ≡ false
unfolding tuple_less
tuple_less_mono [] [] u h k = absurd (cc)
tuple_less_mono [] (b ∷ t) [] h k = absurd (cc)
tuple_less_mono [] (b ∷ t) (c ∷ u) h k = refl
tuple_less_mono (a ∷ s) [] u h k = absurd (cc)
tuple_less_mono (a ∷ s) (b ∷ t) [] h k = absurd (cc)
tuple_less_mono (a ∷ s) (b ∷ t) (c ∷ u) h k = let rest = tuple_less_mono s t u in ground arith

min_key-bound :
    (x best : List ℕ) (items : List Item)
    → tuple_less x best ≡ false
    → tuple_less x (min_key best items) ≡ false
unfolding min_key
min_key-bound x best [] h = h
min_key-bound x best (item ∷ items) h = elim (Bool-cases (tuple_less (item_key item) best)) [
  | inl less ↦
      rw less
        (min_key-bound x (item_key item) items (tuple_less_mono (item_key item) best x less h))
  | inr more ↦ rw more (min_key-bound x best items h)
]

min_key-least :
    {item : Item} {items : List Item} (best : List ℕ)
    → Among item items
    → tuple_less (item_key item) (min_key best items) ≡ false
unfolding min_key
min_key-least {item = item} best (here {items = items}) =
    elim (Bool-cases (tuple_less (item_key item) best)) [
      | inl less ↦
          rw less (
            min_key-bound (item_key item) (item_key item) items (tuple_less_irrefl (item_key item)))
      | inr more ↦ rw more (min_key-bound (item_key item) best items more)
    ]
min_key-least best (there {other = other} {items = items} a) =
    min_key-least (if tuple_less (item_key other) best then item_key other else best) a

-- The least key is the key of a candidate.
min_key-Among :
    (first : Item) (items : List Item)
    → (item : Item) × Among item (first ∷ items) × (item_key item ≡ min_key (item_key first) items)
unfolding min_key
min_key-Among first [] = (first, here, refl)
min_key-Among first (next ∷ items) =
    elim (Bool-cases (tuple_less (item_key next) (item_key first))) [
      | inl less ↦ let (item, a, e) = min_key-Among next items in (item, there a, rw less e)
      | inr more ↦ skip (min_key-Among first items) more
    ]
  where
    skip :
        ((item : Item) × Among item (first ∷ items)
          × (item_key item ≡ min_key (item_key first) items))
        → tuple_less (item_key next) (item_key first) ≡ false
        → (item : Item) × Among item (first ∷ next ∷ items)
          × (item_key item
              ≡ min_key
                  (if tuple_less (item_key next) (item_key first)
                    then item_key next
                    else item_key first)
                  items)
    skip (item, here, e) more = (item, here, rw more e)
    skip (item, there a, e) more = (item, there (there a), rw more e)

winners-first :
    (key : List ℕ) {item : Item} {items : List Item}
    → Among item items
    → item_key item ≡ key
    → (winner : Item) × (more : List Item) × (winners key items ≡ winner ∷ more)
      × Among winner items
      × (item_key winner ≡ key)
unfolding winners
winners-first key {item = item} (here {items = items}) e =
    let (_, same) = text_eq_iff (item_key item) key in
    (item, winners key items, rw (same e) refl, here, e)
winners-first key (there {other = other} {items = items} a) e =
    elim (Bool-cases (text_eq (item_key other) key)) [
      | inl same ↦
          let (is_key, _) = text_eq_iff (item_key other) key in
          (other, winners key items, rw same refl, here, is_key same)
      | inr different ↦
          let (winner, more, w, b, k) = winners-first key a e in
          (winner, more, rw different w, there b, k)
    ]

selection_of-recipient :
    (item : Item) (items : List Item)
    → (selection : SubscriptionSelection) × (selection_of (item ∷ items) ≡ ok selection)
      × (selection.recipient ≡ some item)
selection_of-recipient item [] = (_, refl, refl)
selection_of-recipient item (next ∷ items) = (_, refl, refl)

-- Of one or more candidates, `_select_from` chooses one, and it raises nothing; no candidate's
-- specificity is less than that of the one chosen.
pub select_from-best :
    (first : Item) (items : List Item)
    → (selection : SubscriptionSelection) × (item : Item) × (select_from (first ∷ items)
        ≡ ok selection)
      × (selection.recipient ≡ some item)
      × Among item (first ∷ items)
      × ((other : Item)
          → Among other (first ∷ items)
          → tuple_less (item_key other) (item_key item) ≡ false)
unfolding select_from
select_from-best first items =
    let best = min_key (item_key first) items in
    let (candidate, a, e) = min_key-Among first items in
    let (item, more, w, b, k) = winners-first best a e in
    let (selection, chosen, is_item) = selection_of-recipient item more in
    (
      selection,
      item,
      rw w chosen,
      is_item,
      b,
      λ other c. subst (λ s. tuple_less (item_key other) s ≡ false) (sym k) (least other c),
    )
  where
    least :
        (other : Item)
        → Among other (first ∷ items)
        → tuple_less (item_key other) (min_key (item_key first) items) ≡ false
    least other here =
        min_key-bound (item_key other) (item_key other) items (tuple_less_irrefl (item_key other))
    least other (there c) = min_key-least (item_key first) c
