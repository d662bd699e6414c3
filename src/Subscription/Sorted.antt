-- ===== src/Subscription/Sorted.antt =====
-- `sorted` in `match` of subscription_index.py.
use fast_mqtt.Prelude.{ℕ, ◌≡◌, refl, List, [], ◌∷◌, true, false, inl, inr, Bool-cases, arith}
use fast_mqtt.Subscription.{Item, Among, here, there, item_key, tuple_less}
use fast_mqtt.Subscription.Index.{insert_by_key, sort_by_key}
use fast_mqtt.Subscription.Best.{tuple_less_irrefl, tuple_less_mono}

swap :
    {x item y : Item} {l inserted : List Item}
    → (Among x (item ∷ l) → Among x inserted)
    → Among x (item ∷ y ∷ l)
    → Among x (y ∷ inserted)
swap ih here = there (ih here)
swap ih (there here) = here
swap ih (there (there a)) = there (ih (there a))

swap_back :
    {x item y : Item} {l inserted : List Item}
    → (Among x inserted → Among x (item ∷ l))
    → Among x (y ∷ inserted)
    → Among x (item ∷ y ∷ l)
swap_back ih here = there here
swap_back ih (there a) = under (ih a)
  where
    under : {x item y : Item} {l : List Item} → Among x (item ∷ l) → Among x (item ∷ y ∷ l)
    under here = here
    under (there b) = there (there b)

Among-insert : (x item : Item) (l : List Item) → Among x (item ∷ l) → Among x (insert_by_key item l)
unfolding insert_by_key
Among-insert x item [] a = a
Among-insert x item (y ∷ l) a = elim (Bool-cases (tuple_less (item_key y) (item_key item))) [
  | inl less ↦ rw less (swap (Among-insert x item l) a)
  | inr more ↦ rw more a
]

insert-Among : (x item : Item) (l : List Item) → Among x (insert_by_key item l) → Among x (item ∷ l)
unfolding insert_by_key
insert-Among x item [] a = a
insert-Among x item (y ∷ l) a = elim (Bool-cases (tuple_less (item_key y) (item_key item))) [
  | inl less ↦ swap_back (insert-Among x item l) (rw less at a)
  | inr more ↦ rw more at a
]

pub Among-sort : (x : Item) {l : List Item} → Among x l → Among x (sort_by_key l)
unfolding sort_by_key
Among-sort x (here {items = l}) = Among-insert x x (sort_by_key l) here
Among-sort x (there {other = y} {items = l} a) =
    Among-insert x y (sort_by_key l) (there (Among-sort x a))

after_first :
    {x y : Item} {l m : List Item} → (Among x m → Among x l) → Among x (y ∷ m) → Among x (y ∷ l)
after_first f here = here
after_first f (there a) = there (f a)

pub sort-Among : (x : Item) (l : List Item) → Among x (sort_by_key l) → Among x l
unfolding sort_by_key
sort-Among x [] a = a
sort-Among x (y ∷ l) a = after_first (sort-Among x l) (insert-Among x y (sort_by_key l) a)

-- No item has a lesser specificity than an item before it.
pub data InOrder : List Item → Type 0 where
  no_item : InOrder []
  before :
      {item : Item} {items : List Item}
      → ((other : Item) → Among other items → tuple_less (item_key other) (item_key item) ≡ false)
      → InOrder items
      → InOrder (item ∷ items)

less_asymm : (s t : List ℕ) → tuple_less s t ≡ true → tuple_less t s ≡ false
less_asymm s t h = tuple_less_mono s t t h (tuple_less_irrefl t)

tuple_less_trans :
    (s t u : List ℕ) → tuple_less s t ≡ false → tuple_less t u ≡ false → tuple_less s u ≡ false
unfolding tuple_less
tuple_less_trans [] [] u h k = k
tuple_less_trans [] (b ∷ t) u h k = absurd (cc)
tuple_less_trans (a ∷ s) t [] h k = refl
tuple_less_trans (a ∷ s) [] (c ∷ u) h k = absurd (cc)
tuple_less_trans (a ∷ s) (b ∷ t) (c ∷ u) h k = let rest = tuple_less_trans s t u in ground arith

no_less_than :
    (item y : Item) {l : List Item}
    → tuple_less (item_key y) (item_key item) ≡ false
    → ((other : Item) → Among other l → tuple_less (item_key other) (item_key y) ≡ false)
    → (other : Item) → Among other (y ∷ l)
    → tuple_less (item_key other) (item_key item) ≡ false
no_less_than item y more least other here = more
no_less_than item y more least other (there a) =
    tuple_less_trans (item_key other) (item_key y) (item_key item) (least other a) more

still_least :
    (item y : Item) {l : List Item}
    → tuple_less (item_key y) (item_key item) ≡ true
    → ((other : Item) → Among other l → tuple_less (item_key other) (item_key y) ≡ false)
    → (other : Item) → Among other (item ∷ l)
    → tuple_less (item_key other) (item_key y) ≡ false
still_least item y less least other here = less_asymm (item_key y) (item_key item) less
still_least item y less least other (there a) = least other a

insert-InOrder : (item : Item) {l : List Item} → InOrder l → InOrder (insert_by_key item l)
unfolding insert_by_key
insert-InOrder item no_item = before (λ other a. elim a [ ]) no_item
insert-InOrder item (before {item = y} {items = l} least o) =
    elim (Bool-cases (tuple_less (item_key y) (item_key item))) [
      | inl less ↦ rw less (
          before (λ other a. still_least item y less least other (insert-Among other item l a))
            (insert-InOrder item o))
      | inr more ↦ rw more (before (no_less_than item y more least) (before least o))
    ]

pub sort-InOrder : (l : List Item) → InOrder (sort_by_key l)
unfolding sort_by_key
sort-InOrder [] = no_item
sort-InOrder (item ∷ l) = insert-InOrder item (sort-InOrder l)

-- The first item stands somewhere before the second.
pub data Precedes (first second : Item) : List Item → Type 0 where
  then_later : {items : List Item} → Among second items → Precedes first second (first ∷ items)
  further :
      {item : Item} {items : List Item}
      → Precedes first second items
      → Precedes first second (item ∷ items)

pub InOrder-Precedes :
    {first second : Item} {items : List Item}
    → tuple_less (item_key first) (item_key second) ≡ true
    → InOrder items
    → Among first items
    → Among second items
    → Precedes first second items
InOrder-Precedes {first = first} less o here here =
    let no = tuple_less_irrefl (item_key first) in absurd (cc)
InOrder-Precedes less o here (there b) = then_later b
InOrder-Precedes {first = first} less (before least o) (there a) here =
    let no = least first a in absurd (cc)
InOrder-Precedes less (before least o) (there a) (there b) = further (InOrder-Precedes less o a b)
