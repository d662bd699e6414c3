-- ===== src/Subscription/Added.antt =====
-- An item that `add` of subscription_index.py puts into the trie.
use fast_mqtt.Prelude.{
  ℕ, ◌≡◌, ◌↔◌, refl, sym, ◌∙◌, subst, List, [], ◌∷◌, ◌++◌, true, false, ◌&&◌, none, some, inl, inr,
  Bool-cases,
}
use fast_mqtt.Prelude.{◌==◌}
use fast_mqtt.Dict.{Dict, get, put, pop, get-put, get-pop}
use fast_mqtt.Utf8.{Text, text_eq}
use fast_mqtt.Topic.{split}
use fast_mqtt.Topic.Split.{text_key, text_eq_iff}
use fast_mqtt.Subscription.{SubscriptionEntry, Item, Among, here, there, actual_filter_of}
use fast_mqtt.Subscription.Node.{without}
use fast_mqtt.Subscription.Index.{SubscriptionIndex, add_item}
use fast_mqtt.Subscription.Tree.{Hop, same_path, entries_at, entries_at-add_entry}
use fast_mqtt.Subscription.Collect.{Among-append_left, Among-append_right, Among-append}

-- The path of an item's filter
abbrev pub At : List Hop → Item → Type 0
At path item = same_path path (split (actual_filter_of item)) ≡ true

-- An entry stands at a path if the dict has it and the path is that of its filter.
abbrev pub Filed : SubscriptionIndex → Type 0
Filed index =
    (path : List Hop) (item : Item)
    → Among item (entries_at path index.root)
      ↔ ((get item.0 index.entries ≡ some item.1) × At path item)

pub some_injective {ℓ} : {A : Type ℓ} {a b : A} → some a ≡ some b → a ≡ b
some_injective e = cc

pub first :
    (item : Item) (filter : Text) (address : ℕ) {x : Item} {l : List Item}
    → (text_eq x.0 filter && (x.1.address == address)) ≡ false
    → (Among item (without filter address l)
        → Among item l × ((text_eq item.0 filter && (item.1.address == address)) ≡ false))
    → Among item (x ∷ without filter address l)
    → Among item (x ∷ l) × ((text_eq item.0 filter && (item.1.address == address)) ≡ false)
first item filter address kept ih here = (here, kept)
first item filter address kept ih (there b) = let (c, e) = ih b in (there c, e)

pub Among-without :
    (item : Item) (filter : Text) (address : ℕ) (l : List Item)
    → Among item (without filter address l)
    → Among item l × ((text_eq item.0 filter && (item.1.address == address)) ≡ false)
unfolding without
Among-without item filter address [] a = elim a [ ]
Among-without item filter address (x ∷ l) a =
    elim (Bool-cases (text_eq x.0 filter && (x.1.address == address))) [
      | inl dropped ↦
          let (b, e) = Among-without item filter address l (rw dropped at a) in (there b, e)
      | inr kept ↦
          first item filter address kept (Among-without item filter address l) (rw kept at a)
    ]

pub without-Among :
    (item : Item) (filter : Text) (address : ℕ) {l : List Item}
    → Among item l
    → text_eq item.0 filter ≡ false
    → Among item (without filter address l)
unfolding without
without-Among item filter address (here {items = l}) other = rw other here
without-Among item filter address (there {other = x} {items = l} a) other =
    elim (Bool-cases (text_eq x.0 filter && (x.1.address == address))) [
      | inl dropped ↦ rw dropped (without-Among item filter address a other)
      | inr kept ↦ rw kept (there (without-Among item filter address a other))
    ]

pub get-put_same :
    (j k : Text) (v : SubscriptionEntry) (d : Dict Text SubscriptionEntry)
    → text_eq k j ≡ true
    → get j (put k v d) ≡ some v
get-put_same j k v d same = get-put j k v d ∙ rw same refl

pub get-put_other :
    (j k : Text) (v : SubscriptionEntry) (d : Dict Text SubscriptionEntry)
    → text_eq k j ≡ false
    → get j (put k v d) ≡ get j d
get-put_other j k v d other = get-put j k v d ∙ rw other refl

pub get-pop_other :
    (j k : Text) (d : Dict Text SubscriptionEntry) → text_eq k j ≡ false → get j (pop k d) ≡ get j d
get-pop_other j k d other = get-pop j k d ∙ rw other refl

pub Among-single : {item new : Item} → Among item (new ∷ []) → item ≡ new
Among-single here = refl
Among-single (there a) = elim a [ ]

pub text_eq_refl : (s : Text) → text_eq s s ≡ true
text_eq_refl s = (text_eq_iff s s).1 refl

pub text_eq_symm : (s t : Text) → text_eq s t ≡ false → text_eq t s ≡ false
text_eq_symm s t other = elim (Bool-cases (text_eq t s)) [
  | inl same ↦ let e = (text_eq_iff s t).1 (sym ((text_eq_iff t s).0 same)) in cc
  | inr e ↦ e
]

pub old-add_item :
    (new item : Item) (index : SubscriptionIndex) (path : List Hop)
    → get new.0 index.entries ≡ none
    → Filed index
    → Among item (entries_at path index.root)
    → (get item.0 (put new.0 new.1 index.entries) ≡ some item.1) × At path item
old-add_item new item index path fresh filed a =
    let (e, p) = (filed path item).0 a in
    elim (Bool-cases (text_eq new.0 item.0)) [
      | inl same ↦
          let k =
            subst (λ s. get s index.entries ≡ none) ((text_eq_iff new.0 item.0).0 same) fresh in
          absurd (cc)
      | inr other ↦ (get-put_other item.0 new.0 new.1 index.entries other ∙ e, p)
    ]

pub item_ext : (new item : Item) → new.0 ≡ item.0 → new.1 ≡ item.1 → new ≡ item
item_ext new item p q = λ i. (p i, q i)

pub Filed-add_item :
    (new : Item) (index : SubscriptionIndex)
    → get new.0 index.entries ≡ none
    → Filed index
    → Filed (add_item new index)
unfolding add_item
Filed-add_item new index fresh filed path item =
    let parts = split (actual_filter_of new) in
    let before = entries_at path index.root in
    let at_path = entries_at-add_entry path parts new index.root in
    let old = old-add_item new item index path fresh filed in
    elim (Bool-cases (same_path path parts)) [
      | inl same ↦
          rw (at_path, same)
            (
              λ a. elim (Among-append before (new ∷ []) a) [
                | inl b ↦ old b
                | inr b ↦
                    subst (λ x. (get x.0 (put new.0 new.1 index.entries) ≡ some x.1) × At path x)
                      (sym (Among-single b))
                      (get-put_same new.0 new.0 new.1 index.entries (text_eq_refl new.0), same)
              ],
              λ h. elim (Bool-cases (text_eq new.0 item.0)) [
                | inl also ↦
                    let e =
                      some_injective
                        (sym (get-put_same item.0 new.0 new.1 index.entries also) ∙ h.0) in
                    subst (λ x. Among x (before ++ new ∷ []))
                      (item_ext new item ((text_eq_iff new.0 item.0).0 also) e)
                      (Among-append_right before here)
                | inr other ↦ Among-append_left _ (
                    (filed path item).1
                      (sym (get-put_other item.0 new.0 new.1 index.entries other) ∙ h.0, h.1))
              ],
            )
      | inr away ↦
          rw (at_path, away)
            (
              old,
              λ h. elim (Bool-cases (text_eq new.0 item.0)) [
                | inl also ↦
                    let e =
                      some_injective
                        (sym (get-put_same item.0 new.0 new.1 index.entries also) ∙ h.0) in
                    let p =
                      subst (At path)
                        (sym (item_ext new item ((text_eq_iff new.0 item.0).0 also) e)) h.1 in
                    absurd (cc)
                | inr other ↦
                    (filed path item).1
                      (sym (get-put_other item.0 new.0 new.1 index.entries other) ∙ h.0, h.1)
              ],
            )
    ]
