-- ===== src/Subscription/Refinement.antt =====
-- `add`, `remove` and `clear` of subscription_index.py: the trie holds an entry of the dict at the
-- path of its filter and nothing else, and the dict is the table of the entries last added.
use fast_mqtt.Prelude.{
  ◌≡◌, refl, sym, ◌∙◌, subst, List, true, false, ◌&&◌, none, some, inl, inr, Bool-cases,
  Option-cases,
}
use fast_mqtt.Prelude.{◌==◌, ==_iff}
use fast_mqtt.Dict.{Dict, get, pop, get-pop}
use fast_mqtt.Utf8.{Text, text_eq}
use fast_mqtt.Topic.{split}
use fast_mqtt.Topic.Split.{text_key, text_eq_iff}
use fast_mqtt.Subscription.{SubscriptionEntry, Item, Among, actual_filter_of}
use fast_mqtt.Subscription.Index.{SubscriptionIndex, new_index, remove_item, remove, add}
use fast_mqtt.Subscription.Tree.{
  Hop, same_path, entries_at, entries_at-empty, entries_at-remove_entry,
}
use fast_mqtt.Subscription.Added.{
  At, Filed, some_injective, Among-without, without-Among, get-pop_other, text_eq_refl,
  text_eq_symm, item_ext, Filed-add_item,
}

is_itself :
    (gone item : Item)
    → gone ≡ item
    → (text_eq item.0 gone.0 && (item.1.address == gone.1.address)) ≡ true
is_itself gone item e =
    subst (λ x. (text_eq x.0 gone.0 && (x.1.address == gone.1.address)) ≡ true) e
      (let s = text_eq_refl gone.0 in
        let a = (==_iff gone.1.address gone.1.address).1 refl in rw (s, a) refl)

-- What an entry of the trie is after `remove`, if it is not the one that goes
kept_item :
    (gone item : Item) (index : SubscriptionIndex) (path : List Hop)
    → Filed index
    → Among item (entries_at path index.root)
    → text_eq gone.0 item.0 ≡ false
    → (get item.0 (pop gone.0 index.entries) ≡ some item.1) × At path item
kept_item gone item index path filed a other =
    let (e, p) = (filed path item).0 a in (get-pop_other item.0 gone.0 index.entries other ∙ e, p)

same_item :
    (gone item : Item) (index : SubscriptionIndex) (path : List Hop)
    → get gone.0 index.entries ≡ some gone.1
    → Filed index
    → Among item (entries_at path index.root)
    → text_eq gone.0 item.0 ≡ true
    → gone ≡ item
same_item gone item index path held filed a same =
    let k = (text_eq_iff gone.0 item.0).0 same in
    let (e, _) = (filed path item).0 a in
    item_ext gone item k
      (some_injective (sym held ∙ subst (λ s. get s index.entries ≡ some item.1) (sym k) e))

pub not_popped :
    (gone item : Item) (d : Dict Text SubscriptionEntry)
    → get item.0 (pop gone.0 d) ≡ some item.1
    → text_eq gone.0 item.0 ≡ false
not_popped gone item d e = elim (Bool-cases (text_eq gone.0 item.0)) [
  | inl same ↦ let k = get-pop item.0 gone.0 d in let n = rw same at k in absurd (cc)
  | inr other ↦ other
]

pub Filed-remove_item :
    (gone : Item) (index : SubscriptionIndex)
    → get gone.0 index.entries ≡ some gone.1
    → Filed index
    → Filed (remove_item gone index)
unfolding remove_item
Filed-remove_item gone index held filed path item =
    let parts = split (actual_filter_of gone) in
    let before = entries_at path index.root in
    let at_path = entries_at-remove_entry path parts gone.0 gone.1.address index.root in
    elim (Bool-cases (same_path path parts)) [
      | inl same ↦
          rw (at_path, same)
            (
              λ a.
                  let (b, n) = Among-without item gone.0 gone.1.address before a in
                  elim (Bool-cases (text_eq gone.0 item.0)) [
                    | inl also ↦
                        let y =
                          is_itself gone item (same_item gone item index path held filed b also) in
                        absurd (cc)
                    | inr other ↦ kept_item gone item index path filed b other
                  ],
              λ h.
                  let other = not_popped gone item index.entries h.0 in
                  without-Among item gone.0 gone.1.address
                    ((filed path item).1
                      (sym (get-pop_other item.0 gone.0 index.entries other) ∙ h.0, h.1))
                    (text_eq_symm gone.0 item.0 other),
            )
      | inr away ↦
          rw (at_path, away)
            (
              λ b. elim (Bool-cases (text_eq gone.0 item.0)) [
                | inl also ↦
                    let (_, p) = (filed path item).0 b in
                    let q =
                      subst (At path) (sym (same_item gone item index path held filed b also)) p in
                    absurd (cc)
                | inr other ↦ kept_item gone item index path filed b other
              ],
              λ h.
                  let other = not_popped gone item index.entries h.0 in
                  (filed path item).1
                    (sym (get-pop_other item.0 gone.0 index.entries other) ∙ h.0, h.1),
            )
    ]

pub Filed-remove :
    (filter : Text) (index : SubscriptionIndex) → Filed index → Filed (remove filter index).1
unfolding remove
Filed-remove filter index filed = elim (Option-cases (get filter index.entries)) [
  | inl missing ↦ rw (missing, remove) filed
  | inr (entry, held) ↦ rw (held, remove) (Filed-remove_item (filter, entry) index held filed)
]

pub remove-gone :
    (filter : Text) (index : SubscriptionIndex) → get filter (remove filter index).1.entries ≡ none
unfolding remove remove_item
remove-gone filter index = elim (Option-cases (get filter index.entries)) [
  | inl missing ↦ rw (missing, remove) missing
  | inr (entry, held) ↦
      rw (held, remove)
        (let k = text_eq_refl filter in get-pop filter filter index.entries ∙ rw k refl)
]

pub Filed-add :
    (filter : Text) (entry : SubscriptionEntry) (index : SubscriptionIndex)
    → Filed index
    → Filed (add filter entry index)
unfolding add
Filed-add filter entry index filed =
    Filed-add_item (filter, entry) (remove filter index).1 (remove-gone filter index)
      (Filed-remove filter index filed)

pub Filed-new_index : Filed new_index
unfolding new_index get
Filed-new_index path item = (λ a. elim (rw (entries_at-empty path) at a) [ ], λ h. absurd (cc))
