-- ===== src/Subscription/Identifiers.antt =====
-- `_by_identifier` of subscription_index.py against the dict of the entries.
use fast_mqtt.Prelude.{
  ℕ, ◌≡◌, ◌↔◌, refl, ap, sym, ◌∙◌, subst, [], ◌∷◌, Bool, true, false, ◌&&◌, Option, none, some, inl,
  inr, Bool-cases, Option-cases,
}
use fast_mqtt.Prelude.{if◌then◌else◌, ◌==◌, ==_iff, is_empty}
use fast_mqtt.Dict.{Dict, number_eq, get, put, pop, get-put, get-pop}
use fast_mqtt.Utf8.{Text, text_eq}
use fast_mqtt.Topic.Split.{text_key, text_eq_iff}
use fast_mqtt.Subscription.{SubscriptionEntry, Item}
use fast_mqtt.Subscription.Index.{
  SubscriptionIndex, new_index, dict_or_empty, identify, forget, add_item, remove_item, remove, add,
}
use fast_mqtt.Subscription.Refinement.{remove-gone}
use fast_mqtt.Subscription.Added.{some_injective, get-put_same, get-put_other, get-pop_other}

-- `_by_identifier` gives a filter an entry exactly when the dict does and the entry has the
-- identifier.
abbrev pub Identified : SubscriptionIndex → Type 0
Identified index =
    (identifier : ℕ) (filter : Text) (entry : SubscriptionEntry)
    → (get filter (dict_or_empty (get identifier index.by_identifier)) ≡ some entry) ↔ (
        (get filter index.entries ≡ some entry) × (entry.subscription_identifier ≡ some identifier))

unfoldable names : Option ℕ → ℕ → Bool
names none i = false
names (some j) i = j == i

names-eq : (o : Option ℕ) (i : ℕ) → names o i ≡ true → o ≡ some i
unfolding names
names-eq none i h = absurd (cc)
names-eq (some j) i h = ap some ((==_iff j i).0 h)

eq-names : (o : Option ℕ) (i : ℕ) → o ≡ some i → names o i ≡ true
unfolding names
eq-names none i h = absurd (cc)
eq-names (some j) i h = (==_iff j i).1 (some_injective h)

get-identify :
    (o : Option ℕ) (item : Item) (d : Dict ℕ (Dict Text SubscriptionEntry)) (i : ℕ) (j : Text)
    → get j (dict_or_empty (get i (identify o item d)))
      ≡ (if names o i && text_eq item.0 j then some item.1 else get j (dict_or_empty (get i d)))
unfolding identify names
get-identify none item d i j = refl
get-identify (some k) item d i j = elim (Bool-cases (k == i)) [
  | inl same ↦
      let e = (==_iff k i).0 same in
      let g = get-put i k (put item.0 item.1 (dict_or_empty (get k d))) d in
      rw (g, same) (get-put j item.0 item.1 (dict_or_empty (get k d)) ∙ rw e refl)
  | inr other ↦
      let g = get-put i k (put item.0 item.1 (dict_or_empty (get k d))) d in rw (g, other) refl
]

dict_or_empty-kept :
    (r : Dict Text SubscriptionEntry) → dict_or_empty (if is_empty r then none else some r) ≡ r
dict_or_empty-kept [] = refl
dict_or_empty-kept (x ∷ r) = refl

get-kept :
    (i k : ℕ) (r : Dict Text SubscriptionEntry) (d : Dict ℕ (Dict Text SubscriptionEntry))
    → get i (if is_empty r then pop k d else put k r d)
      ≡ (if k == i then (if is_empty r then none else some r) else get i d)
get-kept i k [] d = get-pop i k d
get-kept i k (x ∷ r) d = get-put i k (x ∷ r) d

-- The dict of an identifier after `forget`
forget-some :
    (k : ℕ) (filter : Text) (d : Dict ℕ (Dict Text SubscriptionEntry))
    (m : Dict Text SubscriptionEntry) (i : ℕ) (j : Text)
    → get k d ≡ some m
    → get j (
        dict_or_empty (get i (if is_empty (pop filter m) then pop k d else put k (pop filter m) d)))
      ≡ (if (k == i) && text_eq filter j then none else get j (dict_or_empty (get i d)))
forget-some k filter d m i j held =
    let g = get-kept i k (pop filter m) d in
    elim (Bool-cases (k == i)) [
      | inr other ↦ rw (g, other) refl
      | inl same ↦
          let there = subst (λ n. get n d ≡ some m) ((==_iff k i).0 same) held in
          rw (g, same, there, dict_or_empty-kept (pop filter m)) (get-pop j filter m)
    ]

forget-none :
    (k : ℕ) (filter : Text) (d : Dict ℕ (Dict Text SubscriptionEntry)) (i : ℕ) (j : Text)
    → get k d ≡ none
    → get j (dict_or_empty (get i d))
      ≡ (if (k == i) && text_eq filter j then none else get j (dict_or_empty (get i d)))
unfolding get
forget-none k filter d i j missing = elim (Bool-cases (k == i)) [
  | inr other ↦ rw other refl
  | inl same ↦
      let there = subst (λ n. get n d ≡ none) ((==_iff k i).0 same) missing in
      elim (Bool-cases (text_eq filter j)) [
        | inl also ↦ rw (same, also, there) refl
        | inr not_j ↦ rw (same, not_j) refl
      ]
]

get-forget :
    (o : Option ℕ) (filter : Text) (d : Dict ℕ (Dict Text SubscriptionEntry)) (i : ℕ) (j : Text)
    → get j (dict_or_empty (get i (forget o filter d)))
      ≡ (if names o i && text_eq filter j then none else get j (dict_or_empty (get i d)))
unfolding forget names
get-forget none filter d i j = refl
get-forget (some k) filter d i j = elim (Option-cases (get k d)) [
  | inr (m, held) ↦ rw (held, forget) (forget-some k filter d m i j held)
  | inl missing ↦ rw (missing, forget) (forget-none k filter d i j missing)
]

has_name :
    {i : ℕ} {b : SubscriptionEntry} (a : SubscriptionEntry)
    → a ≡ b
    → b.subscription_identifier ≡ some i
    → names a.subscription_identifier i ≡ true
has_name {i = i} a e n =
    eq-names a.subscription_identifier i
      (ap (λ (x : SubscriptionEntry). x.subscription_identifier) e ∙ n)

Identified-add_item :
    (new : Item) (index : SubscriptionIndex)
    → get new.0 index.entries ≡ none
    → Identified index
    → Identified (add_item new index)
unfolding add_item
Identified-add_item new index fresh known i j entry =
    let o = new.1.subscription_identifier in
    let g = get-identify o new index.by_identifier i j in
    elim (Bool-cases (text_eq new.0 j)) [
      | inr other ↦ elim (Bool-cases (names o i)) [
        | inl named ↦
            rw (g, get-put_other j new.0 new.1 index.entries other, named, other) (known i j entry)
        | inr not_named ↦
            rw (g, get-put_other j new.0 new.1 index.entries other, not_named) (known i j entry)
      ]
      | inl same ↦
          let fresh_j =
            subst (λ s. get s index.entries ≡ none) ((text_eq_iff new.0 j).0 same) fresh in
          elim (Bool-cases (names o i)) [
            | inl named ↦
                rw (g, get-put_same j new.0 new.1 index.entries same, named, same)
                  (
                    λ e. (
                      e,
                      ap (λ (x : SubscriptionEntry). x.subscription_identifier)
                            (sym (some_injective e))
                          ∙ names-eq o i named,
                    ),
                    λ h. h.0,
                  )
            | inr not_named ↦
                rw (g, get-put_same j new.0 new.1 index.entries same, not_named)
                  (
                    λ e. let (h, _) = (known i j entry).0 e in absurd (cc),
                    λ h. let n = has_name new.1 (some_injective h.0) h.1 in absurd (cc),
                  )
          ]
    ]

Identified-remove_item :
    (gone : Item) (index : SubscriptionIndex)
    → get gone.0 index.entries ≡ some gone.1
    → Identified index
    → Identified (remove_item gone index)
unfolding remove_item
Identified-remove_item gone index held known i j entry =
    let o = gone.1.subscription_identifier in
    let g = get-forget o gone.0 index.by_identifier i j in
    elim (Bool-cases (text_eq gone.0 j)) [
      | inr other ↦ elim (Bool-cases (names o i)) [
        | inl named ↦
            rw (g, get-pop_other j gone.0 index.entries other, named, other) (known i j entry)
        | inr not_named ↦
            rw (g, get-pop_other j gone.0 index.entries other, not_named) (known i j entry)
      ]
      | inl same ↦
          let held_j =
            subst (λ s. get s index.entries ≡ some gone.1) ((text_eq_iff gone.0 j).0 same) held in
          let no_entry : get j (pop gone.0 index.entries) ≡ none =
            get-pop j gone.0 index.entries ∙ rw same refl in
          elim (Bool-cases (names o i)) [
            | inl named ↦
                rw (g, no_entry, named, same) (λ e. absurd (cc), λ h. let n = h.0 in absurd (cc))
            | inr not_named ↦
                rw (g, no_entry, not_named)
                  (
                    λ e.
                        let (h, k) = (known i j entry).0 e in
                        let n = has_name gone.1 (some_injective (sym held_j ∙ h)) k in absurd (cc),
                    λ h. let n = h.0 in absurd (cc),
                  )
          ]
    ]

pub Identified-remove :
    (filter : Text) (index : SubscriptionIndex)
    → Identified index
    → Identified (remove filter index).1
unfolding remove
Identified-remove filter index known = elim (Option-cases (get filter index.entries)) [
  | inl missing ↦ rw (missing, remove) known
  | inr (entry, held) ↦ rw (held, remove) (Identified-remove_item (filter, entry) index held known)
]

pub Identified-add :
    (filter : Text) (entry : SubscriptionEntry) (index : SubscriptionIndex)
    → Identified index
    → Identified (add filter entry index)
unfolding add
Identified-add filter entry index known =
    Identified-add_item (filter, entry) (remove filter index).1 (remove-gone filter index)
      (Identified-remove filter index known)

pub Identified-new_index : Identified new_index
unfolding new_index get
Identified-new_index i j entry = (λ e. absurd (cc), λ h. let n = h.0 in absurd (cc))
