-- ===== src/Protocol/RollBack.antt =====
-- `_subscribe` of protocol.py when its request fails.
use fast_mqtt.Prelude.{
  ℕ, suc, ◌≡◌, refl, ap, sym, ◌∙◌, subst, List, [], ◌∷◌, true, false, Option, none, some, inl, inr,
  Bool-cases,
}
use fast_mqtt.Prelude.{if◌then◌else◌, ok, err, ok-injective, bind-eq-ok, Error}
use fast_mqtt.Dict.{Dict, get, put, get-put}
use fast_mqtt.Utf8.{Text, text_eq}
use fast_mqtt.Topic.{shared_filter_to_actual}
use fast_mqtt.Topic.Split.{text_key, text_eq_iff}
use fast_mqtt.Packet.{SubscriptionRequest}
use fast_mqtt.Subscription.{SubscriptionEntry}
use fast_mqtt.Subscription.Index.{
  SubscriptionIndex, new_index, contains, add_many, add, remove, is_some,
}
use fast_mqtt.Subscription.Refinement.{Filed-remove}
use fast_mqtt.Subscription.Added.{Filed}
use fast_mqtt.Subscription.Identifiers.{Identified, Identified-remove}
use fast_mqtt.Subscription.Calls.{
  Call, calls, table_of, Holds, calls-Holds, Holds-add_many, entries-add, entries-remove,
}
use fast_mqtt.Protocol.Subscribing.{
  Options, entry_for, register, new_entries, roll_back, subscribe_over,
}

-- The entries are of filters that the index does not have.
abbrev Disjoint : Dict Text SubscriptionEntry → SubscriptionIndex → Type 0
Disjoint entries index = (j : Text) → is_some (get j entries) ≡ true → get j index.entries ≡ none

not_contained : (o : Option SubscriptionEntry) → is_some o ≡ false → o ≡ none
not_contained none h = refl
not_contained (some e) h = absurd (cc)

put-Disjoint :
    (filter : Text) (entry : SubscriptionEntry) (entries : Dict Text SubscriptionEntry)
    (index : SubscriptionIndex)
    → get filter index.entries ≡ none
    → Disjoint entries index
    → Disjoint (put filter entry entries) index
put-Disjoint filter entry entries index fresh apart j h = elim (Bool-cases (text_eq filter j)) [
  | inl same ↦ subst (λ s. get s index.entries ≡ none) ((text_eq_iff filter j).0 same) fresh
  | inr other ↦ apart j (rw (get-put j filter entry entries, other) at h)
]

register-Disjoint :
    (options : Options) (address : ℕ) (filter : Text) (index : SubscriptionIndex)
    (entries more : Dict Text SubscriptionEntry)
    → Disjoint entries index
    → register options address filter index entries ≡ ok more
    → Disjoint more index
unfolding register contains
register-Disjoint options address filter index entries more apart e =
    elim (Bool-cases (is_some (get filter index.entries))) [
      | inl known ↦ subst (λ d. Disjoint d index) (ok-injective (rw known at e)) apart
      | inr new ↦
          let (actual, _, done) =
            bind-eq-ok (shared_filter_to_actual filter options.prefixes)
              (λ actual. ok (put filter (entry_for options address actual) entries))
              (rw new at e) in
          subst (λ d. Disjoint d index) (ok-injective done)
            (put-Disjoint filter (entry_for options address actual) entries index
              (not_contained (get filter index.entries) new) apart)
    ]

new_entries-Disjoint :
    (options : Options) (address : ℕ) (reqs : List SubscriptionRequest) (index : SubscriptionIndex)
    (entries more : Dict Text SubscriptionEntry)
    → Disjoint entries index
    → new_entries options address reqs index entries ≡ ok more
    → Disjoint more index
unfolding new_entries
new_entries-Disjoint options address [] index entries more apart e =
    subst (λ d. Disjoint d index) (ok-injective e) apart
new_entries-Disjoint options address (req ∷ reqs) index entries more apart e =
    let (next, first, then_rest) =
      bind-eq-ok (register options address req.topic_filter index entries)
        (new_entries options (suc address) reqs index) e in
    new_entries-Disjoint options (suc address) reqs index next more
      (register-Disjoint options address req.topic_filter index entries next apart first) then_rest

entries-add_many :
    (entries : Dict Text SubscriptionEntry) (index : SubscriptionIndex) (j : Text)
    → is_some (get j entries) ≡ false
    → get j (add_many entries index).entries ≡ get j index.entries
unfolding get add_many
entries-add_many [] index j h = refl
entries-add_many ((filter, entry) ∷ entries) index j h = elim (Bool-cases (text_eq filter j)) [
  | inl same ↦ let no = rw same at h in absurd (cc)
  | inr other ↦
      entries-add_many entries (add filter entry index) j (rw other at h)
      ∙ entries-add filter entry index j
      ∙ rw other refl
]

entries-roll_back :
    (entries : Dict Text SubscriptionEntry) (index : SubscriptionIndex) (j : Text)
    → get j (roll_back entries index).entries
      ≡ (if is_some (get j entries) then none else get j index.entries)
unfolding get roll_back
entries-roll_back [] index j = refl
entries-roll_back ((filter, entry) ∷ entries) index j =
    let ih = entries-roll_back entries (remove filter index).1 j in
    let gone = entries-remove filter index j in
    elim (Bool-cases (text_eq filter j)) [
      | inr other ↦
          rw other
            (ih ∙ ap (λ o. if is_some (get j entries) then none else o) (gone ∙ rw other refl))
      | inl same ↦ rw same (
          ih ∙ elim (Bool-cases (is_some (get j entries))) [
            | inl also ↦ rw also refl
            | inr absent ↦ rw absent (gone ∙ rw same refl)
          ])
    ]

roll_back-Filed :
    (entries : Dict Text SubscriptionEntry) (index : SubscriptionIndex)
    → Filed index
    → Filed (roll_back entries index)
unfolding roll_back
roll_back-Filed [] index h = h
roll_back-Filed ((filter, entry) ∷ entries) index h =
    roll_back-Filed entries (remove filter index).1 (Filed-remove filter index h)

roll_back-Identified :
    (entries : Dict Text SubscriptionEntry) (index : SubscriptionIndex)
    → Identified index
    → Identified (roll_back entries index)
unfolding roll_back
roll_back-Identified [] index h = h
roll_back-Identified ((filter, entry) ∷ entries) index h =
    roll_back-Identified entries (remove filter index).1 (Identified-remove filter index h)

undone :
    (entries : Dict Text SubscriptionEntry) (index : SubscriptionIndex)
    → Disjoint entries index
    → (j : Text) → get j (roll_back entries (add_many entries index)).entries ≡ get j index.entries
undone entries index apart j =
    entries-roll_back entries (add_many entries index) j
    ∙ elim (Bool-cases (is_some (get j entries))) [
      | inl new ↦ rw new (sym (apart j new))
      | inr other ↦ rw other (entries-add_many entries index j other)
    ]

no_entry : (index : SubscriptionIndex) → Disjoint [] index
unfolding get
no_entry index j h = absurd (cc)

-- After any calls on a new index, if `_subscribe` registers its new entries, its request fails and
-- the index did not change meanwhile, then the index holds the same table of entries as before, with
-- each in its place in the trie and in the dicts of the identifiers.
pub failed_subscribe-Holds :
    (cs : List Call) (options : Options) (address : ℕ) (reqs : List SubscriptionRequest)
    (entries : Dict Text SubscriptionEntry) (e : Error)
    → new_entries options address reqs (calls cs new_index) [] ≡ ok entries
    → Holds
        (table_of cs (λ j. none))
        (subscribe_over (err e) entries (add_many entries (calls cs new_index)))
unfolding subscribe_over
failed_subscribe-Holds cs options address reqs entries e found =
    let index = calls cs new_index in
    let held = calls-Holds cs in
    let (filed, known, _) = Holds-add_many entries (table_of cs (λ j. none)) index held in
    let apart = new_entries-Disjoint options address reqs index [] entries (no_entry index) found in
    let (_, _, same) = held in
    (
      roll_back-Filed entries (add_many entries index) filed,
      roll_back-Identified entries (add_many entries index) known,
      λ j. undone entries index apart j ∙ same j,
    )
