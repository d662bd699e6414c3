-- ===== src/Subscription/Calls.antt =====
-- The calls that change a `SubscriptionIndex` of subscription_index.py against a table of entries.
use fast_mqtt.Prelude.{
  ◌≡◌, refl, ap, ◌∙◌, subst, List, [], ◌∷◌, Bool, true, false, Option, none, some, inl, inr,
  Bool-cases, Option-cases,
}
use fast_mqtt.Prelude.{if◌then◌else◌}
use fast_mqtt.Dict.{Dict, get, get-put, get-pop}
use fast_mqtt.Utf8.{Text, text_eq}
use fast_mqtt.Topic.Split.{text_key, text_eq_iff}
use fast_mqtt.Subscription.{SubscriptionEntry}
use fast_mqtt.Subscription.Index.{
  SubscriptionIndex, new_index, add_item, remove_item, remove, add, add_many, clear,
  add_response_observer, remove_response_observer,
}
use fast_mqtt.Subscription.Refinement.{Filed-remove, Filed-add, Filed-new_index}
use fast_mqtt.Subscription.Added.{Filed}
use fast_mqtt.Subscription.Identifiers.{
  Identified, Identified-remove, Identified-add, Identified-new_index,
}

-- A call of a method that changes the index
pub data Call : Type 0 where
  adds : Text → SubscriptionEntry → Call
  adds_many : Dict Text SubscriptionEntry → Call
  removes : Text → Call
  clears : Call
  observes : Text → Call
  unobserves : Text → Call

unfoldable pub call : Call → SubscriptionIndex → SubscriptionIndex
unfolding add add_many remove clear add_response_observer remove_response_observer
call (adds filter entry) index = add filter entry index
call (adds_many entries) index = add_many entries index
call (removes filter) index = (remove filter index).1
call clears index = clear index
call (observes topic) index = (add_response_observer topic index).1
call (unobserves topic) index = (remove_response_observer topic index).1

unfoldable pub calls : List Call → SubscriptionIndex → SubscriptionIndex
unfolding call
calls [] index = index
calls (c ∷ cs) index = calls cs (call c index)

-- The entry of each filter, which is what the calls mean.
abbrev pub Table : Type 0
Table = Text → Option SubscriptionEntry

abbrev pub with_entry : Text → Option SubscriptionEntry → Table → Table
with_entry filter entry table j = if text_eq filter j then entry else table j

abbrev pub with_entries : Dict Text SubscriptionEntry → Table → Table
with_entries [] table = table
with_entries ((filter, entry) ∷ more) table =
    with_entries more (with_entry filter (some entry) table)

abbrev pub meaning : Call → Table → Table
meaning (adds filter entry) table = with_entry filter (some entry) table
meaning (adds_many entries) table = with_entries entries table
meaning (removes filter) table = with_entry filter none table
meaning clears table = λ j. none
meaning (observes topic) table = table
meaning (unobserves topic) table = table

abbrev pub table_of : List Call → Table → Table
table_of [] table = table
table_of (c ∷ cs) table = table_of cs (meaning c table)

-- An index that holds the entries of a table
abbrev pub Holds : Table → SubscriptionIndex → Type 0
Holds table index = Filed index × Identified index × ((j : Text) → get j index.entries ≡ table j)

get-missing :
    (filter : Text) (d : Dict Text SubscriptionEntry) (j : Text)
    → get filter d ≡ none
    → get j d ≡ (if text_eq filter j then none else get j d)
get-missing filter d j missing = elim (Bool-cases (text_eq filter j)) [
  | inl same ↦ rw same (subst (λ s. get s d ≡ none) ((text_eq_iff filter j).0 same) missing)
  | inr other ↦ rw other refl
]

pub entries-remove :
    (filter : Text) (index : SubscriptionIndex) (j : Text)
    → get j (remove filter index).1.entries
      ≡ (if text_eq filter j then none else get j index.entries)
unfolding remove remove_item
entries-remove filter index j = elim (Option-cases (get filter index.entries)) [
  | inr (entry, held) ↦ rw (held, remove) (get-pop j filter index.entries)
  | inl missing ↦ rw (missing, remove) (get-missing filter index.entries j missing)
]

pub entries-add :
    (filter : Text) (entry : SubscriptionEntry) (index : SubscriptionIndex) (j : Text)
    → get j (add filter entry index).entries
      ≡ (if text_eq filter j then some entry else get j index.entries)
unfolding add add_item
entries-add filter entry index j = elim (Bool-cases (text_eq filter j)) [
  | inl same ↦ rw same (get-put j filter entry _ ∙ rw same refl)
  | inr other ↦
      rw other (get-put j filter entry _ ∙ rw other (entries-remove filter index j ∙ rw other refl))
]

Holds-add :
    (filter : Text) (entry : SubscriptionEntry) (table : Table) (index : SubscriptionIndex)
    → Holds table index
    → Holds (with_entry filter (some entry) table) (add filter entry index)
Holds-add filter entry table index (filed, known, same) = (
  Filed-add filter entry index filed,
  Identified-add filter entry index known,
  λ j.
      entries-add filter entry index j
      ∙ ap (λ o. if text_eq filter j then some entry else o) (same j),
)

pub Holds-add_many :
    (entries : Dict Text SubscriptionEntry) (table : Table) (index : SubscriptionIndex)
    → Holds table index
    → Holds (with_entries entries table) (add_many entries index)
unfolding add_many
Holds-add_many [] table index h = h
Holds-add_many ((filter, entry) ∷ more) table index h =
    Holds-add_many more (with_entry filter (some entry) table) (add filter entry index)
      (Holds-add filter entry table index h)

Holds-observers :
    (table : Table) (index : SubscriptionIndex) (topics : List Text)
    → Holds table index
    → Holds table (record index { response_observers = topics })
Holds-observers table index topics h = h

Holds-new_index : Holds (λ j. none) new_index
unfolding new_index get
Holds-new_index = (Filed-new_index, Identified-new_index, λ j. refl)

either :
    (b : Bool) (table : Table) (i j : Bool × SubscriptionIndex)
    → Holds table i.1
    → Holds table j.1
    → Holds table (if b then i else j).1
either true table i j h k = h
either false table i j h k = k

Holds-call :
    (c : Call) (table : Table) (index : SubscriptionIndex)
    → Holds table index
    → Holds (meaning c table) (call c index)
unfolding call clear add_response_observer remove_response_observer
Holds-call (adds filter entry) table index h = Holds-add filter entry table index h
Holds-call (adds_many entries) table index h = Holds-add_many entries table index h
Holds-call (removes filter) table index (filed, known, same) = (
  Filed-remove filter index filed,
  Identified-remove filter index known,
  λ j. entries-remove filter index j ∙ ap (λ o. if text_eq filter j then none else o) (same j),
)
Holds-call clears table index h = Holds-new_index
Holds-call (observes topic) table index h = either _ table _ _ h h
Holds-call (unobserves topic) table index h = either _ table _ _ h h

Holds-calls :
    (cs : List Call) (table : Table) (index : SubscriptionIndex)
    → Holds table index
    → Holds (table_of cs table) (calls cs index)
unfolding calls
Holds-calls [] table index h = h
Holds-calls (c ∷ cs) table index h =
    Holds-calls cs (meaning c table) (call c index) (Holds-call c table index h)

-- After any calls on a new index: the dict has the entries of the table that the calls mean; an item
-- stands at a path of the trie exactly when the dict has it and the path is that of its filter; and
-- an identifier's dict has an entry exactly when the dict has it and the entry has the identifier.
pub calls-Holds : (cs : List Call) → Holds (table_of cs (λ j. none)) (calls cs new_index)
calls-Holds cs = Holds-calls cs (λ j. none) new_index Holds-new_index
