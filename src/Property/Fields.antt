-- ===== src/Property/Fields.antt =====
-- The dict that an encoder of properties.py fills from the fields of a class that are not `None`,
-- and what a decoder finds in it after the wire.
use fast_mqtt.Property.Ids.{same_id_symm}
use fast_mqtt.Prelude.{and_left, and_right, not-eq-true}
use fast_mqtt.Prelude.{append-nil, subst}
use fast_mqtt.Prelude.{
  ℕ, ◌≡◌, refl, sym, ◌∙◌, List, [], ◌∷◌, ◌++◌, Bool, true, false, not, ◌&&◌, Option, none, some,
  arith,
}
use fast_mqtt.Prelude.{◌==◌, if◌then◌else◌, Bool-cases, inl, inr}
use mathlib.Core.Option
use fast_mqtt.Bytes.{Bytes}
use fast_mqtt.Utf8.{Text}
use fast_mqtt.Dict.{get, update, get-append, put-fresh}
use fast_mqtt.Property.Ids.{PropertyId, user_property, id_eq, same_id}
use fast_mqtt.Property.Block.{Value, int, text, blob, pairs, Pairs, Properties, pairs_of}
use fast_mqtt.Property.Rounds.{as_read}
use fast_mqtt.Property.Entries.{Fresh, as_read_all}

abbrev pub Fields : Type 0
Fields = List (PropertyId × Option Value)

-- `{pid: val for pid, val in fields if val is not None}`
unfoldable pub present : Fields → Properties
present [] = []
present ((p, none) ∷ fields) = present fields
present ((p, some v) ∷ fields) = (p, v) ∷ present fields

-- `_up(props)`
unfoldable pub user_entry : Pairs → Properties
user_entry [] = []
user_entry (p ∷ ps) = (user_property, pairs (p ∷ ps)) ∷ []

-- The dict that an encoder builds, `d.update(_up(props))` included.
unfoldable pub properties_dict : Fields → Pairs → Properties
unfolding present user_entry
properties_dict fields ps = update (present fields) (user_entry ps)

-- `d.get(pid)` and `bool(d[pid]) if pid in d else None`, by the class of the value
unfoldable pub get_int : PropertyId → Properties → Option ℕ
get_int p d = elim (get p d) [ some (int n) ↦ some n | _ ↦ none ]

unfoldable pub get_bool : PropertyId → Properties → Option Bool
get_bool p d = elim (get p d) [ some (int n) ↦ some (not (n == 0)) | _ ↦ none ]

unfoldable pub get_text : PropertyId → Properties → Option Text
get_text p d = elim (get p d) [ some (text s) ↦ some s | _ ↦ none ]

unfoldable pub get_blob : PropertyId → Properties → Option Bytes
get_blob p d = elim (get p d) [ some (blob b) ↦ some b | _ ↦ none ]

-- `_up_tuple(d)`
unfoldable pub get_pairs : Properties → Pairs
get_pairs d = pairs_of (get user_property d)

-- No key stands twice, and none is the user property.
abbrev pub absent : PropertyId → Fields → Bool
absent p [] = not (same_id user_property p)
absent p ((q, v) ∷ fields) = not (same_id q p) && absent p fields

abbrev pub distinct : Fields → Bool
distinct [] = true
distinct ((p, v) ∷ fields) = absent p fields && distinct fields

-- The value of a field, as it comes back.
abbrev pub field_value : PropertyId → Fields → Option Value
field_value p [] = none
field_value p ((q, v) ∷ fields) = if same_id q p then Option.map as_read v else field_value p fields

absent-head :
    (p q : PropertyId) (v : Option Value) (fields : Fields)
    → absent p ((q, v) ∷ fields) ≡ true
    → same_id q p ≡ false
absent-head p q v fields h =
    not-eq-true (same_id q p) (and_left (not (same_id q p)) (absent p fields) h)

absent-tail :
    (p q : PropertyId) (v : Option Value) (fields : Fields)
    → absent p ((q, v) ∷ fields) ≡ true
    → absent p fields ≡ true
absent-tail p q v fields h = and_right (not (same_id q p)) (absent p fields) h

-- The user property is no field.
absent-user_property :
    (p : PropertyId) (fields : Fields) → absent p fields ≡ true → same_id user_property p ≡ false
absent-user_property p [] h = not-eq-true (same_id user_property p) h
absent-user_property p ((q, v) ∷ fields) h =
    absent-user_property p fields (absent-tail p q v fields h)

distinct-head :
    (q : PropertyId) (v : Option Value) (fields : Fields)
    → distinct ((q, v) ∷ fields) ≡ true
    → absent q fields ≡ true
distinct-head q v fields h = and_left (absent q fields) (distinct fields) h

distinct-tail :
    (q : PropertyId) (v : Option Value) (fields : Fields)
    → distinct ((q, v) ∷ fields) ≡ true
    → distinct fields ≡ true
distinct-tail q v fields h = and_right (absent q fields) (distinct fields) h

no_user :
    (q : PropertyId) (v : Option Value) (fields : Fields)
    → distinct ((q, v) ∷ fields) ≡ true
    → same_id q user_property ≡ false
no_user q v fields h =
    same_id_symm user_property q (absent-user_property q fields (distinct-head q v fields h))

absent-user : (fields : Fields) → distinct fields ≡ true → get user_property (present fields) ≡ none
unfolding present get
absent-user [] h = refl
absent-user ((q, none) ∷ fields) h = absent-user fields (distinct-tail q none fields h)
absent-user ((q, some v) ∷ fields) h =
    rw (no_user q (some v) fields h) (absent-user fields (distinct-tail q (some v) fields h))

pub properties_dict-append :
    (fields : Fields) (ps : Pairs)
    → distinct fields ≡ true
    → properties_dict fields ps ≡ present fields ++ user_entry ps
unfolding properties_dict update
properties_dict-append fields [] h = sym (append-nil (present fields))
properties_dict-append fields (p ∷ ps) h =
    put-fresh user_property (pairs (p ∷ ps)) (present fields) (absent-user fields h)

field_value-absent :
    (p : PropertyId) (fields : Fields) → absent p fields ≡ true → field_value p fields ≡ none
field_value-absent p [] h = refl
field_value-absent p ((q, v) ∷ fields) h =
    rw (absent-head p q v fields h) (field_value-absent p fields (absent-tail p q v fields h))

-- What a decoder finds under the key of a field.
pub get-field :
    (p : PropertyId) (fields : Fields) (ps : Pairs)
    → distinct fields ≡ true
    → same_id user_property p ≡ false
    → get p (as_read_all (present fields ++ user_entry ps)) ≡ field_value p fields
unfolding present get user_entry
get-field p [] [] h other = refl
get-field p [] (u ∷ ps) h other = rw other
get-field p ((q, none) ∷ fields) ps h other = elim (Bool-cases (same_id q p)) [
  | inl same ↦ rw same (
      get-field p fields ps (ground arith) other
      ∙ field_value-absent p fields
          (subst (λ i. absent i fields ≡ true) ((id_eq.beq_iff q p).0 same) (ground arith)))
  | inr differ ↦ rw differ (get-field p fields ps (distinct-tail q none fields h) other)
]
get-field p ((q, some v) ∷ fields) ps h other = elim (Bool-cases (same_id q p)) [
  | inl same ↦ rw same
  | inr differ ↦ rw differ (get-field p fields ps (distinct-tail q (some v) fields h) other)
]

-- The user properties come back too.
pub get-user_entry :
    (fields : Fields) (ps : Pairs)
    → distinct fields ≡ true
    → pairs_of (get user_property (as_read_all (present fields ++ user_entry ps))) ≡ ps
unfolding present get user_entry
get-user_entry [] [] h = refl
get-user_entry [] (p ∷ ps) h = rw ((id_eq.beq_iff user_property user_property).1 refl)
get-user_entry ((q, none) ∷ fields) ps h = get-user_entry fields ps (distinct-tail q none fields h)
get-user_entry ((q, some v) ∷ fields) ps h =
    rw (no_user q (some v) fields h) (get-user_entry fields ps (distinct-tail q (some v) fields h))

abbrev Missing : Properties → Fields → Type 0
Missing acc [] = Unit
Missing acc ((p, v) ∷ fields) = (get p acc ≡ none) × Missing acc fields

Missing-append :
    (acc : Properties) (q : PropertyId) (v : Value) (fields : Fields)
    → absent q fields ≡ true
    → Missing acc fields
    → Missing (acc ++ (q, v) ∷ []) fields
unfolding get
Missing-append acc q v [] h m = tt
Missing-append acc q v ((p, w) ∷ fields) h (m, ms) = (
  get-append p acc ((q, v) ∷ []) m ∙ rw (same_id_symm p q (absent-head q p w fields h)),
  Missing-append acc q v fields (ground arith) ms,
)

Fresh-fields :
    (acc : Properties) (fields : Fields) (ps : Pairs)
    → distinct fields ≡ true
    → get user_property acc ≡ none
    → Missing acc fields
    → Fresh acc (present fields ++ user_entry ps)
unfolding present user_entry
Fresh-fields acc [] [] h user m = tt
Fresh-fields acc [] (p ∷ ps) h user m = (user, λ _ e. cc, tt)
Fresh-fields acc ((q, none) ∷ fields) ps h user (m, ms) =
    Fresh-fields acc fields ps (distinct-tail q none fields h) user ms
Fresh-fields acc ((q, some v) ∷ fields) ps h user (m, ms) =
    let apart = no_user q (some v) fields h in
    (
      m,
      λ e _. cc (e, absent-user_property q fields (distinct-head q (some v) fields h)),
      Fresh-fields (acc ++ (q, as_read v) ∷ []) fields ps (distinct-tail q (some v) fields h)
          (get-append user_property acc ((q, as_read v) ∷ []) user ∙ unfold get in rw apart)
          (Missing-append acc q (as_read v) fields (distinct-head q (some v) fields h) ms),
    )

Missing-nil : (fields : Fields) → Missing [] fields
unfolding get
Missing-nil [] = tt
Missing-nil ((p, v) ∷ fields) = (refl, Missing-nil fields)

pub Fresh-dict :
    (fields : Fields) (ps : Pairs)
    → distinct fields ≡ true
    → Fresh [] (present fields ++ user_entry ps)
Fresh-dict fields ps h = Fresh-fields [] fields ps h (unfold get in refl) (Missing-nil fields)
