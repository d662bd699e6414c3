-- ===== src/Subscription/Tree.antt =====
-- The trie of subscription_index.py by its paths: what `add` and `_remove_entry` do to the entries
-- that stand at the end of each path.
use fast_mqtt.Prelude.{
  ℕ, ◌≡◌, refl, ap, sym, ◌∙◌, subst, List, [], ◌∷◌, ◌++◌, Bool, true, false, ◌&&◌, Option, none,
  some, inl, inr, Bool-cases, Option-cases,
}
use fast_mqtt.Prelude.{if◌then◌else◌}
use fast_mqtt.Dict.{Dict, get, put, get-put, get-pop}
use fast_mqtt.Utf8.{Text, text_eq}
use fast_mqtt.Topic.Split.{text_key, text_eq_iff}
use fast_mqtt.Subscription.{Item}
use fast_mqtt.Subscription.Node.{
  Node, no_more, child, node, as_dict, of_dict, empty_node, entries_of, mapping_of, with_mapping,
  is_wildcard, or_empty, add_entry, without, drop_entry, is_bare, keep_child, remove_entry, below,
}

-- A segment, and whether it is looked up among the wildcard children
abbrev pub Hop : Type 0
Hop = Bool × Text

abbrev pub hop_of : Text → Hop
hop_of part = (is_wildcard part, part)

-- The entries of the node that a path reaches
unfoldable pub entries_at : List Hop → Node → List Item
entries_at [] n = entries_of n
entries_at (hop ∷ path) n = below (entries_at path) (get hop.1 (mapping_of hop.0 n))

abbrev same_flag : Bool → Bool → Bool
same_flag true b = b
same_flag false true = false
same_flag false false = true

unfoldable pub same_path : List Hop → List Text → Bool
unfolding text_eq is_wildcard
same_path [] [] = true
same_path [] (part ∷ parts) = false
same_path (hop ∷ path) [] = false
same_path (hop ∷ path) (part ∷ parts) =
    (same_flag (is_wildcard part) hop.0 && text_eq part hop.1) && same_path path parts

as_dict-of_dict : (d : Dict Text Node) → as_dict (of_dict d) ≡ d
unfolding as_dict of_dict
as_dict-of_dict [] = refl
as_dict-of_dict ((part, n) ∷ d) = ap (λ r. (part, n) ∷ r) (as_dict-of_dict d)

mapping_of-with_mapping :
    (u w : Bool) (d : Dict Text Node) (n : Node)
    → mapping_of u (with_mapping w d n) ≡ (if same_flag w u then d else mapping_of u n)
mapping_of-with_mapping true true d (node c w es) = as_dict-of_dict d
mapping_of-with_mapping true false d (node c w es) = refl
mapping_of-with_mapping false true d (node c w es) = refl
mapping_of-with_mapping false false d (node c w es) = as_dict-of_dict d

entries_of-with_mapping :
    (w : Bool) (d : Dict Text Node) (n : Node) → entries_of (with_mapping w d n) ≡ entries_of n
entries_of-with_mapping true d (node c w es) = refl
entries_of-with_mapping false d (node c w es) = refl

pub entries_at-empty : (path : List Hop) → entries_at path empty_node ≡ []
unfolding entries_at as_dict get
entries_at-empty [] = refl
entries_at-empty ((true, part) ∷ path) = refl
entries_at-empty ((false, part) ∷ path) = refl

is_bare-empty : (n : Node) → is_bare n ≡ true → n ≡ empty_node
is_bare-empty (node no_more no_more []) h = refl
is_bare-empty (node no_more no_more (item ∷ items)) h = absurd (cc)
is_bare-empty (node no_more (child part n more) es) h = absurd (cc)
is_bare-empty (node (child part n more) w es) h = absurd (cc)

below_if :
    (f : Node → List Item) (b : Bool) (o more : Option Node)
    → below f (if b then o else more) ≡ (if b then below f o else below f more)
below_if f true o more = refl
below_if f false o more = refl

below-or_empty :
    (path : List Hop) (o : Option Node) → entries_at path (or_empty o) ≡ below (entries_at path) o
below-or_empty path none = entries_at-empty path
below-or_empty path (some n) = refl

-- A path into a node one of whose mappings changed, and only at one segment
entries_at-with_mapping :
    (u w : Bool) (t : Text) (path : List Hop) (part : Text) (d : Dict Text Node) (n : Node)
    (o : Option Node)
    → ((j : Text) → get j d ≡ (if text_eq part j then o else get j (mapping_of w n)))
    → entries_at ((u, t) ∷ path) (with_mapping w d n) ≡ (
        if same_flag w u && text_eq part t
        then below (entries_at path) o
        else entries_at ((u, t) ∷ path) n)
unfolding entries_at
entries_at-with_mapping true false t path part d n o found =
    rw (mapping_of-with_mapping true false d n) refl
entries_at-with_mapping false true t path part d n o found =
    rw (mapping_of-with_mapping false true d n) refl
entries_at-with_mapping true true t path part d n o found =
    rw (mapping_of-with_mapping true true d n, found t)
      (below_if (entries_at path) (text_eq part t) _ _)
entries_at-with_mapping false false t path part d n o found =
    rw (mapping_of-with_mapping false false d n, found t)
      (below_if (entries_at path) (text_eq part t) _ _)

same_hop :
    (w u : Bool) (part t : Text)
    → (same_flag w u && text_eq part t) ≡ true
    → ◌≡◌ {A = Hop} (u, t) (w, part)
same_hop true true part t h = ap (λ s. (true, s)) (sym ((text_eq_iff part t).0 h))
same_hop true false part t h = absurd (cc)
same_hop false true part t h = absurd (cc)
same_hop false false part t h = ap (λ s. (false, s)) (sym ((text_eq_iff part t).0 h))

add_entry-below :
    (w : Bool) (part : Text) (path : List Hop) (parts : List Text) (item : Item) (n : Node)
    → entries_at path (add_entry parts item (or_empty (get part (mapping_of w n)))) ≡ (
        if same_path path parts
        then entries_at path (or_empty (get part (mapping_of w n))) ++ item ∷ []
        else entries_at path (or_empty (get part (mapping_of w n))))
    → entries_at path (add_entry parts item (or_empty (get part (mapping_of w n)))) ≡ (
        if same_path path parts
        then entries_at ((w, part) ∷ path) n ++ item ∷ []
        else entries_at ((w, part) ∷ path) n)
unfolding entries_at
add_entry-below w part path parts item n ih =
    subst
      (λ l.
        entries_at path (add_entry parts item (or_empty (get part (mapping_of w n))))
        ≡ (if same_path path parts then l ++ item ∷ [] else l))
      (below-or_empty path (get part (mapping_of w n))) ih

-- `add` appends the item at the path of its parts, and nowhere else.
pub entries_at-add_entry :
    (path : List Hop) (parts : List Text) (item : Item) (n : Node)
    → entries_at path (add_entry parts item n)
      ≡ (if same_path path parts then entries_at path n ++ item ∷ [] else entries_at path n)
unfolding entries_at add_entry same_path
entries_at-add_entry [] [] item (node c w es) = refl
entries_at-add_entry [] (part ∷ parts) item n = entries_of-with_mapping (is_wildcard part) _ n
entries_at-add_entry ((true, t) ∷ path) [] item (node c w es) = refl
entries_at-add_entry ((false, t) ∷ path) [] item (node c w es) = refl
entries_at-add_entry ((u, t) ∷ path) (part ∷ parts) item n =
    let w = is_wildcard part in
    let m = mapping_of w n in
    let c = add_entry parts item (or_empty (get part m)) in
    let changed =
      entries_at-with_mapping u w t path part (put part c m) n (some c) (λ j. get-put j part c m) in
    changed ∙ elim (Bool-cases (same_flag w u && text_eq part t)) [
      | inr other ↦ rw other refl
      | inl same ↦ rw same (
          subst
            (λ (hop : Hop). entries_at path c ≡ (
              if same_path path parts
              then entries_at (hop ∷ path) n ++ item ∷ []
              else entries_at (hop ∷ path) n))
            (sym (same_hop w u part t same))
            (add_entry-below w part path parts item n
              (entries_at-add_entry path parts item (or_empty (get part m)))))
    ]

-- The child that `keep_child` leaves
abbrev kept : Node → Option Node
kept n = if is_bare n then none else some n

get-keep_child :
    (part : Text) (n : Node) (d : Dict Text Node) (j : Text)
    → get j (keep_child part n d) ≡ (if text_eq part j then kept n else get j d)
get-keep_child part n d j = elim (Bool-cases (is_bare n)) [
  | inl bare ↦ rw bare (get-pop j part d)
  | inr more ↦ rw more (get-put j part n d)
]

below-kept : (path : List Hop) (n : Node) → below (entries_at path) (kept n) ≡ entries_at path n
below-kept path n = elim (Bool-cases (is_bare n)) [
  | inl bare ↦ rw bare (sym (ap (entries_at path) (is_bare-empty n bare) ∙ entries_at-empty path))
  | inr more ↦ rw more refl
]

remove_entry-below :
    (w : Bool) (part : Text) (path : List Hop) (parts : List Text) (filter : Text) (address : ℕ)
    (n c : Node)
    → get part (mapping_of w n) ≡ some c
    → entries_at path (remove_entry parts filter address c) ≡ (
        if same_path path parts
        then without filter address (entries_at path c)
        else entries_at path c)
    → entries_at path (remove_entry parts filter address c) ≡ (
        if same_path path parts
        then without filter address (entries_at ((w, part) ∷ path) n)
        else entries_at ((w, part) ∷ path) n)
unfolding entries_at
remove_entry-below w part path parts filter address n c found ih =
    subst
      (λ l.
        entries_at path (remove_entry parts filter address c)
        ≡ (if same_path path parts then without filter address l else l))
      (sym (ap (below (entries_at path)) found)) ih

nothing_below :
    (w : Bool) (part : Text) (path : List Hop) (parts : List Text) (filter : Text) (address : ℕ)
    (n : Node)
    → get part (mapping_of w n) ≡ none
    → entries_at ((w, part) ∷ path) n ≡ (
        if same_path path parts
        then without filter address (entries_at ((w, part) ∷ path) n)
        else entries_at ((w, part) ∷ path) n)
unfolding entries_at without
nothing_below w part path parts filter address n missing =
    elim (Bool-cases (same_path path parts)) [
      | inl same ↦ rw (same, missing) refl
      | inr other ↦ rw other refl
    ]

-- `_remove_entry` drops the entry at the path of its parts, and none elsewhere.
pub entries_at-remove_entry :
    (path : List Hop) (parts : List Text) (filter : Text) (address : ℕ) (n : Node)
    → entries_at path (remove_entry parts filter address n) ≡ (
        if same_path path parts
        then without filter address (entries_at path n)
        else entries_at path n)
unfolding entries_at remove_entry same_path drop_entry
entries_at-remove_entry [] [] filter address (node c w es) = refl
entries_at-remove_entry [] (part ∷ parts) filter address n =
    elim (Option-cases (get part (mapping_of (is_wildcard part) n))) [
      | inl missing ↦ rw (missing, remove_entry) refl
      | inr (c, found) ↦ rw (found, remove_entry) (entries_of-with_mapping (is_wildcard part) _ n)
    ]
entries_at-remove_entry ((true, t) ∷ path) [] filter address (node c w es) = refl
entries_at-remove_entry ((false, t) ∷ path) [] filter address (node c w es) = refl
entries_at-remove_entry ((u, t) ∷ path) (part ∷ parts) filter address n =
    let w = is_wildcard part in
    let m = mapping_of w n in
    let Holds = λ (l : List Item) (hop : Hop). l ≡ (
      if same_path path parts
      then without filter address (entries_at (hop ∷ path) n)
      else entries_at (hop ∷ path) n) in
    elim (Option-cases (get part m)) [
      | inl missing ↦
          rw (missing, remove_entry)
            (elim (Bool-cases (same_flag w u && text_eq part t)) [
              | inr other ↦ rw other refl
              | inl same ↦ rw same (
                  subst (λ (hop : Hop). Holds (entries_at (hop ∷ path) n) hop)
                    (sym (same_hop w u part t same))
                    (nothing_below w part path parts filter address n missing))
            ])
      | inr (c, found) ↦
          let after = remove_entry parts filter address c in
          let ih = entries_at-remove_entry path parts filter address c in
          rw (found, remove_entry)
            (entries_at-with_mapping u w t path part (keep_child part after m) n (kept after)
                (get-keep_child part after m)
              ∙ elim (Bool-cases (same_flag w u && text_eq part t)) [
                | inr other ↦ rw other refl
                | inl same ↦ rw same (
                    below-kept path after
                    ∙ subst (λ (hop : Hop). Holds (entries_at path after) hop)
                        (sym (same_hop w u part t same))
                        (remove_entry-below w part path parts filter address n c found ih))
              ])
    ]
