-- ===== src/Subscription/Collect.antt =====
-- `_collect` of subscription_index.py against the paths of the trie that lead to a topic.
use fast_mqtt.Prelude.{
  ◌≡◌, ◌⊎◌, refl, sym, subst, List, [], ◌∷◌, ◌++◌, Bool, true, false, Option, none, some, inl, inr,
  Bool-cases, map,
}
use fast_mqtt.Prelude.{if◌then◌else◌, is_empty}
use fast_mqtt.Dict.{get}
use fast_mqtt.Utf8.{Text, text_eq}
use fast_mqtt.Topic.{hash, plus, match_parts}
use fast_mqtt.Topic.Split.{text_key, text_eq_iff}
use fast_mqtt.Subscription.{Item, Among, here, there}
use fast_mqtt.Subscription.Node.{Node, entries_of, mapping_of, is_wildcard, below, collect}
use fast_mqtt.Subscription.Tree.{Hop, hop_of, entries_at}

-- The paths that `_collect` walks for the levels of a topic
pub data Leads : List Hop → List Text → Type 0 where
  rest : {topics : List Text} → Leads ((true, hash ∷ []) ∷ []) topics
  ends : Leads [] []
  same_level :
      {path : List Hop} {level : Text} {topics : List Text}
      → Leads path topics
      → Leads ((false, level) ∷ path) (level ∷ topics)
  any_level :
      {path : List Hop} {level : Text} {topics : List Text}
      → Leads path topics
      → Leads ((true, plus ∷ []) ∷ path) (level ∷ topics)

pub Among-append_left :
    {item : Item} {l : List Item} (more : List Item) → Among item l → Among item (l ++ more)
Among-append_left more here = here
Among-append_left more (there a) = there (Among-append_left more a)

pub Among-append_right :
    {item : Item} (l : List Item) {more : List Item} → Among item more → Among item (l ++ more)
Among-append_right [] a = a
Among-append_right (x ∷ l) a = there (Among-append_right l a)

pub Among-append :
    {item : Item} (l more : List Item) → Among item (l ++ more) → Among item l ⊎ Among item more
Among-append [] more a = inr a
Among-append (x ∷ l) more here = inl here
Among-append (x ∷ l) more (there a) = elim (Among-append l more a) [
  | inl b ↦ inl (there b)
  | inr b ↦ inr b
]

abbrev Reached : Item → List Text → Node → Type 0
Reached item topics n = (path : List Hop) × Leads path topics × Among item (entries_at path n)

step_down :
    (item : Item) (hop : Hop) (topics below_topics : List Text) (n : Node) (o : Option Node)
    → ((path : List Hop) → Leads path below_topics → Leads (hop ∷ path) topics)
    → get hop.1 (mapping_of hop.0 n) ≡ o
    → ((c : Node) → Among item (collect below_topics c) → Reached item below_topics c)
    → Among item (below (collect below_topics) o)
    → Reached item topics n
unfolding entries_at
step_down item hop topics below_topics n none leads e ih a = elim a [ ]
step_down item hop topics below_topics n (some c) leads e ih a =
    let (path, led, b) = ih c a in
    (hop ∷ path, leads path led, subst (λ o. Among item (below (entries_at path) o)) (sym e) b)

at_hash :
    (item : Item) (topics : List Text) (n : Node)
    → Among item (below entries_of (get (hash ∷ []) (mapping_of true n)))
    → Reached item topics n
unfolding entries_at
at_hash item topics n a = ((true, hash ∷ []) ∷ [], rest, a)

-- Whatever `_collect` finds stands at the end of a path that leads to the topic.
pub collect-Leads :
    (item : Item) (topics : List Text) (n : Node)
    → Among item (collect topics n)
    → Reached item topics n
unfolding collect entries_at
collect-Leads item [] n a =
    elim (Among-append (below entries_of (get (hash ∷ []) (mapping_of true n))) (entries_of n) a) [
      | inl b ↦ at_hash item [] n b
      | inr b ↦ ([], ends, b)
    ]
collect-Leads item (t ∷ ts) n a =
    let plain = below (collect ts) (get t (mapping_of false n)) in
    let any = below (collect ts) (get (plus ∷ []) (mapping_of true n)) in
    elim (Among-append (below entries_of (get (hash ∷ []) (mapping_of true n))) (plain ++ any) a) [
      | inl b ↦ at_hash item (t ∷ ts) n b
      | inr b ↦ elim (Among-append plain any b) [
        | inl c ↦
            step_down item (false, t) (t ∷ ts) ts n (get t (mapping_of false n))
              (λ path l. same_level l) refl (collect-Leads item ts) c
        | inr c ↦
            step_down item (true, plus ∷ []) (t ∷ ts) ts n (get (plus ∷ []) (mapping_of true n))
              (λ path l. any_level l) refl (collect-Leads item ts) c
      ]
    ]

below_mono :
    (item : Item) (f g : Node → List Item) (o : Option Node)
    → ((c : Node) → Among item (f c) → Among item (g c))
    → Among item (below f o)
    → Among item (below g o)
below_mono item f g none h a = a
below_mono item f g (some c) h a = h c a

-- The entries at the end of every path that leads to the topic are found.
pub Leads-collect :
    (item : Item) {path : List Hop} {topics : List Text} (n : Node)
    → Leads path topics
    → Among item (entries_at path n)
    → Among item (collect topics n)
unfolding collect entries_at
Leads-collect item n (rest {topics = []}) a = Among-append_left (entries_of n) a
Leads-collect item n (rest {topics = t ∷ ts}) a = Among-append_left _ a
Leads-collect item n ends a = Among-append_right _ a
Leads-collect item n (same_level {path = path} {level = t} {topics = ts} l) a =
    Among-append_right _ (
      Among-append_left _
        (below_mono item (entries_at path) (collect ts) _ (λ c. Leads-collect item c l) a))
Leads-collect item n (any_level {path = path} {topics = ts} l) a = Among-append_right _ (
    Among-append_right _
      (below_mono item (entries_at path) (collect ts) _ (λ c. Leads-collect item c l) a))

-- "#" is the last level, if it is a level.
unfoldable pub hash_last : List Text → Bool
unfolding text_eq
hash_last [] = true
hash_last (part ∷ parts) = if text_eq part (hash ∷ []) then is_empty parts else hash_last parts

to_rest :
    (part : Text) (parts topics : List Text)
    → text_eq part (hash ∷ []) ≡ true
    → is_empty parts ≡ true
    → Leads (map hop_of (part ∷ parts)) topics
unfolding is_wildcard text_eq
to_rest part [] topics e h =
    subst (λ s. Leads (hop_of s ∷ []) topics) (sym ((text_eq_iff part (hash ∷ [])).0 e)) rest
to_rest part (p ∷ parts) topics e h = absurd (cc)

to_plus :
    (part t : Text) {path : List Hop} {topics : List Text}
    → text_eq part (plus ∷ []) ≡ true
    → Leads path topics
    → Leads (hop_of part ∷ path) (t ∷ topics)
unfolding is_wildcard text_eq
to_plus part t {path} {topics} e l =
    subst (λ s. Leads (hop_of s ∷ path) (t ∷ topics)) (sym ((text_eq_iff part (plus ∷ [])).0 e))
      (any_level l)

to_same :
    (part t : Text) {path : List Hop} {topics : List Text}
    → text_eq part (hash ∷ []) ≡ false
    → text_eq part (plus ∷ []) ≡ false
    → text_eq part t ≡ true
    → Leads path topics
    → Leads (hop_of part ∷ path) (t ∷ topics)
unfolding is_wildcard
to_same part t {path} {topics} no_rest not_any e l =
    rw (no_rest, not_any)
      (subst (λ s. Leads ((false, part) ∷ path) (s ∷ topics)) ((text_eq_iff part t).0 e)
        (same_level l))

-- A filter whose "#" is last leads to the topics that it matches.
pub match_parts-Leads :
    (parts topics : List Text)
    → hash_last parts ≡ true
    → match_parts parts topics ≡ true
    → Leads (map hop_of parts) topics
unfolding match_parts hash_last
match_parts-Leads [] [] h m = ends
match_parts-Leads [] (t ∷ ts) h m = absurd (cc)
match_parts-Leads (part ∷ parts) [] h m = to_rest part parts [] m (rw m at h)
match_parts-Leads (part ∷ parts) (t ∷ ts) h m = elim (Bool-cases (text_eq part (hash ∷ []))) [
  | inl e ↦ to_rest part parts (t ∷ ts) e (rw e at h)
  | inr no_rest ↦ elim (Bool-cases (text_eq part (plus ∷ []))) [
    | inl any ↦
        to_plus part t any (match_parts-Leads parts ts (rw no_rest at h) (rw (no_rest, any) at m))
    | inr not_any ↦ elim (Bool-cases (text_eq part t)) [
      | inl same ↦
          to_same part t no_rest not_any same
            (match_parts-Leads parts ts (rw no_rest at h) (rw (no_rest, not_any, same) at m))
      | inr other ↦ let no = rw (no_rest, not_any, other) at m in absurd (cc)
    ]
  ]
]
