-- ===== src/Topic.antt =====
-- src/zmqtt/_internal/topic_matching.py: which topics a filter matches. Texts are lists of code
-- points.
pub mod Split
pub mod Matching
pub mod Shared
pub mod Validate
use fast_mqtt.Prelude.{
  ℕ, List, [], ◌∷◌, ◌++◌, Bool, true, false, ◌&&◌, ◌||◌, not, Option, none, some,
}
use fast_mqtt.Prelude.{
  has, is_empty, drop, length, ◌==◌, if◌then◌else◌, Result, ok, err, index_error, ◌>>=◌,
}
use fast_mqtt.Utf8.{Text, text_eq}

-- The characters "/", "#", "+" and "$".
abbrev pub slash : ℕ
slash = 47

abbrev pub hash : ℕ
hash = 35

abbrev pub plus : ℕ
plus = 43

abbrev pub dollar : ℕ
dollar = 36

abbrev pub to_first : ℕ → List Text → List Text
to_first c [] = (c ∷ []) ∷ []
to_first c (part ∷ parts) = (c ∷ part) ∷ parts

-- `s.split("/")`, which is never empty
unfoldable pub split : Text → List Text
split [] = [] ∷ []
split (c ∷ cs) = if c == slash then [] ∷ split cs else to_first c (split cs)

-- `s.startswith(prefix)`
unfoldable pub starts_with : Text → Text → Bool
starts_with [] s = true
starts_with (a ∷ prefix) [] = false
starts_with (a ∷ prefix) (b ∷ s) = if a == b then starts_with prefix s else false

-- What stands after the first "/": `s.partition("/")[2]`, or `s.split("/", 1)[1]`; `none` where
-- there is no "/".
unfoldable pub after_slash : Text → Option Text
after_slash [] = none
after_slash (c ∷ cs) = if c == slash then some cs else after_slash cs

-- "$share/"
abbrev pub share_prefix : Text
share_prefix = 36 ∷ 115 ∷ 104 ∷ 97 ∷ 114 ∷ 101 ∷ 47 ∷ []

-- ("$queue", "$exclusive")
abbrev pub default_stripped_prefixes : List Text
default_stripped_prefixes =
    (36 ∷ 113 ∷ 117 ∷ 101 ∷ 117 ∷ 101 ∷ [])
    ∷ (36 ∷ 101 ∷ 120 ∷ 99 ∷ 108 ∷ 117 ∷ 115 ∷ 105 ∷ 118 ∷ 101 ∷ [])
    ∷ []

abbrev pub or_index_error : Option Text → Result Text
or_index_error none = err index_error
or_index_error (some rest) = ok rest

-- `for prefix in stripped_prefixes`
unfoldable pub strip_prefix : Text → List Text → Result Text
unfolding starts_with after_slash
strip_prefix filter [] = ok filter
strip_prefix filter (prefix ∷ prefixes) =
    let rest = strip_prefix filter prefixes in
    if starts_with (prefix ++ slash ∷ []) filter then or_index_error (after_slash filter) else rest

-- `_shared_filter_to_actual`
unfoldable pub shared_filter_to_actual : Text → List Text → Result Text
unfolding strip_prefix
shared_filter_to_actual filter prefixes =
    elim (if starts_with share_prefix filter then after_slash (drop 7 filter) else none) [
      | some actual ↦ ok actual
      | none ↦ strip_prefix filter prefixes
    ]

-- `_match_parts`
unfoldable pub match_parts : List Text → List Text → Bool
match_parts [] tparts = is_empty tparts
match_parts (f ∷ fparts) [] = text_eq f (hash ∷ [])
match_parts (f ∷ fparts) (t ∷ tparts) =
    if text_eq f (hash ∷ [])
    then true
    else if not (text_eq f (plus ∷ [])) && not (text_eq f t)
    then false
    else match_parts fparts tparts

-- `_topic_matches`
unfoldable pub actual_matches : Text → Text → Bool
unfolding split match_parts
actual_matches filter topic =
    if starts_with (dollar ∷ []) topic
    then (if starts_with (dollar ∷ []) filter
        then match_parts (split filter) (split topic)
        else false)
    else (if starts_with (dollar ∷ []) filter
        then false
        else match_parts (split filter) (split topic))

-- `topic_matches`
unfoldable pub topic_matches : Text → Text → List Text → Result Bool
unfolding shared_filter_to_actual actual_matches
topic_matches filter topic prefixes = do
  actual ← shared_filter_to_actual filter prefixes
  ok (actual_matches actual topic)
