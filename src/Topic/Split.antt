-- ===== src/Topic/Split.antt =====
-- `str.split` and equality of texts.
use fast_mqtt.Prelude.{
  ℕ, ◌≡◌, ◌↔◌, refl, ap, sym, ◌∙◌, subst, List, [], ◌∷◌, ◌++◌, true, inl, inr, Bool-cases, arith,
  ◌==◌,
}
use fast_mqtt.Dict.{Eq}
use fast_mqtt.Utf8.{Text, text_eq}
use fast_mqtt.Topic.{split, to_first, slash}

text_eq_refl : (s : Text) → text_eq s s ≡ true
unfolding text_eq
text_eq_refl [] = refl
text_eq_refl (c ∷ s) = let same : (c == c) ≡ true = ground arith in rw same (text_eq_refl s)

eq-text_eq : (s t : Text) → text_eq s t ≡ true → s ≡ t
unfolding text_eq
eq-text_eq [] [] h = refl
eq-text_eq [] (b ∷ t) h = absurd (cc)
eq-text_eq (a ∷ s) [] h = absurd (cc)
eq-text_eq (a ∷ s) (b ∷ t) h = elim (Bool-cases (a == b)) [
  | inl same ↦ let e : a ≡ b = ground arith in let rest = eq-text_eq s t (rw same at h) in cc
  | inr other ↦ let no = rw other at h in absurd (cc)
]

pub text_eq_iff : (s t : Text) → (text_eq s t ≡ true) ↔ (s ≡ t)
text_eq_iff s t = (eq-text_eq s t, λ e. subst (λ u. text_eq s u ≡ true) e (text_eq_refl s))

-- `"/".join(parts)`
abbrev pub join : List Text → Text
join [] = []
join (part ∷ []) = part
join (part ∷ next ∷ parts) = part ++ slash ∷ join (next ∷ parts)

join-to_first : (c : ℕ) (s : Text) → join (to_first c (split s)) ≡ c ∷ join (split s)
join-to_first c s = go (split s)
  where
    go : (parts : List Text) → join (to_first c parts) ≡ c ∷ join parts
    go [] = refl
    go (part ∷ []) = refl
    go (part ∷ next ∷ parts) = refl

split-eq-cons : (s : Text) → (part : Text) × (parts : List Text) × (split s ≡ part ∷ parts)
unfolding split
split-eq-cons [] = ([], [], refl)
split-eq-cons (c ∷ s) = elim (Bool-cases (c == slash)) [
  | inl same ↦ ([], split s, rw same refl)
  | inr other ↦ let (part, parts, e) = split-eq-cons s in (c ∷ part, parts, rw (other, e) refl)
]

join-new : (s : Text) → join ([] ∷ split s) ≡ slash ∷ join (split s)
join-new s = let (part, parts, e) = split-eq-cons s in rw e refl

-- Splitting loses nothing.
pub join-split : (s : Text) → join (split s) ≡ s
unfolding split
join-split [] = refl
join-split (c ∷ s) = elim (Bool-cases (c == slash)) [
  | inl same ↦
      let e : c ≡ slash = ground arith in
      rw same (join-new s ∙ ap (λ t. slash ∷ t) (join-split s) ∙ ap (λ d. d ∷ s) (sym e))
  | inr other ↦ rw other (join-to_first c s ∙ ap (λ t. c ∷ t) (join-split s))
]

pub split-injective : (s t : Text) → split s ≡ split t → s ≡ t
split-injective s t h = sym (join-split s) ∙ ap join h ∙ join-split t

instance abbrev pub text_key : Eq Text
text_key = record { beq = text_eq; beq_iff = text_eq_iff }
