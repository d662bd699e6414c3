-- ===== src/Dict.antt =====
-- Python's `dict` in insertion order: an association list. A key that is there keeps its place when
-- its value changes, and a new key goes to the end. The type of the keys has a Boolean equality.
use fast_mqtt.Prelude.{
  ℕ, ◌≡◌, refl, ap, sym, ◌∙◌, ◌↔◌, List, [], ◌∷◌, ◌++◌, Bool, true, false, Option, none, some,
}
use fast_mqtt.Prelude.{◌==◌, ==_iff, if◌then◌else◌, Bool-cases, inl, inr}

pub record Eq {ℓ} (A : Type ℓ) : Type ℓ where
  pub beq : A → A → Bool
  pub beq_iff : (j k : A) → (beq j k ≡ true) ↔ (j ≡ k)

instance abbrev pub number_eq : Eq ℕ
number_eq = record { beq = ◌==◌; beq_iff = ==_iff }

abbrev pub Dict {ℓ κ} : Type ℓ → Type κ → Type (ℓ ⊔ κ)
Dict K V = List (K × V)

beq-absurd {ℓ υ} :
    {K : Type ℓ} ⦃e : Eq K⦄ {A : Type υ} (i j k : K)
    → e.beq i j ≡ true
    → e.beq k j ≡ true
    → e.beq i k ≡ false
    → A
beq-absurd ⦃e⦄ i j k same same' other =
    let e₁ = (e.beq_iff i j).0 same in
    let e₂ = (e.beq_iff k j).0 same' in let e₃ = (e.beq_iff i k).1 (e₁ ∙ sym e₂) in absurd (cc)

module _ {ℓ κ} {K : Type ℓ} {V : Type κ} ⦃e : Eq K⦄ where
  -- `d.get(k)`
  unfoldable pub get : K → Dict K V → Option V
  get k [] = none
  get k ((j, v) ∷ d) = if e.beq j k then some v else get k d

  -- `d[k] = v`
  unfoldable pub put : K → V → Dict K V → Dict K V
  put k v [] = (k, v) ∷ []
  put k v ((j, w) ∷ d) = if e.beq j k then (j, v) ∷ d else (j, w) ∷ put k v d

  -- `d.pop(k, None)`, whose value is `get k d`: a key stands once.
  unfoldable pub pop : K → Dict K V → Dict K V
  pop k [] = []
  pop k ((j, v) ∷ d) = let rest = pop k d in if e.beq j k then rest else (j, v) ∷ rest

  -- `d.update(more)`
  unfoldable pub update : Dict K V → Dict K V → Dict K V
  unfolding put
  update d [] = d
  update d ((k, v) ∷ more) = update (put k v d) more

  pub put-fresh : (k : K) (v : V) (d : Dict K V) → get k d ≡ none → put k v d ≡ d ++ (k, v) ∷ []
  unfolding get put
  put-fresh k v [] h = refl
  put-fresh k v ((j, w) ∷ d) h = elim (Bool-cases (e.beq j k)) [
    | inl same ↦ cc (rw same at h)
    | inr other ↦ rw other (ap (λ r. (j, w) ∷ r) (put-fresh k v d (rw other at h)))
  ]

  pub get-append : (k : K) (d more : Dict K V) → get k d ≡ none → get k (d ++ more) ≡ get k more
  unfolding get
  get-append k [] more h = refl
  get-append k ((j, w) ∷ d) more h = elim (Bool-cases (e.beq j k)) [
    | inl same ↦ cc (rw same at h)
    | inr other ↦ rw other (get-append k d more (rw other at h))
  ]

  -- A key that only the second part may hold is changed there.
  pub put-append :
      (k : K) (v : V) (d more : Dict K V) → get k d ≡ none → put k v (d ++ more) ≡ d ++ put k v more
  unfolding get put
  put-append k v [] more h = refl
  put-append k v ((j, w) ∷ d) more h = elim (Bool-cases (e.beq j k)) [
    | inl same ↦ cc (rw same at h)
    | inr other ↦ rw other (ap (λ r. (j, w) ∷ r) (put-append k v d more (rw other at h)))
  ]

  pub get-put :
      (j k : K) (v : V) (d : Dict K V) → get j (put k v d) ≡ (if e.beq k j then some v else get j d)
  unfolding get put
  get-put j k v [] = refl
  get-put j k v ((i, w) ∷ d) = elim (Bool-cases (e.beq i k)) [
    | inl same ↦
        let i≡k = (e.beq_iff i k).0 same in
        elim (Bool-cases (e.beq k j)) [
          | inl found ↦ rw (same, i≡k, found) refl
          | inr other ↦ rw (same, i≡k, other) refl
        ]
    | inr other ↦ elim (Bool-cases (e.beq i j)) [
      | inl here ↦ elim (Bool-cases (e.beq k j)) [
        | inl also ↦ beq-absurd i j k here also other
        | inr not_k ↦ rw (other, here, not_k) refl
      ]
      | inr elsewhere ↦ rw (other, elsewhere) (get-put j k v d)
    ]
  ]

  pub get-pop : (j k : K) (d : Dict K V) → get j (pop k d) ≡ (if e.beq k j then none else get j d)
  unfolding get pop
  get-pop j k [] = elim (Bool-cases (e.beq k j)) [
    | inl found ↦ rw found refl
    | inr other ↦ rw other refl
  ]
  get-pop j k ((i, w) ∷ d) = elim (Bool-cases (e.beq i k)) [
    | inl same ↦
        let i≡k = (e.beq_iff i k).0 same in
        elim (Bool-cases (e.beq k j)) [
          | inl found ↦ rw same (get-pop j k d ∙ rw (found) refl)
          | inr other ↦ rw same (get-pop j k d ∙ rw (i≡k, other) refl)
        ]
    | inr other ↦ elim (Bool-cases (e.beq i j)) [
      | inl here ↦ elim (Bool-cases (e.beq k j)) [
        | inl also ↦ beq-absurd i j k here also other
        | inr not_k ↦ rw (other, here, not_k) refl
      ]
      | inr elsewhere ↦ rw (other, elsewhere) (get-pop j k d)
    ]
  ]
