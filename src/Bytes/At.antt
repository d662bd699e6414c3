-- ===== src/Bytes/At.antt =====
-- What a buffer holds from a position on, and the reads that follow from it.
use fast_mqtt.Prelude.{ℕ, ◌+◌, ◌≡◌, refl, List, [], ◌∷◌, ◌++◌, some, arith}
use fast_mqtt.Prelude.{length, take, drop, get_elem?, append_assoc}
use fast_mqtt.Prelude.{length-append, take-append, drop-append, get_elem?-append}

-- From position `pos` to its end, `buf` is `xs`.
pub record At {ℓ} {A : Type ℓ} (buf : List A) (pos : ℕ) (xs : List A) : Type ℓ where
  pub before : List A
  pub whole : buf ≡ before ++ xs
  pub start : length before ≡ pos

module _ {ℓ} {A : Type ℓ} where
  pub At-start : (xs : List A) → At xs 0 xs
  At-start xs = record { before = []; whole = refl; start = refl }

  pub At-skip :
      {buf : List A} {pos : ℕ} (ys xs : List A)
      → At buf pos (ys ++ xs)
      → At buf (pos + length ys) xs
  At-skip ys xs a = record {
    before = a.before ++ ys;
    whole = rw append_assoc a.whole;
    start = omega (arith, length-append a.before ys, a.start);
  }

  pub length-At :
      {buf : List A} {pos : ℕ} {xs : List A} → At buf pos xs → length buf ≡ pos + length xs
  length-At {xs = xs} a = rw a.whole (omega (arith, length-append a.before xs, a.start))

  pub drop-At : {buf : List A} {pos : ℕ} {xs : List A} → At buf pos xs → drop pos buf ≡ xs
  drop-At {xs = xs} a = rw (a.whole, ← a.start) (drop-append a.before xs)

  pub get_elem?-At :
      {buf : List A} {pos : ℕ} {x : A} {xs : List A}
      → At buf pos (x ∷ xs)
      → get_elem? buf pos ≡ some x
  get_elem?-At {x = x} {xs = xs} a = rw (a.whole, ← a.start) (get_elem?-append a.before xs x)

  pub take-At :
      {buf : List A} {pos : ℕ} (ys xs : List A) (n : ℕ)
      → At buf pos (ys ++ xs)
      → n ≡ length ys
      → take n (drop pos buf) ≡ ys
  take-At ys xs n a h = rw (h, drop-At a) (take-append ys xs)
