-- ===== src/Future.antt =====
-- asyncio's futures, as src/zmqtt/_internal/protocol.py uses them: a heap of results that are still
-- to come. A future is a position in the heap.
use fast_mqtt.Prelude.{
  ℕ, zero, suc, ◌≡◌, refl, ap, ◌⊎◌, List, [], ◌∷◌, ◌++◌, Bool, true, false, some, arith, inl, inr,
}
use fast_mqtt.Prelude.{length, get_elem?, Error}
use fast_mqtt.Packet.{PubReply, SubAck, UnsubAck}

-- What a future resolves to.
pub data Answer : Type 0 where
  acked : PubReply → Answer
  sub_acked : SubAck → Answer
  unsub_acked : UnsubAck → Answer
  pong : Answer

pub data Future : Type 0 where
  pending cancelled : Future
  resolved : Answer → Future
  failed : Error → Future

-- `not future.done()`
abbrev pub is_pending : Future → Bool
is_pending pending = true
is_pending _ = false

-- `if not future.done(): future.set_result(...)`, or `set_exception`
abbrev pub settled : Future → Future → Future
settled outcome pending = outcome
settled outcome f = f

unfoldable pub settle : ℕ → Future → List Future → List Future
settle i outcome [] = []
settle zero outcome (f ∷ fs) = settled outcome f ∷ fs
settle (suc i) outcome (f ∷ fs) = f ∷ settle i outcome fs

abbrev pub IsPending : ℕ → List Future → Type 0
IsPending i fs = get_elem? fs i ≡ some pending

pub settle-not-IsPending :
    (i : ℕ) (outcome : Future) (fs : List Future)
    → is_pending outcome ≡ false
    → ¬ IsPending i (settle i outcome fs)
unfolding settle
settle-not-IsPending i outcome [] h e = cc
settle-not-IsPending zero outcome (pending ∷ fs) h e = ground arith
settle-not-IsPending zero outcome (cancelled ∷ fs) h e = cc
settle-not-IsPending zero outcome (resolved a ∷ fs) h e = cc
settle-not-IsPending zero outcome (failed a ∷ fs) h e = cc
settle-not-IsPending (suc i) outcome (f ∷ fs) h e = settle-not-IsPending i outcome fs h e

pub IsPending-settle :
    (i j : ℕ) (outcome : Future) (fs : List Future)
    → is_pending outcome ≡ false
    → IsPending j (settle i outcome fs)
    → IsPending j fs
unfolding settle
IsPending-settle i j outcome [] h e = e
IsPending-settle zero zero outcome (pending ∷ fs) h e = refl
IsPending-settle zero zero outcome (cancelled ∷ fs) h e = e
IsPending-settle zero zero outcome (resolved a ∷ fs) h e = e
IsPending-settle zero zero outcome (failed a ∷ fs) h e = e
IsPending-settle zero (suc j) outcome (f ∷ fs) h e = e
IsPending-settle (suc i) zero outcome (f ∷ fs) h e = e
IsPending-settle (suc i) (suc j) outcome (f ∷ fs) h e = IsPending-settle i j outcome fs h e

pub IsPending-append :
    (j : ℕ) (fs : List Future) → IsPending j (fs ++ pending ∷ []) → IsPending j fs ⊎ (length fs ≡ j)
IsPending-append zero [] e = inr refl
IsPending-append (suc j) [] e = absurd (cc)
IsPending-append zero (f ∷ fs) e = inl e
IsPending-append (suc j) (f ∷ fs) e = elim (IsPending-append j fs e) [
  | inl before ↦ inl before
  | inr new ↦ inr (ap (λ n. suc n) new)
]

pub get_elem?-new : (fs : List Future) → get_elem? (fs ++ pending ∷ []) (length fs) ≡ some pending
get_elem?-new [] = refl
get_elem?-new (f ∷ fs) = get_elem?-new fs

pub get_elem?-settle :
    (i : ℕ) (outcome : Future) (fs : List Future)
    → IsPending i fs
    → get_elem? (settle i outcome fs) i ≡ some outcome
unfolding settle
get_elem?-settle i outcome [] e = absurd (cc)
get_elem?-settle zero outcome (pending ∷ fs) e = refl
get_elem?-settle zero outcome (cancelled ∷ fs) e = absurd (cc)
get_elem?-settle zero outcome (resolved a ∷ fs) e = absurd (cc)
get_elem?-settle zero outcome (failed a ∷ fs) e = absurd (cc)
get_elem?-settle (suc i) outcome (f ∷ fs) e = get_elem?-settle i outcome fs e
