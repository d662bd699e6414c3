-- ===== src/Prelude/Outcome.antt =====
-- A Python call that returns or raises, and the exceptions that the modelled code raises.
use Prim.Native.Nat.{ℕ}
use mathlib.Core.List.{List}
use mathlib.Core.Option.{Option}
use mathlib.Core.Path.{◌≡◌, refl}
use mathlib.Core.Logic.{◌⊎◌, inl, inr}
use mathlib.Core.Bool.{Bool, true, false}

-- Of the exceptions of errors.py, `qos_exceeded_error`, `publish_error` and `subscribe_error` carry
-- what their classes carry, less the name that a table gives to the reason code, and `connect_error`
-- carries the return code without the properties of CONNACK. `os_error` is what a closed socket
-- raises, and `invalid_state_error` and `cancelled_error` are asyncio's. `out_of_fuel` is no
-- exception: a loop of the model used up its rounds. `unicode_error` stands for UnicodeEncodeError and
-- UnicodeDecodeError, which are subclasses of ValueError.
pub data Error : Type 0 where
  value_error index_error struct_error unicode_error type_error : Error
  runtime_error protocol_error invalid_topic_error out_of_fuel : Error
  disconnected_error timeout_error : Error
  qos_exceeded_error : (requested maximum : ℕ) → Error
  invalid_state_error cancelled_error os_error : Error
  connect_error : (return_code : ℕ) → Error
  publish_error : (reason_code : ℕ) (reason_string : Option (List ℕ)) → Error
  subscribe_error : (failures : List (List ℕ × ℕ)) → Error

pub data Result {ℓ} (A : Type ℓ) : Type ℓ where
  ok : A → Result A
  err : Error → Result A

-- `if bad: raise e`
abbrev pub refuse : Bool → Error → Result (Unit {0})
refuse true e = err e
refuse false e = ok tt

infixl 5 ◌>>=◌
abbrev pub ◌>>=◌ {ℓ κ} : {A : Type ℓ} {B : Type κ} → Result A → (A → Result B) → Result B
ok value >>= next = next value
err raised >>= next = err raised

infixl 5 ◌>>◌
abbrev pub ◌>>◌ {ℓ} : {B : Type ℓ} → Result (Unit {0}) → Result B → Result B
first >> second = first >>= λ _. second

-- Inversion of a successful chain.
pub bind-eq-ok {ℓ κ} :
    {A : Type ℓ} {B : Type κ} (first : Result A) (next : A → Result B) {final : B}
    → (first >>= next) ≡ ok final
    → (value : A) × (first ≡ ok value) × (next value ≡ ok final)
bind-eq-ok (ok value) next h = (value, refl, h)
bind-eq-ok (err raised) next h = cc

pub ok-injective {ℓ} : {A : Type ℓ} {a b : A} → ok a ≡ ok b → a ≡ b
ok-injective h = cc

-- The same, handing the parts to what follows as variables.
pub bind-ok {ℓ κ υ} :
    {A : Type ℓ} {B : Type κ} {P : Type υ} (m : Result A) (f : A → Result B) {b : B}
    → (m >>= f) ≡ ok b
    → ((a : A) → m ≡ ok a → f a ≡ ok b → P)
    → P
bind-ok (ok a) f h k = k a refl h
bind-ok (err e) f h k = absurd (cc)

pub Result-cases {ℓ} :
    {A : Type ℓ} (r : Result A) → ((a : A) × (r ≡ ok a)) ⊎ ((e : Error) × (r ≡ err e))
Result-cases (ok a) = inl (a, refl)
Result-cases (err e) = inr (e, refl)

pub refuse-ok : (bad : Bool) (e : Error) {u : Unit {0}} → refuse bad e ≡ ok u → bad ≡ false
refuse-ok true e h = absurd (cc)
refuse-ok false e h = refl
