-- ===== src/Codec/Steps.antt =====
-- The steps that the decoders of codec.py share.
use fast_mqtt.Prelude.{ℕ, zero, suc, ◌+◌, List, [], ◌∷◌, Bool, true, false, Option, none, some}
use fast_mqtt.Prelude.{length, ltb, if◌then◌else◌, ok, err, value_error, out_of_fuel}
use fast_mqtt.Cursor.{Cursor, Decoder, advance, pure, raise, next_byte, ◌>>=◌}
use fast_mqtt.Packet.{Version, v3, v5}

-- `if pos + n > len(buf): raise ValueError`
unfoldable pub require : ℕ → Cursor (Unit {0})
require n buf pos = if ltb (length buf) (pos + n) then err value_error else ok (tt, pos)

-- `pos < len(buf)`. Where the source asks `len(buf) > 2`, the position is 2.
unfoldable pub has_more : Cursor Bool
has_more buf pos = ok (ltb pos (length buf), pos)

-- `props = None`, and a block that is there in version 5 only
abbrev pub versioned {ℓ} : {A : Type ℓ} → Version → Decoder (Option A) → Cursor (Option A)
versioned v3 d = pure none
versioned v5 d = advance d

-- An enumeration's class called on a number: ValueError where it has no such member.
abbrev pub member {ℓ} : {A : Type ℓ} → Option A → Cursor A
member none = raise value_error
member (some a) = pure a

-- `while pos < len(buf)`, on rounds.
unfoldable pub read_list {ℓ} : {A : Type ℓ} → ℕ → Cursor A → Cursor (List A)
read_list zero item buf pos = if ltb pos (length buf) then err out_of_fuel else ok ([], pos)
read_list (suc rounds) item buf pos =
    let more = (item >>= λ a. read_list rounds item >>= λ as'. pure (a ∷ as')) buf pos in
    if ltb pos (length buf) then more else ok ([], pos)

-- Every item takes a byte at least, so `len(buf)` rounds are enough.
unfoldable pub read_all {ℓ} : {A : Type ℓ} → Cursor A → Cursor (List A)
unfolding read_list
read_all item buf pos = read_list (length buf) item buf pos

-- `if not good: raise ValueError`
abbrev pub check : Bool → Cursor (Unit {0})
check true = pure tt
check false = raise value_error

-- A version 5 block that is read if bytes are left.
unfoldable pub trailing {ℓ} : {A : Type ℓ} → Version → Decoder (Option A) → Cursor (Option A)
unfolding has_more
trailing v3 d = pure none
trailing v5 d = has_more >>= λ more. if more then advance d else pure none

-- The reason code of version 5, if a byte is left for it, and the properties after it.
unfoldable pub reason_if {ℓ} : {A : Type ℓ} → Decoder (Option A) → Bool → Cursor (ℕ × Option A)
unfolding next_byte trailing
reason_if d false = pure (0, none)
reason_if d true = do reason ← next_byte; props ← trailing v5 d; pure (reason, props)

unfoldable pub read_reason {ℓ} : {A : Type ℓ} → Version → Decoder (Option A) → Cursor (ℕ × Option A)
unfolding has_more reason_if
read_reason v3 d = pure (0, none)
read_reason v5 d = has_more >>= reason_if d
