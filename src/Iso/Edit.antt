-- ===== src/Iso/Edit.antt =====
-- iso/iso_messages.go: reading and changing a message: `GetMTI`, `GetField`, `SetField`, `MarkField`,
-- `NewResponseMessage`. A method with a pointer receiver returns the changed message.
pub mod Marks
use longclaw.Base.{
  ℕ, ◌-◌, true, Option, none, some, [], ◌++◌, Bytes, length, take, drop, ltb, if◌then◌else◌, Go, ok,
  panic, ◌>>=◌, slice, slice_from, update,
}
use longclaw.Iso.BitSet.{BitSet, zero_bits, set_bit}
use longclaw.Iso.Message.{Message}

unfoldable pub get_mti {ℓ} : {E : Type ℓ} → Message → Go E Bytes
get_mti m = slice m.message 0 4

unfoldable pub set_field : Message → ℕ → Bytes → Message
set_field m field_num value = record m { fields = update m.fields field_num value }

-- A missing key reads as the empty string.
abbrev pub or_empty : Option Bytes → Bytes
or_empty none = []
or_empty (some v) = v

unfoldable pub get_field : Message → ℕ → Bytes
get_field m field_num = or_empty (m.fields field_num)

unfoldable pub or_new : Option BitSet → BitSet
or_new none = zero_bits
or_new (some b) = b

unfoldable pub mark_field {ℓ} : {E : Type ℓ} → Message → ℕ → Go E Message
unfolding or_new
mark_field m field_idx =
    if ltb field_idx 64
    then (do bits ← set_bit m.primary field_idx true; ok (record m { primary = bits }))
    else do
      bits ← set_bit m.primary 0 true
      above ← set_bit (or_new m.secondary) (field_idx - 64) true
      ok (record m { primary = bits; secondary = some above })

-- The bitmaps and the fields are copied, so that a change of the response leaves the request alone.
unfoldable pub new_response_message {ℓ} : {E : Type ℓ} → Message → Bytes → Go E Message
new_response_message req response_mti = do
  rest ← slice_from req.message 4
  ok (record req { message = response_mti ++ rest })
