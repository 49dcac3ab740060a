-- ===== src/Iso/RoundTrip/Loop.antt =====
-- Reading back the fields that a bitmap announces.
use native.Mathlib.Decide.{ℕ_discrete}
use longclaw.Base.{
  ℕ, zero, suc, ◌+◌, ◌≤◌, ◌<◌, ◌≡◌, refl, sym, ap, ◌∙◌, arith, Bool, true, false, Option, none,
  some, ◌++◌, append_assoc, append-nil, Bytes, length, ok, pos, max_int, ◌⊎◌, inl, inr, ◌≢◌, update,
}
use longclaw.Iso.BitSet.{BitSet, bit}
use longclaw.Iso.BitSet.Laws.{get_bit-bit}
use longclaw.Iso.Spec.{IsoSpec}
use longclaw.Iso.Message.{Fields, parse_message, parse_bit, parse_bits}
use longclaw.Iso.Format.{format_field, format_fields}
use longclaw.Iso.WellFormed.{Agrees, AgreesOn}
use longclaw.Iso.RoundTrip.Value.{read_defined-format_value}

abbrev pub put : Option Bytes → ℕ → Fields → Fields
put none key fields = fields
put (some v) key fields = update fields key v

-- The fields of `source` from `key` on, `rounds` of them, over the ones there are.
pub overlay : Fields → Fields → ℕ → ℕ → Fields
overlay source fields key zero = fields
overlay source fields key (suc rounds) =
    overlay source (put (source key) key fields) (key + 1) rounds

parse_bit-format_field :
    (spec : IsoSpec) (key cur : ℕ) (present : Bool) (o : Option Bytes) (pre rest s : Bytes)
    (fields : Fields)
    → Agrees spec key present o
    → s ≡ pre ++ (format_field spec key o ++ rest)
    → cur ≡ length pre
    → length s ≤ max_int
    → parse_bit spec s key present cur fields
      ≡ ok (length (pre ++ format_field spec key o), put o key fields)
unfolding parse_bit format_field
parse_bit-format_field spec key cur true (some v) pre rest s fields a e ecur room = rw one_value
  where
    one_value :
        parse_message spec s key cur ≡ ok (v, length (pre ++ format_field spec key (some v)))
    one_value =
        unfold parse_message in
        read_defined-format_value (spec.field_def_map (pos (key + 1))) (key + 1) cur pre v rest s a
          e ecur room
parse_bit-format_field spec key cur true none pre rest s fields a e ecur room = absurd a
parse_bit-format_field spec key cur false (some v) pre rest s fields a e ecur room = absurd a
parse_bit-format_field spec key cur false none pre rest s fields a e ecur room =
    ap (λ n. ok (n, fields)) (ecur ∙ ap length (sym (append-nil pre)))

-- The loop over a bitmap reads back the loop over the fields.
pub parse_bits-format_fields :
    (spec : IsoSpec) (bits : BitSet) (source : Fields) (base rounds ind key cur : ℕ)
    (pre rest s : Bytes) (fields : Fields)
    → base + ind ≡ key
    → ind + rounds ≤ 64
    → AgreesOn spec bits source base ind rounds
    → s ≡ pre ++ (format_fields spec source rounds key ++ rest)
    → cur ≡ length pre
    → length s ≤ max_int
    → parse_bits spec s bits base rounds ind cur fields
      ≡ ok (length (pre ++ format_fields spec source rounds key), overlay source fields key rounds)
unfolding parse_bits format_fields overlay
parse_bits-format_fields spec bits source base zero ind key cur pre rest s fields ek top a e ecur
      room =
    ap (λ n. ok (n, fields)) (ecur ∙ ap length (sym (append-nil pre)))
parse_bits-format_fields spec bits source base (suc rounds) ind key cur pre rest s fields ek top a e
      ecur room =
    rw (get_bit-bit bits ind (omega arith), ek, one_field)
      (parse_bits-format_fields spec bits source base rounds (ind + 1) (key + 1)
          (length (pre ++ field)) (pre ++ field) rest s (put (source key) key fields) (omega arith)
          (omega arith) (λ j lo hi. a j (omega arith) (omega arith))
          (behind ∙ sym (append_assoc pre field (others ++ rest))) refl room
        ∙ ap (λ t. ok (length t, overlay source (put (source key) key fields) (key + 1) rounds))
            (append_assoc pre field others))
  where
    field : Bytes
    field = format_field spec key (source key)

    others : Bytes
    others = format_fields spec source rounds (key + 1)

    behind : s ≡ pre ++ (field ++ (others ++ rest))
    behind = e ∙ ap (λ t. pre ++ t) (append_assoc field others rest)

    agrees : Agrees spec key (bit bits ind) (source key)
    agrees = rw ek at (a ind (omega arith) (omega arith))

    one_field :
        parse_bit spec s key (bit bits ind) cur fields
        ≡ ok (length (pre ++ field), put (source key) key fields)
    one_field =
        parse_bit-format_field spec key cur (bit bits ind) (source key) pre (others ++ rest) s
          fields agrees behind ecur room

put_ne : (o : Option Bytes) (key j : ℕ) (fields : Fields) → key ≢ j → put o key fields j ≡ fields j
put_ne none key j fields ne = refl
put_ne (some v) key j fields ne = ground arith

put_self :
    (o : Option Bytes) (key j : ℕ) (fields : Fields)
    → key ≡ j
    → fields j ≡ none
    → put o key fields j ≡ o
put_self none key j fields e fresh = fresh
put_self (some v) key j fields e fresh = ground arith

-- An overlay changes nothing outside its range, and inside it is the source where nothing was.
pub overlay_outside :
    (source fields : Fields) (key rounds j : ℕ)
    → (j < key) ⊎ (key + rounds ≤ j)
    → overlay source fields key rounds j ≡ fields j
unfolding overlay
overlay_outside source fields key zero j out = refl
overlay_outside source fields key (suc rounds) j out =
    overlay_outside source (put (source key) key fields) (key + 1) rounds j (moved out)
    ∙ put_ne (source key) key j fields (omega arith)
  where
    moved : (j < key) ⊎ (key + suc rounds ≤ j) → (j < key + 1) ⊎ (key + 1 + rounds ≤ j)
    moved (inl h) = inl (omega arith)
    moved (inr h) = inr (omega arith)

pub overlay_inside :
    (source fields : Fields) (key rounds j : ℕ)
    → key ≤ j
    → j < key + rounds
    → fields j ≡ none
    → overlay source fields key rounds j ≡ source j
unfolding overlay
overlay_inside source fields key zero j lo hi fresh = absurd (omega arith)
overlay_inside source fields key (suc rounds) j lo hi fresh = elim (ℕ_discrete key j) [
  | yes e ↦
      overlay_outside source (put (source key) key fields) (key + 1) rounds j (inl (omega arith))
      ∙ put_self (source key) key j fields e fresh
      ∙ ap source e
  | no ne ↦
      overlay_inside source (put (source key) key fields) (key + 1) rounds j (omega arith)
        (omega arith) (put_ne (source key) key j fields ne ∙ fresh)
]
