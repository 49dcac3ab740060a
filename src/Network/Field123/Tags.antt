-- ===== src/Network/Field123/Tags.antt =====
-- When reading a tag of field 123 panics.
use longclaw.Base.{
  ℕ, suc, ◌+◌, ◌-◌, ◌≤◌, ◌≡◌, ◌↔◌, refl, arith, Option, none, some, Bytes, length, take, drop, ltb,
  ge→ltb, Go, ok, panic, pos, negsuc, slice-ok, Bool-cases, inl, inr, ltb→ge, [],
}
use longclaw.Strconv.{Num, number, not_number, out_of_range, atoi}
use longclaw.Strings.{index_of}
use longclaw.Network.Field123.{value_at, tag_value, extract_tag}

-- The tag is there, and the two characters behind it are a minus sign and a digit other than 0.
abbrev pub HasNegativeLength : Bytes → Bytes → Type 0
HasNegativeLength field tag =
    (ind : ℕ) × (k : ℕ) × (index_of field tag ≡ some ind)
    × (ind + 4 ≤ length field)
    × (atoi (take 2 (drop (ind + 2) field)) ≡ number (negsuc k))

value_at-panic :
    (field : Bytes) (lo : ℕ) (n : Num)
    → lo ≤ length field
    → value_at field lo n ≡ panic
    → (k : ℕ) × (n ≡ number (negsuc k))
unfolding value_at
value_at-panic field lo (number (pos l)) h e =
    absurd (ground (arith, slice-ok {0} {E = ⊥} field lo (lo + l) l))
value_at-panic field lo (number (negsuc l)) h e = (l, refl)
value_at-panic field lo not_number h e = cc
value_at-panic field lo (out_of_range z) h e = cc

tag_value-panic :
    (field : Bytes) (o : Option ℕ)
    → tag_value field o ≡ panic
    → (ind : ℕ) × (k : ℕ) × (o ≡ some ind)
      × (ind + 4 ≤ length field)
      × (atoi (take 2 (drop (ind + 2) field)) ≡ number (negsuc k))
unfolding tag_value
tag_value-panic field none e = cc
tag_value-panic field (some ind) e = elim (Bool-cases (ltb (length field) (ind + 4))) [
  | inl short ↦ absurd (no_panic (rw (short, tag_value) at e))
  | inr room ↦
      let h : ind + 4 ≤ length field = ltb→ge (length field) (ind + 4) room in
      let e' : value_at field (ind + 4) (atoi (take 2 (drop (ind + 2) field))) ≡ panic =
        rw (room, slice-ok field (ind + 2) (ind + 4) 2 (omega arith) h) at e in
      let (k, is_negative) = value_at-panic field (ind + 4) _ h e' in (ind, k, refl, h, is_negative)
]
  where
    no_panic : ◌≡◌ {A = Go ⊥ Bytes} (ok []) panic → ⊥
    no_panic h = cc

-- Reading a tag panics exactly if the tag's length is negative.
pub extract_tag_panics :
    (field tag : Bytes) → (extract_tag field tag ≡ panic) ↔ HasNegativeLength field tag
extract_tag_panics field tag = (
  λ e. unfold extract_tag in tag_value-panic field (index_of field tag) e,
  λ (ind, k, at, room, is_negative). back ind k at room is_negative,
)
  where
    beyond : (lo k : ℕ) → lo ≤ length field → value_at field lo (number (negsuc k)) ≡ panic
    beyond lo k h = unfold value_at in rw (ge→ltb (length field) (lo - suc k) (omega arith))

    back :
        (ind k : ℕ)
        → index_of field tag ≡ some ind
        → ind + 4 ≤ length field
        → atoi (take 2 (drop (ind + 2) field)) ≡ number (negsuc k)
        → extract_tag field tag ≡ panic
    back ind k at room is_negative =
        unfold extract_tag tag_value value_at in
        rw
          (
            at,
            ge→ltb (length field) (ind + 4) room,
            slice-ok field (ind + 2) (ind + 4) 2 (omega arith) room,
            is_negative,
          )
          (beyond (ind + 4) k room)
