-- ===== src/Network/Field123.antt =====
-- network/server/iso_response_handler.go: reading the acquirer's tags of field 123 and writing the
-- issuer's answers.
pub mod Tags
use longclaw.Base.{
  ℕ, zero, suc, ◌+◌, ◌-◌, ◌*◌, ◌/◌, ◌%◌, ◌≤◌, ◌<◌, Bool, true, false, not, ◌&&◌, ◌||◌, Option, none,
  some, List, [], ◌∷◌, ◌++◌, Bytes, codes, bytes_eq, length, take, drop, get_elem?, ltb, leb, ◌==◌,
  if◌then◌else◌, Go, ok, err, panic, ◌>>=◌, ℤ, pos, negsuc, slice, slice_from, index,
}
use longclaw.Strconv.{Num, number, not_number, out_of_range, atoi, ignore_error, negate, format_int}
use longclaw.Strings.{has_prefix, index_of, contains, trim_left, trim_right, string_of_byte}

-- `l` bytes from `lo` on; a negative length makes the slice's end lie before its start.
value_at : Bytes → ℕ → Num → Go ⊥ Bytes
value_at field lo (number (pos l)) =
    if ltb (length field) (lo + l) then ok [] else slice field lo (lo + l)
value_at field lo (number (negsuc l)) = if ltb (length field) (lo - suc l) then ok [] else panic
value_at field lo not_number = ok []
value_at field lo (out_of_range z) = ok []

tag_value : Bytes → Option ℕ → Go ⊥ Bytes
tag_value field none = ok []
tag_value field (some ind) =
    if ltb (length field) (ind + 4)
    then ok []
    else do digits ← slice field (ind + 2) (ind + 4); value_at field (ind + 4) (atoi digits)

unfoldable pub extract_tag : Bytes → Bytes → Go ⊥ Bytes
unfolding value_at tag_value
extract_tag field tag = tag_value field (index_of field tag)

is_digit : ℕ → Bool
is_digit c = leb b'0' c && leb c b'9'

starts_with_digit : Bytes → Bool
starts_with_digit [] = false
starts_with_digit (c ∷ s) = is_digit c

-- The switch over what of the address matched.
avs_code : Bytes → Bytes → Bytes
avs_code zip street =
    let zip9 = (length zip == 9) && has_prefix zip (codes "9") in
    let zip5 = leb 5 (length zip) && (has_prefix zip (codes "5") || has_prefix zip (codes "3")) in
    let has_street = starts_with_digit street in
    if zip9 && has_street
    then codes "X"
    else if zip5 && has_street
    then codes "Y"
    else if zip5
    then codes "Z"
    else if zip9
    then codes "W"
    else if has_street
    then codes "A"
    else codes "N"

unfoldable pub get_avs_result : Bytes → Go ⊥ Bytes
unfolding is_digit starts_with_digit avs_code
get_avs_result field123 = do
  av_data ← extract_tag field123 (codes "AV")
  ok (
      if ltb (length av_data) 9
      then codes "E"
      else avs_code (trim_right b' ' (take 9 av_data)) (drop 9 av_data))

cvv_code : Bytes → Bytes
cvv_code cv_val =
    if leb 3 (length cv_val) && bytes_eq (drop (length cv_val - 3) cv_val) (codes "949")
    then codes "M"
    else if bytes_eq cv_val (codes "838")
    then codes "P"
    else codes "N"

unfoldable pub get_cvv_result : Bytes → Go ⊥ Bytes
unfolding cvv_code
get_cvv_result field123 = do
  cv_val ← extract_tag field123 (codes "CV")
  ok (if bytes_eq cv_val [] then codes "N" else cvv_code cv_val)

unfoldable pub build_field123 : Bytes → Bytes → Bytes
build_field123 ar cr = codes "TDAR01" ++ (ar ++ (codes "CR01" ++ cr))

unfoldable pub additional_amount : Bytes → Bytes → Bytes → ℤ → Bytes
additional_amount account_type amount_type currency amount =
    account_type ++ (amount_type ++ (currency ++ (codes "C" ++ format_int 12 amount)))
