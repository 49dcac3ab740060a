-- ===== src/Network/Response.antt =====
-- network/server/iso_response_handler.go: the simulated issuer's answer to a request.
pub mod Code
pub mod Reply
pub mod Answer
use longclaw.Base.{
  ℕ, zero, suc, ◌+◌, ◌-◌, ◌*◌, ◌/◌, ◌%◌, ◌≤◌, ◌<◌, Bool, true, false, not, ◌&&◌, ◌||◌, Option, none,
  some, List, [], ◌∷◌, ◌++◌, Bytes, codes, bytes_eq, length, take, drop, get_elem?, ltb, leb, ◌==◌,
  if◌then◌else◌, Go, ok, err, panic, ◌>>=◌, ℤ, pos, negsuc, slice, slice_from, index,
}
use longclaw.Strconv.{Num, number, not_number, out_of_range, atoi, ignore_error, negate, format_int}
use longclaw.Strings.{has_prefix, index_of, contains, trim_left, trim_right, string_of_byte}
use longclaw.Iso.Message.{Message}
use longclaw.Iso.Edit.{get_mti, get_field, set_field, mark_field, new_response_message}
use longclaw.Network.Mti.{to_response_mti}
use longclaw.Network.Field123.{get_avs_result, get_cvv_result, build_field123, additional_amount}

abbrev pub field_idx_auth_id : ℕ
field_idx_auth_id = 37

abbrev pub field_idx_response_code : ℕ
field_idx_response_code = 38

abbrev pub field_idx_currency : ℕ
field_idx_currency = 48

abbrev pub field_idx_addl_amounts : ℕ
field_idx_addl_amounts = 53

abbrev pub field_idx_issuer_data : ℕ
field_idx_issuer_data = 122

-- `strconv.ParseInt(strings.TrimLeft(amount, "0"), 10, 64)` with the error dropped
unfoldable pub amount_of : Bytes → ℤ
amount_of amount = ignore_error (atoi (trim_left b'0' amount))

-- Go divides towards zero.
half : ℤ → ℤ
half (pos n) = pos (n / 2)
half (negsuc n) = negate (suc n / 2)

pub approval : Bytes → Bytes
approval field123 = if contains field123 (codes "SUPPORT") then codes "10" else codes "00"

-- The pause of two seconds at the digits 4 and 5 is not part of the result.
unfoldable pub is_zero : ℤ → Bool
is_zero (pos zero) = true
is_zero _ = false

-- A partial approval halves the amount and reports the original one.
unfoldable pub add_partial : Bytes → Bytes → ℤ → Message → Go ⊥ Message
unfolding half
add_partial response_code currency orig_amt resp =
    if bytes_eq response_code (codes "10")
    then (do
      marked ← mark_field (set_field resp 3 (format_int 12 (half orig_amt))) field_idx_addl_amounts
      ok (
          set_field marked field_idx_addl_amounts
            (additional_amount (codes "00") (codes "91") currency orig_amt)))
    else ok resp

unfoldable pub default_currency : Bytes → Bytes
default_currency currency = if bytes_eq currency [] then codes "840" else currency

-- `MarkField` and `SetField` of one field.
unfoldable pub add_field : ℕ → Bytes → Message → Go ⊥ Message
add_field idx value resp = do marked ← mark_field resp idx; ok (set_field marked idx value)

-- What the issuer takes from outside: `rand.Intn`, the time as `150405`, and the product with 0.8 in
-- floating point, rounded to an integer.
pub record Env : Type 0 where
  pub intn : ℕ → ℕ
  pub intn_lt : (n : ℕ) → 0 < n → intn n < n
  pub clock : Bytes
  pub four_fifths : ℤ → ℤ

module _ (env : Env) where
  open env use {intn, clock, four_fifths}

  -- `list[rand.Intn(n)]`
  pub pick : List Bytes → ℕ → Go ⊥ Bytes
  pick codes n = elim (get_elem? codes (intn n)) [ none ↦ panic | some c ↦ ok c ]

  pub response_code_from_digit : ℕ → Bytes → Go ⊥ Bytes
  response_code_from_digit digit field123 =
      if leb digit 4
      then ok (approval field123)
      else if digit == 5
      then ok (codes "00")
      else if digit == 6
      then pick (codes "05" ∷ codes "06" ∷ codes "07" ∷ []) 3
      else if digit == 7
      then ok (codes "51")
      else if digit == 8
      then pick (codes "34" ∷ codes "33" ∷ codes "35" ∷ []) 3
      else if digit == 9
      then pick
          (codes "SA"
            ∷ codes "SB"
            ∷ codes "SD"
            ∷ codes "SR"
            ∷ codes "T3"
            ∷ codes "T4"
            ∷ codes "T5"
            ∷ [])
          7
      else ok (codes "96")

  -- The code for the digit of the PAN, if it is one.
  unfoldable pub code_of_num : Num → Bytes → Bytes → Go ⊥ Bytes
  code_of_num (number (pos digit)) amount field123 =
      response_code_from_digit (if is_zero (amount_of amount) && digit == 7 then 0 else digit)
        field123
  code_of_num (number (negsuc digit)) amount field123 = ok (codes "96")
  code_of_num not_number amount field123 = ok (codes "96")
  code_of_num (out_of_range z) amount field123 = ok (codes "96")

  unfoldable pub get_response_code : Bytes → Bytes → Bytes → Go ⊥ Bytes
  get_response_code pan amount field123 =
      if ltb (length pan) 16
      then ok (codes "96")
      else do c ← index pan 15; code_of_num (atoi (string_of_byte c)) amount field123

  -- A decline for lack of funds reports the balance, if the request asks for it.
  unfoldable pub add_balance : Bytes → Bytes → Bytes → ℤ → Message → Go ⊥ Message
  add_balance response_code field123 currency orig_amt resp =
      if bytes_eq response_code (codes "51") && contains field123 (codes "RETURNBAL")
      then (do
        marked ← mark_field resp field_idx_addl_amounts
        ok (
            set_field marked field_idx_addl_amounts
              (additional_amount (codes "00") (codes "02") currency (four_fifths orig_amt))))
      else ok resp

  unfoldable pub build_authorization : Message → Message → Go ⊥ Message
  unfolding default_currency add_field add_partial add_balance
  build_authorization req resp = do
    let amount = get_field req 3
    let field123 = get_field req field_idx_issuer_data
    response_code ← get_response_code (get_field req 1) amount field123
    resp1 ← add_field field_idx_auth_id clock resp
    resp2 ← add_field field_idx_response_code response_code resp1
    avs ← get_avs_result field123
    cvv ← get_cvv_result field123
    resp3 ← add_field field_idx_issuer_data (build_field123 avs cvv) resp2
    let orig_amt = amount_of amount
    let currency = default_currency (get_field req field_idx_currency)
    resp4 ← add_partial response_code currency orig_amt resp3
    add_balance response_code field123 currency orig_amt resp4

  unfoldable pub build_response : Message → Go ⊥ Message
  unfolding build_authorization
  build_response req = do
    mti ← get_mti req
    resp ← new_response_message req (to_response_mti mti)
    if bytes_eq mti (codes "0800") || bytes_eq mti (codes "0801")
        then add_field field_idx_response_code (codes "00") resp
        else build_authorization req resp
