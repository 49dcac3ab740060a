-- ===== src/Network/Mti.antt =====
-- The types of messages: which are requests and which responses, the response type of a request
-- (network/server/iso_response_handler.go), the key that pairs a response with its request
-- (network/server/iso_server.go) and the answer of the test client (network/client/iso_client.go).
pub mod Laws
use longclaw.Base.{
  ℕ, zero, suc, ◌+◌, ◌-◌, ◌*◌, ◌/◌, ◌%◌, ◌≤◌, ◌<◌, Bool, true, false, not, ◌&&◌, ◌||◌, Option, none,
  some, List, [], ◌∷◌, ◌++◌, Bytes, codes, bytes_eq, length, take, drop, get_elem?, ltb, leb, ◌==◌,
  if◌then◌else◌, Go, ok, err, panic, ◌>>=◌, ℤ, pos, negsuc, slice, slice_from, index,
}
use longclaw.Strconv.{Num, number, not_number, out_of_range, atoi, ignore_error, negate, format_int}
use longclaw.Strings.{has_prefix, index_of, contains, trim_left, trim_right, string_of_byte}

abbrev pub one_of : Bytes → List Bytes → Bool
one_of s [] = false
one_of s (t ∷ ts) = bytes_eq s t || one_of s ts

abbrev pub request_mti_set : List Bytes
request_mti_set =
    codes "0100"
    ∷ codes "0101"
    ∷ codes "0200"
    ∷ codes "0201"
    ∷ codes "0420"
    ∷ codes "0421"
    ∷ codes "0800"
    ∷ []

abbrev pub response_mti_set : List Bytes
response_mti_set =
    codes "0110"
    ∷ codes "0111"
    ∷ codes "0130"
    ∷ codes "0131"
    ∷ codes "0210"
    ∷ codes "0211"
    ∷ codes "0230"
    ∷ codes "0231"
    ∷ codes "0430"
    ∷ codes "0431"
    ∷ codes "0810"
    ∷ []

unfoldable pub is_request_mti : Bytes → Bool
is_request_mti mti = one_of mti request_mti_set

unfoldable pub is_response_mti : Bytes → Bool
is_response_mti mti = one_of mti response_mti_set

-- `n & 0xFFFE` of a 64-bit `int`: the low 16 bits, of the two's complement, without the last.
abbrev pub and_fffe : ℤ → ℕ
and_fffe (pos n) = n % 65536 / 2 * 2
and_fffe (negsuc n) = (65535 - n % 65536) / 2 * 2

unfoldable pub to_response_mti : Bytes → Bytes
unfolding atoi format_int
to_response_mti mti = format_int 4 (pos (and_fffe (ignore_error (atoi mti)) + 10))

-- `mti[2]&^1` of a byte
abbrev pub make_even : ℕ → ℕ
make_even c = c / 2 * 2

unfoldable pub match_key {ℓ} : {E : Type ℓ} → Bytes → Bytes → Go E Bytes
unfolding string_of_byte slice index
match_key mti reference = do
  front ← slice mti 0 2
  function ← index mti 2
  origin ← slice mti 3 4
  ok (front ++ (string_of_byte (make_even function) ++ (origin ++ (codes "|" ++ reference))))

-- The test client replies to a message whose function digit is even, by the digit after it.
unfoldable pub response_mti : Bytes → Option Bytes
unfolding string_of_byte
response_mti (a ∷ b ∷ c ∷ d ∷ rest) =
    if ltb c b'0' || ltb b'9' c || not ((c - b'0') % 2 == 0)
    then none
    else some (a ∷ b ∷ string_of_byte (c + 1) ++ d ∷ [])
response_mti _ = none
