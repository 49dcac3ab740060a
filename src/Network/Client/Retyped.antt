-- ===== src/Network/Client/Retyped.antt =====
-- A request and its reply: the test client (network/client/iso_client.go) changes the type and keeps the rest.
use longclaw.Base.{
  ◌≤◌, ◌≡◌, refl, sym, arith, true, false, ◌||◌, some, List, [], ◌∷◌, ◌++◌, Bytes, codes, bytes_eq,
  length, take, drop, take-append, drop-append, length-append, length-take,
}
use longclaw.Iso.Message.{Message}
use longclaw.Iso.WellFormed.{IsWellFormed}
use longclaw.Iso.RoundTrip.{text}
use longclaw.Strings.{string_of_byte}
use longclaw.Network.Mti.{one_of, is_request_mti, is_response_mti, response_mti}
use longclaw.Network.Mti.Laws.{one_of_all}
use longclaw.Network.Client.{reply}

-- The requests of the load generator: all but the network management messages.
abbrev pub financial_mti_set : List Bytes
financial_mti_set =
    codes "0100" ∷ codes "0101" ∷ codes "0200" ∷ codes "0201" ∷ codes "0420" ∷ codes "0421" ∷ []

-- How the test client's type for a request is read by the server.
abbrev pub IsAnswered : Bytes → Type 0
IsAnswered mti =
    (rest : Bytes)
    → (r : Bytes) × (response_mti (mti ++ rest) ≡ some r)
      × (length r ≡ 4)
      × (is_request_mti r ≡ false)
      × (is_response_mti r ≡ true)
      × ((bytes_eq r (codes "0810") || bytes_eq r (codes "0800")) ≡ false)

pub financial-IsAnswered : (mti : Bytes) → one_of mti financial_mti_set ≡ true → IsAnswered mti
unfolding response_mti is_request_mti is_response_mti string_of_byte
financial-IsAnswered mti h =
    one_of_all IsAnswered mti financial_mti_set
      (
        (λ rest. (codes "0110", refl, refl, refl, refl, refl)),
        (
          (λ rest. (codes "0111", refl, refl, refl, refl, refl)),
          (
            (λ rest. (codes "0210", refl, refl, refl, refl, refl)),
            (
              (λ rest. (codes "0211", refl, refl, refl, refl, refl)),
              (
                (λ rest. (codes "0430", refl, refl, refl, refl, refl)),
                ((λ rest. (codes "0431", refl, refl, refl, refl, refl)), tt),
              ),
            ),
          ),
        ),
      )
      h

-- The text behind the type.
abbrev pub body : Message → Bytes
body m = drop 4 (text m)

-- The message with another type.
abbrev pub retyped : Bytes → Message → Message
retyped r m = record m { message = r ++ body m }

resplit :
    (x r behind : Bytes)
    → 4 ≤ length x
    → length r ≡ 4
    → take 4 (r ++ drop 4 (take 4 x ++ behind)) ++ behind ≡ r ++ drop 4 (take 4 x ++ behind)
resplit x r behind h h' =
    rw
      (
        drop-append (take 4 x) behind 4 (omega (arith, length-take 4 x)),
        take-append r behind 4 (sym h'),
      )
      refl

pub retyped-text :
    (m : Message) (r : Bytes)
    → 4 ≤ length m.message
    → length r ≡ 4
    → text (retyped r m) ≡ r ++ body m
retyped-text m r h h' = resplit m.message r _ h h'

pub retyped-IsWellFormed :
    (m : Message) (r : Bytes) → length r ≡ 4 → IsWellFormed m → IsWellFormed (retyped r m)
retyped-IsWellFormed m r h wf = record {
  has_mti = rw (length-append r (body m)) (omega (arith, h));
  word = wf.word;
  no_field_zero = wf.no_field_zero;
  low = wf.low;
  high = wf.high;
}

-- The reply carries the fields of the request.
pub reply-response_mti :
    (message r : Bytes) → response_mti message ≡ some r → reply message ≡ some (r ++ drop 4 message)
unfolding reply
reply-response_mti message r e = rw (e, reply) refl
