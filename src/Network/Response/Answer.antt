-- ===== src/Network/Response/Answer.antt =====
-- The whole answer: `buildResponse` builds it, unless a tag of field 123 has a negative length.
use longclaw.Base.{
  ◌≤◌, ◌≡◌, refl, arith, false, ◌||◌, ◌&&◌, Bytes, codes, length, bytes_eq, drop, take, ◌++◌, Go,
  ok, err, panic, ◌>>=◌, ℤ, Returns, Returns-bind, Returns-result, Bool-cases, inl, inr,
  slice_from-ok, slice-ok, total,
}
use longclaw.Strings.{contains}
use longclaw.Iso.Message.{Message}
use longclaw.Iso.Edit.{get_mti, get_field, set_field, mark_field, new_response_message}
use longclaw.Network.Mti.{to_response_mti}
use longclaw.Network.Field123.{extract_tag, get_avs_result, get_cvv_result, build_field123}
use longclaw.Network.Field123.Tags.{HasNegativeLength, extract_tag_panics}
use longclaw.Network.Response.{
  Env, get_response_code, add_partial, add_balance, add_field, build_authorization, build_response,
  default_currency, amount_of,
}
use longclaw.Network.Response.Code.{get_response_code-total}
use longclaw.Network.Response.Reply.{
  Reply, Copy, add_field-Copy, add_field-Reply, add_code, Reply-write,
}

-- Test messages ask whether the connection is alive.
abbrev pub IsAuthorization : Message → Type 0
IsAuthorization req =
    (bytes_eq (take 4 req.message) (codes "0800") || bytes_eq (take 4 req.message) (codes "0801"))
    ≡ false

extract_tag-ok :
    (field tag : Bytes)
    → (HasNegativeLength field tag → ⊥)
    → (v : Bytes) × (extract_tag field tag ≡ ok v)
extract_tag-ok field tag h =
    total (extract_tag field tag) (λ e. h ((extract_tag_panics field tag).0 e))

returns-ok :
    (m : Go ⊥ Bytes) (f : Bytes → Bytes) {v : Bytes}
    → m ≡ ok v
    → (w : Bytes) × ((m >>= λ a. ok (f a)) ≡ ok w)
returns-ok m f {v} e = (f v, rw e refl)

get_avs_result-ok :
    (field : Bytes)
    → (HasNegativeLength field (codes "AV") → ⊥)
    → (v : Bytes) × (get_avs_result field ≡ ok v)
get_avs_result-ok field h =
    let (v, e) = extract_tag-ok field (codes "AV") h in
    unfold get_avs_result in returns-ok (extract_tag field (codes "AV")) _ e

get_cvv_result-ok :
    (field : Bytes)
    → (HasNegativeLength field (codes "CV") → ⊥)
    → (v : Bytes) × (get_cvv_result field ≡ ok v)
get_cvv_result-ok field h =
    let (v, e) = extract_tag-ok field (codes "CV") h in
    unfold get_cvv_result in returns-ok (extract_tag field (codes "CV")) _ e

module _ (env : Env) (req : Message) (code : Bytes) where
  add_partial-Reply :
      (response_code currency : Bytes) (amount : ℤ) (m : Message)
      → Reply req code m
      → Returns (Reply req code) (add_partial response_code currency amount m)
  add_partial-Reply response_code currency amount m p =
      unfold add_partial in
      elim (Bool-cases (bytes_eq response_code (codes "10"))) [
        | inl e ↦ rw e (written _ _)
        | inr e ↦ rw e p
      ]
    where
      written :
          (v w : Bytes)
          → Returns {E = ⊥}
              (Reply req code)
              (mark_field (set_field m 3 v) 53 >>= λ marked. ok (set_field marked 53 w))
      written v w =
          unfold add_field in
          add_field-Reply req code (set_field m 3 v) 53 w (omega arith) refl (omega arith)
            (Reply-write req code m 3 v refl (omega arith) p)

  add_balance-Reply :
      (response_code field123 currency : Bytes) (amount : ℤ) (m : Message)
      → Reply req code m
      → Returns (Reply req code) (add_balance env response_code field123 currency amount m)
  add_balance-Reply response_code field123 currency amount m p =
      unfold add_balance in
      elim (Bool-cases
        (bytes_eq response_code (codes "51") && contains field123 (codes "RETURNBAL"))) [
          | inl e ↦ rw e (written _)
          | inr e ↦ rw e p
        ]
    where
      written :
          (w : Bytes)
          → Returns {E = ⊥}
              (Reply req code)
              (mark_field m 53 >>= λ marked. ok (set_field marked 53 w))
      written w =
          unfold add_field in add_field-Reply req code m 53 w (omega arith) refl (omega arith) p

  -- The steps behind the result of the CVV check.
  finish-Reply :
      (field123 currency : Bytes) (amount : ℤ) (value : Bytes) (m : Message)
      → Reply req code m
      → Returns (Reply req code) (
          add_field 122 value m >>= λ resp3. add_partial code currency amount resp3 >>= λ resp4.
          add_balance env code field123 currency amount resp4)
  finish-Reply field123 currency amount value m p =
      Returns-bind (Reply req code) (Reply req code) _ _
        (add_field-Reply req code m 122 value (omega arith) refl (omega arith) p)
        (λ m3 e3 p3.
          Returns-bind (Reply req code) (Reply req code) _ _
            (add_partial-Reply code currency amount m3 p3)
            (λ m4 e4 p4. add_balance-Reply code field123 currency amount m4 p4))

  build_authorization-Reply :
      (resp : Message) (avs cvv : Bytes)
      → Copy req resp
      → get_avs_result (get_field req 122) ≡ ok avs
      → get_cvv_result (get_field req 122) ≡ ok cvv
      → get_response_code env (get_field req 1) (get_field req 3) (get_field req 122) ≡ ok code
      → Returns (Reply req code) (build_authorization env req resp)
  unfolding build_authorization
  build_authorization-Reply resp avs cvv p a c e =
      rw (e, a, c)
        (Returns-bind (Copy req) (Reply req code) _ _
          (add_field-Copy req resp 37 env.clock (omega arith) refl p)
          (λ m1 e1 p1.
            Returns-bind (Reply req code) (Reply req code) _ _ (add_code req m1 code p1)
              (λ m2 e2 p2.
                finish-Reply (get_field req 122) (default_currency (get_field req 48))
                  (amount_of (get_field req 3)) (build_field123 avs cvv) m2 p2)))

bind-panics :
    {A B : Type 0} (m : Go ⊥ A) (f : A → Go ⊥ B) → ((a : A) → f a ≡ panic) → (m >>= f) ≡ panic
bind-panics (ok a) f h = h a
bind-panics (err e) f h = absurd e
bind-panics panic f h = refl

get_cvv_result-panics :
    (field : Bytes) → HasNegativeLength field (codes "CV") → get_cvv_result field ≡ panic
get_cvv_result-panics field negative =
    unfold get_cvv_result in rw ((extract_tag_panics field (codes "CV")).1 negative)

module _ (env : Env) (req : Message) where
  get_mti-take : 4 ≤ length req.message → get_mti {E = ⊥} req ≡ ok (take 4 req.message)
  get_mti-take h = unfold get_mti in slice-ok req.message 0 4 4 refl h

  new_response_message-Copy :
      4 ≤ length req.message
      → (resp : Message) × (new_response_message {E = ⊥} req (to_response_mti (take 4 req.message))
          ≡ ok resp)
        × Copy req resp
  new_response_message-Copy h = (
    record req { message = to_response_mti (take 4 req.message) ++ drop 4 req.message },
    unfold new_response_message in rw (slice_from-ok {E = ⊥} req.message 4 h),
    record { kept = λ j k. refl; headed = refl },
  )

  -- An authorization request whose tags AV and CV of field 123 have no negative length is answered.
  -- The answer has the request's fields in all places but 4, 38, 39, 54 and 123 (numbered from 1), so
  -- the reference in field 37 comes back, field 39 has the response code, and the message is the
  -- request's with the response's MTI.
  pub build_response-Reply :
      4 ≤ length req.message
      → IsAuthorization req
      → (HasNegativeLength (get_field req 122) (codes "AV") → ⊥)
      → (HasNegativeLength (get_field req 122) (codes "CV") → ⊥)
      → (code : Bytes) × (resp : Message) × (get_response_code env
            (get_field req 1)
            (get_field req 3)
            (get_field req 122)
          ≡ ok code)
        × (build_response env req ≡ ok resp)
        × Reply req code resp
  build_response-Reply h is_auth no_av no_cv =
      let (avs, a) = get_avs_result-ok (get_field req 122) no_av in
      let (cvv, c) = get_cvv_result-ok (get_field req 122) no_cv in
      let (code, e) =
        get_response_code-total env (get_field req 1) (get_field req 3) (get_field req 122) in
      let (resp, made, copied) = new_response_message-Copy h in
      let (answer, built, replies) =
        Returns-result (Reply req code) _
          (build_authorization-Reply env req code resp avs cvv copied a c e) in
      (code, answer, e, unfold build_response in rw (get_mti-take h, made, is_auth) built, replies)

  -- A negative length of the tag CV panics: an authorization request can stop the simulator.
  pub build_response_panics :
      4 ≤ length req.message
      → IsAuthorization req
      → HasNegativeLength (get_field req 122) (codes "CV")
      → build_response env req ≡ panic
  build_response_panics h is_auth negative =
      let (code, e) =
        get_response_code-total env (get_field req 1) (get_field req 3) (get_field req 122) in
      let (resp, made, copied) = new_response_message-Copy h in
      let (resp1, wrote1, copied1) =
        Returns-result (Copy req) _
          (add_field-Copy req resp 37 env.clock (omega arith) refl copied) in
      let (resp2, wrote2, replies) =
        Returns-result (Reply req code) _ (add_code req resp1 code copied1) in
      unfold build_response build_authorization in
      rw
        (
          get_mti-take h,
          made,
          is_auth,
          e,
          wrote1,
          wrote2,
          get_cvv_result-panics (get_field req 122) negative,
        )
        (bind-panics (get_avs_result (get_field req 122)) _ (λ avs. refl))
