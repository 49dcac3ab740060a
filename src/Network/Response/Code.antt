-- ===== src/Network/Response/Code.antt =====
-- Which response codes the simulated issuer gives.
use longclaw.Base.{
  ℕ, zero, suc, ◌≤◌, ◌<◌, ◌≡◌, inl, inr, refl, arith, Bool, true, false, ◌&&◌, none, some, List, [],
  ◌∷◌, Bytes, codes, length, get_elem?, ltb, ge→ltb, ◌==◌, if◌then◌else◌, ok, panic, pos, negsuc,
  index-ok, All, leb, Returns, Bool-cases, gt→leb, Returns-result, Returns-weaken, get_elem?-some,
  ltb→ge,
}
use longclaw.Strconv.{Num, number, not_number, out_of_range, atoi}
use longclaw.Strings.{contains, string_of_byte}
use longclaw.Network.Mti.{one_of}
use longclaw.Network.Response.{
  Env, pick, is_zero, amount_of, approval, response_code_from_digit, code_of_num, get_response_code,
}

abbrev pub known_codes : List Bytes
known_codes =
    codes "00"
    ∷ codes "10"
    ∷ codes "96"
    ∷ codes "05"
    ∷ codes "06"
    ∷ codes "07"
    ∷ codes "51"
    ∷ codes "34"
    ∷ codes "33"
    ∷ codes "35"
    ∷ codes "SA"
    ∷ codes "SB"
    ∷ codes "SD"
    ∷ codes "SR"
    ∷ codes "T3"
    ∷ codes "T4"
    ∷ codes "T5"
    ∷ []

abbrev pub approvals : List Bytes
approvals = codes "00" ∷ codes "10" ∷ []

-- A known code, and an approval or not.
abbrev pub IsCode : Bool → Bytes → Type 0
IsCode approved code = (one_of code known_codes ≡ true) × (one_of code approvals ≡ approved)

abbrev AllCodes : List Bytes → Type 0
AllCodes cs = All (IsCode false) cs

-- The digit that decides: a PAN ending in 7 is approved if there is no amount.
abbrev pub deciding : Bytes → ℕ → ℕ
deciding amount digit = if is_zero (amount_of amount) && digit == 7 then 0 else digit

approval-IsCode : (field123 : Bytes) → IsCode true (approval field123)
approval-IsCode field123 =
    unfold approval in
    elim (Bool-cases (contains field123 (codes "SUPPORT"))) [
      | inl e ↦ rw e (refl, refl)
      | inr e ↦ rw e (refl, refl)
    ]

module _ (env : Env) where
  pick-Returns :
      (cs : List Bytes) (n : ℕ)
      → 0 < n
      → length cs ≡ n
      → AllCodes cs
      → Returns (IsCode false) (pick env cs n)
  pick-Returns cs n p e h = unfold pick in go cs (env.intn n) (omega (arith, env.intn_lt n p)) h
    where
      go :
          (cs : List Bytes) (i : ℕ)
          → i < length cs
          → AllCodes cs
          → Returns {E = ⊥} (IsCode false) (elim (get_elem? cs i) [ none ↦ panic | some c ↦ ok c ])
      go [] i h a = absurd (omega arith)
      go (c ∷ cs) zero h a = a.0
      go (c ∷ cs) (suc i) h a = go cs i (omega arith) a.1

  -- The digits up to 5 are approvals; whatever the random choice, the code is a known one.
  response_code_from_digit-Returns :
      (digit : ℕ) (field123 : Bytes)
      → Returns (IsCode (leb digit 5)) (response_code_from_digit env digit field123)
  unfolding response_code_from_digit
  response_code_from_digit-Returns zero f = approval-IsCode f
  response_code_from_digit-Returns (suc zero) f = approval-IsCode f
  response_code_from_digit-Returns (suc (suc zero)) f = approval-IsCode f
  response_code_from_digit-Returns (suc (suc (suc zero))) f = approval-IsCode f
  response_code_from_digit-Returns (suc (suc (suc (suc zero)))) f = approval-IsCode f
  response_code_from_digit-Returns (suc (suc (suc (suc (suc zero))))) f = (refl, refl)
  response_code_from_digit-Returns (suc (suc (suc (suc (suc (suc zero)))))) f =
      pick-Returns _ 3 (omega arith) refl ((refl, refl), ((refl, refl), ((refl, refl), tt)))
  response_code_from_digit-Returns (suc (suc (suc (suc (suc (suc (suc zero))))))) f = (refl, refl)
  response_code_from_digit-Returns (suc (suc (suc (suc (suc (suc (suc (suc zero)))))))) f =
      pick-Returns _ 3 (omega arith) refl ((refl, refl), ((refl, refl), ((refl, refl), tt)))
  response_code_from_digit-Returns (suc (suc (suc (suc (suc (suc (suc (suc (suc zero))))))))) f =
      pick-Returns _ 7 (omega arith) refl (
        (refl, refl),
        (
          (refl, refl),
          ((refl, refl), ((refl, refl), ((refl, refl), ((refl, refl), ((refl, refl), tt))))),
        ),
      )
  response_code_from_digit-Returns (suc (suc (suc (suc (suc (suc (suc (suc (suc (suc n)))))))))) f =
      let d = suc (suc (suc (suc (suc (suc (suc (suc (suc (suc n))))))))) in
      let e : response_code_from_digit env d f ≡ ok (codes "96") =
        unfold response_code_from_digit in ground arith in
      rw (e, gt→leb d 5 (omega arith)) (refl, refl)

  code_of_num-Returns :
      (digit : ℕ) (amount field123 : Bytes)
      → Returns
          (IsCode (leb (deciding amount digit) 5))
          (code_of_num env (number (pos digit)) amount field123)
  code_of_num-Returns digit amount field123 =
      unfold code_of_num in response_code_from_digit-Returns (deciding amount digit) field123

  -- A PAN of 16 characters or more gets an approval exactly if its 16th digit is at most 5, or is 7
  -- and the amount is zero, and the code is one of the known codes.
  pub get_response_code_approves :
      (pan amount field123 : Bytes) (c digit : ℕ)
      → 16 ≤ length pan
      → get_elem? pan 15 ≡ some c
      → atoi (string_of_byte c) ≡ number (pos digit)
      → (code : Bytes) × (get_response_code env pan amount field123 ≡ ok code)
        × (one_of code known_codes ≡ true)
        × (one_of code approvals ≡ leb (deciding amount digit) 5)
  get_response_code_approves pan amount field123 c digit room at is_digit =
      let (code, e, (known, approved)) =
        Returns-result (IsCode (leb (deciding amount digit) 5)) _
          (code_of_num-Returns digit amount field123) in
      (
        code,
        unfold get_response_code in
            rw (ge→ltb (length pan) 16 room, index-ok pan 15 c at, is_digit) e,
        known,
        approved,
      )

  get_response_code-Returns :
      (pan amount field123 : Bytes)
      → Returns (λ c. Unit) (get_response_code env pan amount field123)
  get_response_code-Returns pan amount field123 =
      unfold get_response_code in
      elim (Bool-cases (ltb (length pan) 16)) [
        | inl short ↦ rw short tt
        | inr room ↦
            let (c, e) = get_elem?-some pan 15 (omega (arith, ltb→ge (length pan) 16 room)) in
            rw (room, index-ok pan 15 c e) (by_num (atoi (string_of_byte c)))
      ]
    where
      by_num : (n : Num) → Returns (λ c. Unit) (code_of_num env n amount field123)
      by_num (number (pos digit)) =
          Returns-weaken (IsCode (leb (deciding amount digit) 5)) (λ c. Unit) _
            (code_of_num-Returns digit amount field123) (λ a h. tt)
      by_num (number (negsuc digit)) = unfold code_of_num in tt
      by_num not_number = unfold code_of_num in tt
      by_num (out_of_range z) = unfold code_of_num in tt

  -- The issuer always has a response code.
  pub get_response_code-total :
      (pan amount field123 : Bytes)
      → (code : Bytes) × (get_response_code env pan amount field123 ≡ ok code)
  get_response_code-total pan amount field123 =
      let (code, e, _) =
        Returns-result (λ c. Unit) _ (get_response_code-Returns pan amount field123) in
      (code, e)
