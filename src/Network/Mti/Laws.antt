-- ===== src/Network/Mti/Laws.antt =====
-- The tables of message types agree with the arithmetic on them.
use longclaw.Base.{
  ◌+◌, ◌<◌, ◌++◌, ◌↔◌, some, take, ok, lt→ltb, ℕ, ◌≡◌, refl, arith, true, false, List, [], ◌∷◌,
  Bytes, codes, bytes_eq, bytes_eq→eq, Bool-cases, inl, inr, All,
}
use longclaw.Network.Mti.{
  one_of, request_mti_set, response_mti_set, match_key, make_even, response_mti, is_request_mti,
  is_response_mti, to_response_mti,
}

-- A property of every listed text.
pub one_of_all :
    (P : Bytes → Type 0) (s : Bytes) (ts : List Bytes) → All P ts → one_of s ts ≡ true → P s
one_of_all P s [] h e = cc
one_of_all P s (t ∷ ts) (h, hs) e = elim (Bool-cases (bytes_eq s t)) [
  | inl same ↦ rw (bytes_eq→eq s t same) h
  | inr other ↦ one_of_all P s ts hs (rw other at e)
]

-- The response type of every request type is a response type.
pub to_response_mti_known :
    (mti : Bytes) → is_request_mti mti ≡ true → is_response_mti (to_response_mti mti) ≡ true
unfolding is_request_mti is_response_mti to_response_mti
to_response_mti_known mti e =
    one_of_all (λ m. one_of (to_response_mti m) response_mti_set ≡ true) mti request_mti_set
      (refl, (refl, (refl, (refl, (refl, (refl, (refl, tt))))))) e

abbrev pub repeat_mti_set : List Bytes
repeat_mti_set = codes "0101" ∷ codes "0201" ∷ codes "0421" ∷ []

response_mti-some :
    (a b c d : ℕ) (rest r : Bytes)
    → response_mti (a ∷ b ∷ c ∷ d ∷ rest) ≡ some r
    → (make_even c ≡ c) × (make_even (c + 1) ≡ c) × (c < 127) × (r ≡ a ∷ b ∷ (c + 1) ∷ d ∷ [])
unfolding response_mti
response_mti-some a b c d rest r e = (ground arith, ground arith, ground arith, ground arith)

match_key_at :
    (a b c c' d : ℕ) (reference : Bytes)
    → make_even c ≡ c'
    → c' < 128
    → match_key {E = ⊥} (a ∷ b ∷ c ∷ d ∷ []) reference
      ≡ ok (a ∷ b ∷ c' ∷ d ∷ codes "|" ++ reference)
unfolding match_key
match_key_at a b c c' d reference e h = rw (e, lt→ltb c' 128 h)

-- What the test client answers is paired with the request that it answers, whatever the reference.
pub match_key-response_mti :
    (message reference r : Bytes)
    → response_mti message ≡ some r
    → (key : Bytes) × (match_key {E = ⊥} (take 4 message) reference ≡ ok key)
      × (match_key {E = ⊥} r reference ≡ ok key)
match_key-response_mti [] reference r e = unfold response_mti in cc
match_key-response_mti (a ∷ []) reference r e = unfold response_mti in cc
match_key-response_mti (a ∷ b ∷ []) reference r e = unfold response_mti in cc
match_key-response_mti (a ∷ b ∷ c ∷ []) reference r e = unfold response_mti in cc
match_key-response_mti (a ∷ b ∷ c ∷ d ∷ rest) reference r e =
    let (even, odd, small, shape) = response_mti-some a b c d rest r e in
    (
      a ∷ b ∷ c ∷ d ∷ codes "|" ++ reference,
      match_key_at a b c c d reference even (omega arith),
      rw shape (match_key_at a b (c + 1) c d reference odd (omega arith)),
    )

-- The simulated issuer's response type is paired with the request's, but for the repeats: they are
-- answered like the originals, and the key keeps the last digit.
pub to_response_mti_key :
    (mti reference : Bytes)
    → is_request_mti mti ≡ true
    → (match_key {E = ⊥} (to_response_mti mti) reference ≡ match_key mti reference)
      ↔ (one_of mti repeat_mti_set ≡ false)
unfolding is_request_mti to_response_mti match_key
to_response_mti_key mti reference e =
    one_of_all
      (λ m.
        (match_key {E = ⊥} (to_response_mti m) reference ≡ match_key m reference)
        ↔ (one_of m repeat_mti_set ≡ false))
      mti request_mti_set
      (
        same refl refl,
        (
          (λ h. ground arith, λ h. cc),
          (
            same refl refl,
            (
              (λ h. ground arith, λ h. cc),
              (same refl refl, ((λ h. ground arith, λ h. cc), (same refl refl, tt))),
            ),
          ),
        ),
      )
      e
  where
    same : {A B : Type 0} → A → B → A ↔ B
    same a b = (λ _. b, λ _. a)
