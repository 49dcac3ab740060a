-- ===== src/Network/Response/Reply.antt =====
-- What a response keeps of its request.
use mathlib.Core.Bool.{false≢true}
use longclaw.Base.{
  ℕ, ◌<◌, ◌≡◌, ◌≢◌, refl, sym, ap, ◌∙◌, arith, Bool, true, false, ◌||◌, some, Bytes, drop, take,
  ◌++◌, ◌==◌, Returns, update_ne, update_self,
}
use longclaw.Iso.Message.{Message}
use longclaw.Iso.Edit.{set_field}
use longclaw.Iso.Edit.Marks.{mark_field-fields}
use longclaw.Network.Mti.{to_response_mti}
use longclaw.Network.Response.{add_field}

-- The fields that the issuer writes: amount, authorization, response code, balance, issuer data.
abbrev pub is_reply_field : ℕ → Bool
is_reply_field j = j == 3 || (j == 37 || (j == 38 || (j == 53 || j == 122)))

-- The fields that the issuer does not write are those of the request, and field 38 holds the code.
pub record Reply (req : Message) (code : Bytes) (m : Message) : Type 0 where
  pub kept : (j : ℕ) → is_reply_field j ≡ false → m.fields j ≡ req.fields j
  pub coded : m.fields 38 ≡ some code
  pub headed : m.message ≡ to_response_mti (take 4 req.message) ++ drop 4 req.message

-- Before the code is written.
pub record Copy (req m : Message) : Type 0 where
  pub kept : (j : ℕ) → is_reply_field j ≡ false → m.fields j ≡ req.fields j
  pub headed : m.message ≡ to_response_mti (take 4 req.message) ++ drop 4 req.message

differ : (idx j : ℕ) → is_reply_field idx ≡ true → is_reply_field j ≡ false → idx ≢ j
differ idx j r k e = false≢true (sym k ∙ ap is_reply_field (sym e) ∙ r)

module _ (req : Message) where
  Copy-write :
      (m : Message) (idx : ℕ) (v : Bytes)
      → is_reply_field idx ≡ true
      → Copy req m
      → Copy req (set_field m idx v)
  Copy-write m idx v r p =
      unfold set_field in
      record {
        kept = λ j k. update_ne m.fields idx j v (differ idx j r k) ∙ p.kept j k;
        headed = p.headed;
      }

  pub Reply-write :
      (code : Bytes) (m : Message) (idx : ℕ) (v : Bytes)
      → is_reply_field idx ≡ true
      → idx ≢ 38
      → Reply req code m
      → Reply req code (set_field m idx v)
  Reply-write code m idx v r ne p =
      unfold set_field in
      record {
        kept = λ j k. update_ne m.fields idx j v (differ idx j r k) ∙ p.kept j k;
        coded = update_ne m.fields idx 38 v ne ∙ p.coded;
        headed = p.headed;
      }

  Reply-same :
      (code : Bytes) (m m' : Message)
      → m'.fields ≡ m.fields
      → m'.message ≡ m.message
      → Reply req code m
      → Reply req code m'
  Reply-same code m m' ef em p = record {
    kept = λ j k. ap (λ f. f j) ef ∙ p.kept j k;
    coded = ap (λ f. f 38) ef ∙ p.coded;
    headed = em ∙ p.headed;
  }

  Copy-same :
      (m m' : Message) → m'.fields ≡ m.fields → m'.message ≡ m.message → Copy req m → Copy req m'
  Copy-same m m' ef em p = record {
    kept = λ j k. ap (λ f. f j) ef ∙ p.kept j k;
    headed = em ∙ p.headed;
  }

  pub add_field-Copy :
      (m : Message) (idx : ℕ) (v : Bytes)
      → idx < 128
      → is_reply_field idx ≡ true
      → Copy req m
      → Returns (Copy req) (add_field idx v m)
  add_field-Copy m idx v h r p =
      let (m', e, ef, em) = mark_field-fields {E = ⊥} m idx h in
      unfold add_field in rw e (Copy-write m' idx v r (Copy-same m m' ef em p))

  pub add_field-Reply :
      (code : Bytes) (m : Message) (idx : ℕ) (v : Bytes)
      → idx < 128
      → is_reply_field idx ≡ true
      → idx ≢ 38
      → Reply req code m
      → Returns (Reply req code) (add_field idx v m)
  add_field-Reply code m idx v h r ne p =
      let (m', e, ef, em) = mark_field-fields {E = ⊥} m idx h in
      unfold add_field in rw e (Reply-write code m' idx v r ne (Reply-same code m m' ef em p))

  -- Writing the code itself.
  pub add_code :
      (m : Message) (code : Bytes) → Copy req m → Returns (Reply req code) (add_field 38 code m)
  add_code m code p =
      let (m', e, ef, em) = mark_field-fields {E = ⊥} m 38 (omega arith) in
      let q = Copy-write m' 38 code refl (Copy-same m m' ef em p) in
      unfold add_field in
      rw e (record {
        kept = q.kept;
        coded = unfold set_field in update_self m'.fields 38 code;
        headed = q.headed;
      })
