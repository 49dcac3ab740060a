-- ===== src/Base/Outcome.antt =====
-- How a Go call ends: with a result, with an error value, or by a panic. And Go's `int`.
use Prim.Native.Nat.{ℕ, ◌-◌, ◌^◌}
use mathlib.Core.Path.{◌≡◌, refl}
use mathlib.Core.Logic.{◌≢◌}

-- `ok` is a nil error. The kinds of error are the caller's type `E`.
pub data Go {ℓ κ} (E : Type ℓ) (A : Type κ) : Type (ℓ ⊔ κ) where
  ok : A → Go E A
  err : E → Go E A
  panic : Go E A

infixl 5 ◌>>=◌ ◌>>◌
abbrev pub ◌>>=◌ {ℓ κ ι} : {E : Type ℓ} {A : Type κ} {B : Type ι} → Go E A → (A → Go E B) → Go E B
ok value >>= next = next value
err failure >>= next = err failure
panic >>= next = panic

abbrev pub ◌>>◌ {ℓ κ ι} : {E : Type ℓ} {A : Type κ} {B : Type ι} → Go E A → Go E B → Go E B
call >> next = call >>= λ _. next

pub ok-injective {ℓ κ} :
    {E : Type ℓ} {A : Type κ} {a b : A} → ◌≡◌ {A = Go E A} (ok a) (ok b) → a ≡ b
ok-injective h = cc

-- What an `ok` of a chain says of its parts.
pub >>=-eq-ok {ℓ κ ι} :
    {E : Type ℓ} {A : Type κ} {B : Type ι} (call : Go E A) (next : A → Go E B) {result : B}
    → (call >>= next) ≡ ok result
    → (a : A) × (call ≡ ok a) × (next a ≡ ok result)
>>=-eq-ok (ok value) next e = (value, refl, e)
>>=-eq-ok (err failure) next e = cc
>>=-eq-ok panic next e = cc

-- Signed numbers: `negsuc n` is -(n + 1).
pub data ℤ : Type 0 where
  pos : ℕ → ℤ
  negsuc : ℕ → ℤ

-- The largest value of Go's 64-bit `int`.
abbrev pub max_int : ℕ
max_int = 2 ^ 63 - 1

-- A call does not panic, and its result, if it has one, is as `P` says.
abbrev pub Returns {ℓ κ} : {E : Type ℓ} {A : Type κ} → (A → Type 0) → Go E A → Type 0
Returns P (ok a) = P a
Returns P (err e) = Unit
Returns P panic = ⊥

pub Returns-bind {ℓ κ ι} :
    {E : Type ℓ} {A : Type κ} {B : Type ι} (P : A → Type 0) (Q : B → Type 0) (m : Go E A)
    (f : A → Go E B)
    → Returns P m
    → ((a : A) → m ≡ ok a → P a → Returns Q (f a))
    → Returns Q (m >>= f)
Returns-bind P Q (ok a) f h k = k a refl h
Returns-bind P Q (err e) f h k = tt
Returns-bind P Q panic f h k = absurd h

pub Returns-ne-panic {ℓ κ} :
    {E : Type ℓ} {A : Type κ} (P : A → Type 0) (m : Go E A) → Returns P m → m ≢ panic
Returns-ne-panic P (ok a) h e = cc
Returns-ne-panic P (err x) h e = cc
Returns-ne-panic P panic h e = absurd h

-- A call that returns no error and does not panic has a result.
pub total {κ} : {A : Type κ} (m : Go ⊥ A) → m ≢ panic → (a : A) × (m ≡ ok a)
total (ok a) h = (a, refl)
total (err e) h = absurd e
total panic h = absurd (h refl)

pub Returns-result {κ} :
    {A : Type κ} (P : A → Type 0) (m : Go ⊥ A) → Returns P m → (a : A) × (m ≡ ok a) × P a
Returns-result P (ok a) h = (a, refl, h)
Returns-result P (err e) h = absurd e
Returns-result P panic h = absurd h

pub Returns-ok {ℓ κ} :
    {E : Type ℓ} {A : Type κ} (P : A → Type 0) (m : Go E A) {a : A} → m ≡ ok a → P a → Returns P m
Returns-ok P m e h = rw e h

pub Returns-weaken {ℓ κ} :
    {E : Type ℓ} {A : Type κ} (P Q : A → Type 0) (m : Go E A)
    → Returns P m
    → ((a : A) → P a → Q a)
    → Returns Q m
Returns-weaken P Q (ok a) h k = k a h
Returns-weaken P Q (err e) h k = tt
Returns-weaken P Q panic h k = h
