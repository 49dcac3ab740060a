-- ===== src/Base/Filter.antt =====
-- Lists filtered and searched by a Boolean test.
use mathlib.Core.Path.{◌≡◌, refl}
use mathlib.Core.Logic.{inl, inr}
use mathlib.Core.Bool.{Bool, false, ◌&&◌, ◌||◌}
use mathlib.Core.List.{List, [], ◌∷◌, ◌++◌}
use longclaw.Base.Tests.{if◌then◌else◌, Bool-cases}
use longclaw.Base.Lists.{All}

module _ {ℓ} {A : Type ℓ} where
  abbrev pub filter : (A → Bool) → List A → List A
  filter p [] = []
  filter p (x ∷ xs) = let rest = filter p xs in if p x then x ∷ rest else rest

  abbrev pub any : (A → Bool) → List A → Bool
  any p [] = false
  any p (x ∷ xs) = p x || any p xs

  pub filter-append :
      (p : A → Bool) (xs ys : List A) → filter p (xs ++ ys) ≡ filter p xs ++ filter p ys
  filter-append p [] ys = refl
  filter-append p (x ∷ xs) ys = elim (Bool-cases (p x)) [
    | inl e ↦ rw (e, filter-append p xs ys) refl
    | inr e ↦ rw (e, filter-append p xs ys) refl
  ]

  pub filter-congr :
      (p q : A → Bool) (xs : List A) → All (λ x. p x ≡ q x) xs → filter p xs ≡ filter q xs
  filter-congr p q [] h = refl
  filter-congr p q (x ∷ xs) (e, h) = rw (e, filter-congr p q xs h) refl

  pub filter-filter :
      (p q : A → Bool) (xs : List A) → filter p (filter q xs) ≡ filter (λ x. q x && p x) xs
  filter-filter p q [] = refl
  filter-filter p q (x ∷ xs) = elim (Bool-cases (q x)) [
    | inl e ↦ rw (e, filter-filter p q xs) refl
    | inr e ↦ rw (e, filter-filter p q xs) refl
  ]

  pub any-append : (p : A → Bool) (xs ys : List A) → any p (xs ++ ys) ≡ (any p xs || any p ys)
  any-append p [] ys = refl
  any-append p (x ∷ xs) ys = elim (Bool-cases (p x)) [
    | inl e ↦ rw e refl
    | inr e ↦ rw (e, any-append p xs ys) refl
  ]
