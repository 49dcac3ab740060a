-- ===== src/Base/Sort.antt =====
-- Sorting by a Boolean order: `sort.Strings` and SQL's ORDER BY.
use Prim.Native.Nat.{ℕ, zero, suc, ◌<◌}
use mathlib.Core.Path.{◌≡◌, refl, ◌∙◌, subst}
use mathlib.Core.Logic.{inl, inr}
use mathlib.Core.Bool.{Bool, true, false}
use mathlib.Core.Option.{Option, none, some}
use mathlib.Core.List.{List, [], ◌∷◌, Perm}
use mathlib.Core.List.Perm
use mathlib.Core.List.{Permᴰ}
use mathlib.Core.List.Permᴰ.{nil, cons, swap, trans}
use native.Mathlib.Omega.{arith}
use longclaw.Base.Tests.{if◌then◌else◌, Bool-cases}
use longclaw.Base.Lists.{All, get_elem?}

-- What a sort needs of its test.
pub record IsPreorder {A : Type 0} (le : A → A → Bool) : Type 0 where
  pub total : (a b : A) → le a b ≡ false → le b a ≡ true
  pub trans : (a b c : A) → le a b ≡ true → le b c ≡ true → le a c ≡ true

-- And for its result to depend on the elements alone.
pub record IsOrder {A : Type 0} (le : A → A → Bool) : Type 0 where
  pub preorder : IsPreorder le
  pub antisymm : (a b : A) → le a b ≡ true → le b a ≡ true → a ≡ b

module _ {A : Type 0} (le : A → A → Bool) where
  abbrev pub insert : A → List A → List A
  insert a [] = a ∷ []
  insert a (b ∷ bs) = let rest = insert a bs in if le a b then a ∷ b ∷ bs else b ∷ rest

  abbrev pub sort : List A → List A
  sort [] = []
  sort (a ∷ xs) = insert a (sort xs)

  abbrev pub IsSorted : List A → Type 0
  IsSorted [] = Unit
  IsSorted (a ∷ xs) = All (λ b. le a b ≡ true) xs × IsSorted xs

  insert-perm : (a : A) (bs : List A) → Perm (insert a bs) (a ∷ bs)
  insert-perm a [] = Perm.rfl
  insert-perm a (b ∷ bs) = elim (Bool-cases (le a b)) [
    | inl e ↦ rw e Perm.rfl
    | inr e ↦ rw e (Perm.trans (Perm.cons b (insert-perm a bs)) (Perm.swap a b bs))
  ]

  pub sort-perm : (xs : List A) → Perm (sort xs) xs
  sort-perm [] = Perm.rfl
  sort-perm (a ∷ xs) = Perm.trans (insert-perm a (sort xs)) (Perm.cons a (sort-perm xs))

  All-insert : (P : A → Type 0) (a : A) (bs : List A) → P a → All P bs → All P (insert a bs)
  All-insert P a [] p h = (p, tt)
  All-insert P a (b ∷ bs) p (q, h) = elim (Bool-cases (le a b)) [
    | inl e ↦ rw e (p, (q, h))
    | inr e ↦ rw e (q, All-insert P a bs p h)
  ]

  module _ (o : IsPreorder le) where
    All-le_trans :
        (a b : A) (cs : List A)
        → le a b ≡ true
        → All (λ c. le b c ≡ true) cs
        → All (λ c. le a c ≡ true) cs
    All-le_trans a b [] e h = tt
    All-le_trans a b (c ∷ cs) e (h, hs) = (o.trans a b c e h, All-le_trans a b cs e hs)

    insert-IsSorted : (a : A) (bs : List A) → IsSorted bs → IsSorted (insert a bs)
    insert-IsSorted a [] h = (tt, tt)
    insert-IsSorted a (b ∷ bs) (h, hs) = elim (Bool-cases (le a b)) [
      | inl e ↦ rw e ((e, All-le_trans a b bs e h), (h, hs))
      | inr e ↦
          rw e (All-insert (λ c. le b c ≡ true) a bs (o.total a b e) h, insert-IsSorted a bs hs)
    ]

    pub sort-IsSorted : (xs : List A) → IsSorted (sort xs)
    sort-IsSorted [] = tt
    sort-IsSorted (a ∷ xs) = insert-IsSorted a (sort xs) (sort-IsSorted xs)

  module _ (o : IsOrder le) where
    -- The order in which two elements are inserted does not matter.
    insert_comm : (a b : A) (cs : List A) → insert a (insert b cs) ≡ insert b (insert a cs)
    insert_comm a b [] = ground (arith, o.preorder.total a b, o.preorder.total b a, o.antisymm a b)
    insert_comm a b (c ∷ cs) = ground (
      arith,
      insert_comm a b cs,
      o.preorder.total a b,
      o.preorder.total b a,
      o.antisymm a b,
      o.preorder.trans a b c,
      o.preorder.trans b a c,
      o.preorder.total a c,
      o.preorder.total b c,
    )

    -- Neither does the order of the list.
    pub sort-Permᴰ : {xs ys : List A} → Permᴰ xs ys → sort xs ≡ sort ys
    sort-Permᴰ nil = refl
    sort-Permᴰ (cons {a} {b} {l₁} {l₂} e p) = rw (e, sort-Permᴰ p) refl
    sort-Permᴰ (swap {a} {b} {a'} {b'} {l} e e') = rw (e, e') (insert_comm b' a' (sort l))
    sort-Permᴰ (trans p q) = sort-Permᴰ p ∙ sort-Permᴰ q

  All-get :
      (P : A → Type 0) (xs : List A) (i : ℕ) (b : A) → All P xs → get_elem? xs i ≡ some b → P b
  All-get P [] i b h e = absurd (no e)
    where
      no : ◌≡◌ {A = Option A} none (some b) → ⊥
      no h = cc
  All-get P (x ∷ xs) zero b (h, hs) e = subst P (some-injective e) h
    where
      some-injective : {a c : A} → some a ≡ some c → a ≡ c
      some-injective h = cc
  All-get P (x ∷ xs) (suc i) b (h, hs) e = All-get P xs i b hs e

  -- What stands later in a sorted list is not smaller.
  pub IsSorted-get :
      (xs : List A) (i j : ℕ) (a b : A)
      → IsSorted xs
      → i < j
      → get_elem? xs i ≡ some a
      → get_elem? xs j ≡ some b
      → le a b ≡ true
  IsSorted-get [] i j a b s h e e' = absurd (no e)
    where
      no : ◌≡◌ {A = Option A} none (some a) → ⊥
      no h = cc
  IsSorted-get (x ∷ xs) zero zero a b s h e e' = absurd (omega arith)
  IsSorted-get (x ∷ xs) zero (suc j) a b (s, ss) h e e' =
      subst (λ c. le c b ≡ true) (some-injective e) (All-get (λ c. le x c ≡ true) xs j b s e')
    where
      some-injective : {a c : A} → some a ≡ some c → a ≡ c
      some-injective h = cc
  IsSorted-get (x ∷ xs) (suc i) zero a b s h e e' = absurd (omega arith)
  IsSorted-get (x ∷ xs) (suc i) (suc j) a b (s, ss) h e e' =
      IsSorted-get xs i j a b ss (omega (arith, h)) e e'
