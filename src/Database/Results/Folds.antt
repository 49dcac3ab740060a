-- ===== src/Database/Results/Folds.antt =====
-- The operations that the figures of `GetStressTestResults` (database/dao.go) are folded with.
use mathlib.Core.List.{Permᴰ}
use mathlib.Core.List.Permᴰ.{nil, cons, swap, trans}
use longclaw.Base.{List, [], ◌∷◌, ◌++◌, foldl, ℤ, pos, negsuc, ◌≡◌, refl, sym, ap, ◌∙◌, arith}
use longclaw.Database.Results.{int_add, int_min, int_max, fold_times}

int_add_comm : (a b : ℤ) → int_add a b ≡ int_add b a
int_add_comm (pos a) (pos b) = ap pos (omega arith)
int_add_comm (pos a) (negsuc b) = ground arith
int_add_comm (negsuc a) (pos b) = ground arith
int_add_comm (negsuc a) (negsuc b) = ground arith

int_add_assoc : (a b c : ℤ) → int_add (int_add a b) c ≡ int_add a (int_add b c)
int_add_assoc (pos a) (pos b) (pos c) = ground arith
int_add_assoc (pos a) (pos b) (negsuc c) = ground arith
int_add_assoc (pos a) (negsuc b) (pos c) = ground arith
int_add_assoc (pos a) (negsuc b) (negsuc c) = ground arith
int_add_assoc (negsuc a) (pos b) (pos c) = ground arith
int_add_assoc (negsuc a) (pos b) (negsuc c) = ground arith
int_add_assoc (negsuc a) (negsuc b) (pos c) = ground arith
int_add_assoc (negsuc a) (negsuc b) (negsuc c) = ground arith

pub int_add_zero : (a : ℤ) → int_add a (pos 0) ≡ a
int_add_zero (pos a) = ground arith
int_add_zero (negsuc a) = ground arith

int_min_comm : (a b : ℤ) → int_min a b ≡ int_min b a
int_min_comm (pos a) (pos b) = ground arith
int_min_comm (pos a) (negsuc b) = refl
int_min_comm (negsuc a) (pos b) = refl
int_min_comm (negsuc a) (negsuc b) = ground arith

int_min_assoc : (a b c : ℤ) → int_min (int_min a b) c ≡ int_min a (int_min b c)
int_min_assoc (pos a) (pos b) (pos c) = ground arith
int_min_assoc (pos a) (pos b) (negsuc c) = ground arith
int_min_assoc (pos a) (negsuc b) (pos c) = ground arith
int_min_assoc (pos a) (negsuc b) (negsuc c) = ground arith
int_min_assoc (negsuc a) (pos b) (pos c) = ground arith
int_min_assoc (negsuc a) (pos b) (negsuc c) = ground arith
int_min_assoc (negsuc a) (negsuc b) (pos c) = ground arith
int_min_assoc (negsuc a) (negsuc b) (negsuc c) = ground arith

int_max_comm : (a b : ℤ) → int_max a b ≡ int_max b a
int_max_comm (pos a) (pos b) = ground arith
int_max_comm (pos a) (negsuc b) = refl
int_max_comm (negsuc a) (pos b) = refl
int_max_comm (negsuc a) (negsuc b) = ground arith

int_max_assoc : (a b c : ℤ) → int_max (int_max a b) c ≡ int_max a (int_max b c)
int_max_assoc (pos a) (pos b) (pos c) = ground arith
int_max_assoc (pos a) (pos b) (negsuc c) = ground arith
int_max_assoc (pos a) (negsuc b) (pos c) = ground arith
int_max_assoc (pos a) (negsuc b) (negsuc c) = ground arith
int_max_assoc (negsuc a) (pos b) (pos c) = ground arith
int_max_assoc (negsuc a) (pos b) (negsuc c) = ground arith
int_max_assoc (negsuc a) (negsuc b) (pos c) = ground arith
int_max_assoc (negsuc a) (negsuc b) (negsuc c) = ground arith

-- A fold of an operation that commutes and associates.
pub record IsCommutative (f : ℤ → ℤ → ℤ) : Type 0 where
  pub comm : (a b : ℤ) → f a b ≡ f b a
  pub assoc : (a b c : ℤ) → f (f a b) c ≡ f a (f b c)

module _ (f : ℤ → ℤ → ℤ) (o : IsCommutative f) where
  foldl-start : (a b : ℤ) (ts : List ℤ) → foldl f (f a b) ts ≡ f a (foldl f b ts)
  foldl-start a b [] = refl
  foldl-start a b (t ∷ ts) = rw (o.assoc a b t) (foldl-start a (f b t) ts)

  pub foldl-Permᴰ : {xs ys : List ℤ} (s : ℤ) → Permᴰ xs ys → foldl f s xs ≡ foldl f s ys
  foldl-Permᴰ s nil = refl
  foldl-Permᴰ s (cons {a} {b} {l₁} {l₂} e p) = rw e (foldl-Permᴰ (f s b) p)
  foldl-Permᴰ s (swap {a} {b} {a'} {b'} {l} e e') =
      rw (e, e')
        (ap (λ x. foldl f x l) (o.assoc s b' a' ∙ ap (f s) (o.comm b' a') ∙ sym (o.assoc s a' b')))
  foldl-Permᴰ s (trans p q) = foldl-Permᴰ s p ∙ foldl-Permᴰ s q

  pub fold_times-Permᴰ : {xs ys : List ℤ} → Permᴰ xs ys → fold_times f xs ≡ fold_times f ys
  unfolding fold_times
  fold_times-Permᴰ nil = refl
  fold_times-Permᴰ (cons {a} {b} {l₁} {l₂} e p) = rw e (foldl-Permᴰ b p)
  fold_times-Permᴰ (swap {a} {b} {a'} {b'} {l} e e') =
      rw (e, e') (ap (λ x. foldl f x l) (o.comm b' a'))
  fold_times-Permᴰ (trans p q) = fold_times-Permᴰ p ∙ fold_times-Permᴰ q

  pub foldl-append_times :
      (a b : ℤ) (xs ys : List ℤ) → foldl f a (xs ++ (b ∷ ys)) ≡ f (foldl f a xs) (foldl f b ys)
  foldl-append_times a b [] ys = foldl-start a b ys
  foldl-append_times a b (x ∷ xs) ys = foldl-append_times (f a x) b xs ys

pub int_add-IsCommutative : IsCommutative int_add
int_add-IsCommutative = record { comm = int_add_comm; assoc = int_add_assoc }

pub int_min-IsCommutative : IsCommutative int_min
int_min-IsCommutative = record { comm = int_min_comm; assoc = int_min_assoc }

pub int_max-IsCommutative : IsCommutative int_max
int_max-IsCommutative = record { comm = int_max_comm; assoc = int_max_assoc }
