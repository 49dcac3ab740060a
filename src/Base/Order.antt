-- ===== src/Base/Order.antt =====
-- The orders that the program sorts by: bytes of strings, and integers.
use mathlib.Core.Path.{◌≡◌, refl}
use mathlib.Core.Bool.{Bool, true, false, ◌&&◌, ◌||◌}
use mathlib.Core.List.{[], ◌∷◌}
use native.Mathlib.Omega.{arith}
use longclaw.Base.Tests.{ltb, leb, ◌==◌}
use longclaw.Base.Lists.{Bytes}
use longclaw.Base.Outcome.{ℤ, pos, negsuc}
use longclaw.Base.Sort.{IsOrder}

-- Go's `<=` on strings.
abbrev pub bytes_le : Bytes → Bytes → Bool
bytes_le [] t = true
bytes_le (x ∷ s) [] = false
bytes_le (x ∷ s) (y ∷ t) = let rest = bytes_le s t in ltb x y || ((x == y) && rest)

bytes_le_total : (s t : Bytes) → bytes_le s t ≡ false → bytes_le t s ≡ true
bytes_le_total [] t h = cc
bytes_le_total (x ∷ s) [] h = refl
bytes_le_total (x ∷ s) (y ∷ t) h = ground (arith, bytes_le_total s t)

bytes_le_trans : (s t u : Bytes) → bytes_le s t ≡ true → bytes_le t u ≡ true → bytes_le s u ≡ true
bytes_le_trans [] t u h h' = refl
bytes_le_trans (x ∷ s) [] u h h' = cc
bytes_le_trans (x ∷ s) (y ∷ t) [] h h' = cc
bytes_le_trans (x ∷ s) (y ∷ t) (z ∷ u) h h' = ground (arith, bytes_le_trans s t u)

bytes_le_antisymm : (s t : Bytes) → bytes_le s t ≡ true → bytes_le t s ≡ true → s ≡ t
bytes_le_antisymm [] [] h h' = refl
bytes_le_antisymm [] (y ∷ t) h h' = cc
bytes_le_antisymm (x ∷ s) [] h h' = cc
bytes_le_antisymm (x ∷ s) (y ∷ t) h h' = ground (arith, bytes_le_antisymm s t)

pub bytes_le-IsOrder : IsOrder bytes_le
bytes_le-IsOrder = record {
  preorder = record { total = bytes_le_total; trans = bytes_le_trans };
  antisymm = bytes_le_antisymm;
}

-- `<=` on integers.
abbrev pub int_le : ℤ → ℤ → Bool
int_le (pos a) (pos b) = leb a b
int_le (pos a) (negsuc b) = false
int_le (negsuc a) (pos b) = true
int_le (negsuc a) (negsuc b) = leb b a

int_le_total : (a b : ℤ) → int_le a b ≡ false → int_le b a ≡ true
int_le_total (pos a) (pos b) h = ground arith
int_le_total (pos a) (negsuc b) h = refl
int_le_total (negsuc a) (pos b) h = cc
int_le_total (negsuc a) (negsuc b) h = ground arith

int_le_trans : (a b c : ℤ) → int_le a b ≡ true → int_le b c ≡ true → int_le a c ≡ true
int_le_trans (pos a) (pos b) (pos c) h h' = ground arith
int_le_trans (pos a) (pos b) (negsuc c) h h' = cc
int_le_trans (pos a) (negsuc b) c h h' = cc
int_le_trans (negsuc a) b (pos c) h h' = refl
int_le_trans (negsuc a) (pos b) (negsuc c) h h' = cc
int_le_trans (negsuc a) (negsuc b) (negsuc c) h h' = ground arith

int_le_antisymm : (a b : ℤ) → int_le a b ≡ true → int_le b a ≡ true → a ≡ b
int_le_antisymm (pos a) (pos b) h h' = ground arith
int_le_antisymm (pos a) (negsuc b) h h' = cc
int_le_antisymm (negsuc a) (pos b) h h' = cc
int_le_antisymm (negsuc a) (negsuc b) h h' = ground arith

pub int_le-IsOrder : IsOrder int_le
int_le-IsOrder = record {
  preorder = record { total = int_le_total; trans = int_le_trans };
  antisymm = int_le_antisymm;
}
