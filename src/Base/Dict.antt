-- ===== src/Base/Dict.antt =====
-- Go maps with string keys (`sync.Map`, `map[string]T`) as association lists: `Load`, `Store`,
-- `Delete`.
use mathlib.Core.Path.{◌≡◌, ◌∙◌, refl, sym}
use mathlib.Core.Bool.{Bool, true, false}
use mathlib.Core.Option.{Option, none, some}
use mathlib.Core.List.{List, [], ◌∷◌}
use native.Mathlib.Omega.{arith}
use longclaw.Base.Tests.{if◌then◌else◌}
use longclaw.Base.Lists.{Bytes, bytes_eq, bytes_eq_iff}

abbrev pub Dict {ℓ} : Type ℓ → Type ℓ
Dict V = List (Bytes × V)

module _ {ℓ} {V : Type ℓ} where
  unfoldable pub load : Bytes → Dict V → Option V
  load k [] = none
  load k ((j, v) ∷ m) = if bytes_eq j k then some v else load k m

  unfoldable pub store : Bytes → V → Dict V → Dict V
  store k v [] = (k, v) ∷ []
  store k v ((j, w) ∷ m) = if bytes_eq j k then (k, v) ∷ m else (j, w) ∷ store k v m

  unfoldable pub delete : Bytes → Dict V → Dict V
  delete k [] = []
  delete k ((j, w) ∷ m) = let rest = delete k m in if bytes_eq j k then rest else (j, w) ∷ rest

  pub load-store :
      (k j : Bytes) (v : V) (m : Dict V)
      → load j (store k v m) ≡ (if bytes_eq k j then some v else load j m)
  unfolding load store
  load-store k j v [] = refl
  load-store k j v ((i, w) ∷ m) =
      ground (arith, bytes_eq_iff k j, bytes_eq_iff i k, bytes_eq_iff i j, load-store k j v m)

  pub load-delete :
      (k j : Bytes) (m : Dict V) → load j (delete k m) ≡ (if bytes_eq k j then none else load j m)
  unfolding load delete
  load-delete k j [] = ground arith
  load-delete k j ((i, w) ∷ m) =
      ground (arith, bytes_eq_iff k j, bytes_eq_iff i k, bytes_eq_iff i j, load-delete k j m)

  -- What is found after a deletion was there before.
  pub load-delete-some :
      (k j : Bytes) (v : V) (m : Dict V) → load j (delete k m) ≡ some v → load j m ≡ some v
  load-delete-some k j v m e = by_name (bytes_eq k j) (sym (load-delete k j m) ∙ e)
    where
      by_name : (same : Bool) → (if same then none else load j m) ≡ some v → load j m ≡ some v
      by_name true h = cc
      by_name false h = h
