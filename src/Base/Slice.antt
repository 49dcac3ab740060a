-- ===== src/Base/Slice.antt =====
-- Go's slice expressions and index expressions on strings, and maps with number keys.
use Prim.Native.Nat.{ℕ, ◌+◌, ◌-◌, ◌≤◌}
use mathlib.Core.Path.{◌≡◌}
use mathlib.Core.Logic.{◌≢◌}
use mathlib.Core.Bool.{◌||◌}
use mathlib.Core.Option.{Option, none, some}
use native.Mathlib.Omega.{arith}
use longclaw.Base.Tests.{ltb, ge→ltb, ◌==◌, if◌then◌else◌}
use longclaw.Base.Lists.{Bytes, length, take, drop, get_elem?}
use longclaw.Base.Outcome.{Go, ok, panic}

-- `s[lo:hi]`
unfoldable pub slice {ℓ} : {E : Type ℓ} → Bytes → ℕ → ℕ → Go E Bytes
slice s lo hi = if ltb hi lo || ltb (length s) hi then panic else ok (take (hi - lo) (drop lo s))

-- `s[lo:]`
unfoldable pub slice_from {ℓ} : {E : Type ℓ} → Bytes → ℕ → Go E Bytes
slice_from s lo = if ltb (length s) lo then panic else ok (drop lo s)

-- `s[i]`
unfoldable pub index {ℓ} : {E : Type ℓ} → Bytes → ℕ → Go E ℕ
index s i = elim (get_elem? s i) [ none ↦ panic | some c ↦ ok c ]

-- A `map[int]T` as a function.
abbrev pub update {ℓ} : {V : Type ℓ} → (ℕ → Option V) → ℕ → V → ℕ → Option V
update m k v j = if k == j then some v else m j

pub update_self {ℓ} : {V : Type ℓ} (m : ℕ → Option V) (k : ℕ) (v : V) → update m k v k ≡ some v
update_self m k v = ground arith

pub update_ne {ℓ} : {V : Type ℓ} (m : ℕ → Option V) (k j : ℕ) (v : V) → k ≢ j → update m k v j ≡ m j
update_ne m k j v ne = ground arith

pub slice-ok {ℓ} :
    {E : Type ℓ} (s : Bytes) (lo hi n : ℕ)
    → lo + n ≡ hi
    → hi ≤ length s
    → slice {E = E} s lo hi ≡ ok (take n (drop lo s))
unfolding slice
slice-ok s lo hi n e h =
    let e' : hi - lo ≡ n = omega arith in
    rw (ge→ltb hi lo (omega arith), ge→ltb (length s) hi h, e')

pub slice_from-ok {ℓ} :
    {E : Type ℓ} (s : Bytes) (lo : ℕ) → lo ≤ length s → slice_from {E = E} s lo ≡ ok (drop lo s)
unfolding slice_from
slice_from-ok s lo h = rw (ge→ltb (length s) lo h)

pub index-ok {ℓ} :
    {E : Type ℓ} (s : Bytes) (i c : ℕ) → get_elem? s i ≡ some c → index {E = E} s i ≡ ok c
unfolding index
index-ok s i c h = rw (h, index)
