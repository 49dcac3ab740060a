-- ===== src/Iso/Spec/Kinds.antt =====
-- The kinds of field: how many length digits there can be.
use longclaw.Base.{◌^◌, ◌≤◌, ◌<◌, arith, Bool, true, false, Bytes, codes, bytes_eq, if◌then◌else◌}
use longclaw.Iso.Spec.{Kind, fixed, variable, unknown, field_kind}

abbrev pub Width : Kind → Type 0
Width fixed = Unit
Width (variable k) = (0 < k) × (10 ^ k ≤ 2 ^ 62) × (k ≤ 3)
Width unknown = Unit

pub field_kind-Width : (t : Bytes) → Width (field_kind t)
unfolding field_kind
field_kind-Width t =
    go (bytes_eq t (codes "Fixed")) (bytes_eq t (codes "LLVar")) (bytes_eq t (codes "LLLVar"))
  where
    go :
        (a b c : Bool)
        → Width (if a then fixed else if b then variable 2 else if c then variable 3 else unknown)
    go true b c = tt
    go false true c = (omega arith, omega arith, omega arith)
    go false false true = (omega arith, omega arith, omega arith)
    go false false false = tt
