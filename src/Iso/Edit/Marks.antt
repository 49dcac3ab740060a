-- ===== src/Iso/Edit/Marks.antt =====
-- Adding a field by `MarkField` and `SetField` keeps a message well formed.
use native.Mathlib.Decide.{ℕ_discrete, dec_lt}
use native.Mathlib.Nat.{zero-div}
use mathlib.Core.Path.{subst}
use longclaw.Base.{
  ℕ, ◌+◌, ◌-◌, ◌≤◌, ◌<◌, ◌≡◌, refl, ◌∙◌, arith, Bool, true, false, Option, none, some, Bytes, ok,
  pos, lt→ltb, ge→ltb, update, update_self, update_ne,
}
use longclaw.Iso.BitSet.{BitSet, zero_bits, bit, assign_bit, set_bit, IsWord}
use longclaw.Iso.BitSet.Laws.{bit-assign_bit_self, bit-assign_bit_ne, assign_bit-IsWord}
use longclaw.Iso.Spec.{IsoSpec}
use longclaw.Iso.Message.{Message, Fields}
use longclaw.Iso.Edit.{set_field, mark_field, or_new}
use longclaw.Iso.WellFormed.{FitsDef, Agrees, AgreesOn, AgreesAbove, IsWellFormed}

pub set_bit-assign_bit {ℓ} :
    {E : Type ℓ} (b : BitSet) (i : ℕ) (val : Bool)
    → i ≤ 63
    → set_bit {E = E} b i val ≡ ok (assign_bit b i val)
set_bit-assign_bit b i val h = unfold set_bit in rw (ge→ltb 63 i h)

Agrees-at :
    (spec : IsoSpec) (key : ℕ) {p q : Bool} {x y : Option Bytes}
    → p ≡ q
    → x ≡ y
    → Agrees spec key q y
    → Agrees spec key p x
Agrees-at spec key e e' a = rw (e, e') a

-- The flag that is set and the field that is stored agree, and so do the others still.
AgreesOn-mark :
    (spec : IsoSpec) (bits : BitSet) (fields : Fields) (base lo rounds idx : ℕ) (v : Bytes)
    → idx ≤ 63
    → lo + rounds ≤ 64
    → FitsDef (spec.field_def_map (pos (base + idx + 1))) v
    → AgreesOn spec bits fields base lo rounds
    → AgreesOn spec (assign_bit bits idx true) (update fields (base + idx) v) base lo rounds
AgreesOn-mark spec bits fields base lo rounds idx v low top fits a j p q = elim (ℕ_discrete idx j) [
  | yes e ↦
      subst
        (λ k.
          Agrees spec (base + k) (bit (assign_bit bits idx true) k)
            (update fields (base + idx) v (base + k)))
        e
        (Agrees-at spec (base + idx) (bit-assign_bit_self bits idx true low)
          (update_self fields (base + idx) v) fits)
  | no ne ↦
      Agrees-at spec (base + j) (bit-assign_bit_ne bits idx j true low (omega arith) ne)
        (update_ne fields (base + idx) (base + j) v (omega arith)) (a j p q)
]

-- Only the fields and flags in range matter.
AgreesOn-same :
    (spec : IsoSpec) (bits bits' : BitSet) (fields fields' : Fields) (base lo rounds : ℕ)
    → ((j : ℕ)
        → lo ≤ j
        → j < lo + rounds
        → (bit bits' j ≡ bit bits j) × (fields' (base + j) ≡ fields (base + j)))
    → AgreesOn spec bits fields base lo rounds
    → AgreesOn spec bits' fields' base lo rounds
AgreesOn-same spec bits bits' fields fields' base lo rounds same a j p q =
    Agrees-at spec (base + j) (same j p q).0 (same j p q).1 (a j p q)

AgreesAbove-same :
    (spec : IsoSpec) (flag : Bool) (above : Option BitSet) (fields fields' : Fields)
    → ((j : ℕ) → 64 ≤ j → fields' j ≡ fields j)
    → AgreesAbove spec flag above fields
    → AgreesAbove spec flag above fields'
AgreesAbove-same spec true (some b) fields fields' same (word, a, top) = (
  word,
  AgreesOn-same spec b b fields fields' 64 0 64 (λ j p q. (refl, same (64 + j) (omega arith))) a,
  λ j h. same j (omega arith) ∙ top j h,
)
AgreesAbove-same spec true none fields fields' same a = absurd a
AgreesAbove-same spec false (some b) fields fields' same a = absurd a
AgreesAbove-same spec false none fields fields' same a = λ j h. same j h ∙ a j h

no_flag : (j : ℕ) → bit zero_bits j ≡ false
no_flag j = rw zero-div

-- The second bitmap, or the empty one that stands in for it.
AgreesAbove-or_new :
    (spec : IsoSpec) (flag : Bool) (above : Option BitSet) (fields : Fields)
    → AgreesAbove spec flag above fields
    → IsWord (or_new above)
      × AgreesOn spec (or_new above) fields 64 0 64
      × ((j : ℕ) → 128 ≤ j → fields j ≡ none)
unfolding or_new
AgreesAbove-or_new spec true (some b) fields a = a
AgreesAbove-or_new spec true none fields a = absurd a
AgreesAbove-or_new spec false (some b) fields a = absurd a
AgreesAbove-or_new spec false none fields a = (
  omega arith,
  λ j p q. Agrees-at spec (64 + j) (no_flag j) (a (64 + j) (omega arith)) tt,
  λ j h. a j (omega arith),
)

module _ (m : Message) (wf : IsWellFormed m) (v : Bytes) where
  abbrev low_marked : ℕ → Message
  low_marked idx = record m {
    primary = assign_bit m.primary idx true;
    fields = update m.fields idx v;
  }

  low_marked-IsWellFormed :
      (idx : ℕ)
      → 0 < idx
      → idx < 64
      → FitsDef (m.iso_spec.field_def_map (pos (idx + 1))) v
      → IsWellFormed (low_marked idx)
  low_marked-IsWellFormed idx p q fits = record {
    has_mti = wf.has_mti;
    word = assign_bit-IsWord m.primary idx true (omega arith) wf.word;
    no_field_zero = update_ne m.fields idx 0 v (omega arith) ∙ wf.no_field_zero;
    low =
        let e : 0 + idx ≡ idx = omega arith in
        rw e at (
          AgreesOn-mark m.iso_spec m.primary m.fields 0 1 63 idx v (omega arith) (omega arith)
            (rw e fits) wf.low);
    high = rw (bit-assign_bit_ne m.primary idx 0 true (omega arith) (omega arith) (omega arith)) (
        AgreesAbove-same m.iso_spec (bit m.primary 0) m.secondary m.fields _
          (λ j h. update_ne m.fields idx j v (omega arith)) wf.high);
  }

  abbrev high_marked : ℕ → Message
  high_marked idx = record m {
    primary = assign_bit m.primary 0 true;
    secondary = some (assign_bit (or_new m.secondary) idx true);
    fields = update m.fields (64 + idx) v;
  }

  high_marked-IsWellFormed :
      (idx : ℕ)
      → idx < 64
      → FitsDef (m.iso_spec.field_def_map (pos (64 + idx + 1))) v
      → IsWellFormed (high_marked idx)
  high_marked-IsWellFormed idx q fits =
      let (word, agrees, top) =
        AgreesAbove-or_new m.iso_spec (bit m.primary 0) m.secondary m.fields wf.high in
      record {
        has_mti = wf.has_mti;
        word = assign_bit-IsWord m.primary 0 true (omega arith) wf.word;
        no_field_zero = update_ne m.fields (64 + idx) 0 v (omega arith) ∙ wf.no_field_zero;
        low =
            AgreesOn-same m.iso_spec m.primary (assign_bit m.primary 0 true) m.fields
              (update m.fields (64 + idx) v) 0 1 63
              (λ j p h. (
                bit-assign_bit_ne m.primary 0 j true (omega arith) (omega arith) (omega arith),
                update_ne m.fields (64 + idx) (0 + j) v (omega arith),
              ))
              wf.low;
        high = rw (bit-assign_bit_self m.primary 0 true (omega arith)) (
          assign_bit-IsWord (or_new m.secondary) idx true (omega arith) word,
          AgreesOn-mark m.iso_spec (or_new m.secondary) m.fields 64 0 64 idx v (omega arith)
              (omega arith) fits agrees,
          λ j h. update_ne m.fields (64 + idx) j v (omega arith) ∙ top j h,
        );
      }

-- Marking a field other than the first of the message and storing a value that fits its definition
-- neither panics nor spoils the message.
pub mark_field-IsWellFormed :
    {E : Type 0} (m : Message) (idx : ℕ) (v : Bytes)
    → IsWellFormed m
    → 0 < idx
    → idx < 128
    → FitsDef (m.iso_spec.field_def_map (pos (idx + 1))) v
    → (m' : Message) × (mark_field {E = E} m idx ≡ ok m') × IsWellFormed (set_field m' idx v)
unfolding mark_field set_field
mark_field-IsWellFormed m idx v wf p q fits = elim (dec_lt idx 64) [
  | yes lo ↦ (
    record m { primary = assign_bit m.primary idx true },
    rw (lt→ltb idx 64 lo, set_bit-assign_bit m.primary idx true (omega arith)),
    low_marked-IsWellFormed m wf v idx p lo fits,
  )
  | no hi ↦
      let e : 64 + (idx - 64) ≡ idx = omega arith in
      (
        record m {
          primary = assign_bit m.primary 0 true;
          secondary = some (assign_bit (or_new m.secondary) (idx - 64) true);
        },
        rw (
          ge→ltb idx 64 (omega arith),
          set_bit-assign_bit m.primary 0 true (omega arith),
          set_bit-assign_bit (or_new m.secondary) (idx - 64) true (omega arith),
        ),
        rw e at (high_marked-IsWellFormed m wf v (idx - 64) (omega arith) (rw e fits)),
      )
]

-- Marking changes the bitmaps only.
pub mark_field-fields :
    {E : Type 0} (m : Message) (idx : ℕ)
    → idx < 128
    → (m' : Message) × (mark_field {E = E} m idx ≡ ok m')
      × (m'.fields ≡ m.fields)
      × (m'.message ≡ m.message)
unfolding mark_field
mark_field-fields m idx h = elim (dec_lt idx 64) [
  | yes lo ↦ (
    record m { primary = assign_bit m.primary idx true },
    rw (lt→ltb idx 64 lo, set_bit-assign_bit m.primary idx true (omega arith)),
    refl,
    refl,
  )
  | no hi ↦ (
    record m {
      primary = assign_bit m.primary 0 true;
      secondary = some (assign_bit (or_new m.secondary) (idx - 64) true);
    },
    rw (
      ge→ltb idx 64 (omega arith),
      set_bit-assign_bit m.primary 0 true (omega arith),
      set_bit-assign_bit (or_new m.secondary) (idx - 64) true (omega arith),
    ),
    refl,
    refl,
  )
]
