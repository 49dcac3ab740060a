-- ===== src/Iso/Parsed/Loop.antt =====
-- The loop over a bitmap stores exactly the fields that the flags announce.
use native.Mathlib.Decide.{ℕ_discrete}
use longclaw.Base.{
  ℕ, zero, suc, ◌+◌, ◌≤◌, ◌<◌, ◌≡◌, ◌≢◌, ap, ◌∙◌, arith, Bool, true, false, none, Bytes, ◌⊎◌, inl,
  inr, ok, >>=-eq-ok, pos, update, update_self, update_ne,
}
use longclaw.Iso.BitSet.{BitSet, bit}
use longclaw.Iso.BitSet.Laws.{get_bit-bit}
use longclaw.Iso.Spec.{IsoSpec}
use longclaw.Iso.Message.{Fields, parse_message, parse_bit, parse_bits}
use longclaw.Iso.WellFormed.{Agrees, AgreesOn, FitsDef}
use longclaw.Iso.Parsed.Value.{read_defined-ok}

parse_message-ok :
    (spec : IsoSpec) (s : Bytes) (key cur after : ℕ) (v : Bytes)
    → parse_message spec s key cur ≡ ok (v, after)
    → FitsDef (spec.field_def_map (pos (key + 1))) v
parse_message-ok spec s key cur after v e =
    read_defined-ok (spec.field_def_map (pos (key + 1))) s (key + 1) cur v after
      (unfold parse_message in e)

record Stored (spec : IsoSpec) (key : ℕ) (present : Bool) (fields out : Fields) : Type 0 where
  agrees : Agrees spec key present (out key)
  others : (j : ℕ) → key ≢ j → out j ≡ fields j

parse_bit-ok :
    (spec : IsoSpec) (s : Bytes) (key cur after : ℕ) (present : Bool) (fields out : Fields)
    → fields key ≡ none
    → parse_bit spec s key present cur fields ≡ ok (after, out)
    → Stored spec key present fields out
unfolding parse_bit
parse_bit-ok spec s key cur after true fields out fresh e =
    let ((v, c), e1, e2) = >>=-eq-ok (parse_message spec s key cur) _ e in
    let same : out ≡ update fields key v = cc in
    record {
      agrees = rw (same, update_self fields key v) (parse_message-ok spec s key cur c v e1);
      others = λ j ne. ap (λ (f : Fields). f j) same ∙ update_ne fields key j v ne;
    }
parse_bit-ok spec s key cur after false fields out fresh e =
    let same : out ≡ fields = cc in
    record { agrees = rw (same, fresh) tt; others = λ j ne. ap (λ (f : Fields). f j) same }

pub record StoredOn (spec : IsoSpec) (bits : BitSet) (base ind rounds : ℕ) (fields out : Fields)
    : Type 0 where
  pub agrees : AgreesOn spec bits out base ind rounds
  pub others : (j : ℕ) → (j < base + ind) ⊎ (base + ind + rounds ≤ j) → out j ≡ fields j

pub parse_bits-ok :
    (spec : IsoSpec) (s : Bytes) (bits : BitSet) (base rounds ind cur after : ℕ)
    (fields out : Fields)
    → ind + rounds ≤ 64
    → ((j : ℕ) → base + ind ≤ j → fields j ≡ none)
    → parse_bits spec s bits base rounds ind cur fields ≡ ok (after, out)
    → StoredOn spec bits base ind rounds fields out
unfolding parse_bits
parse_bits-ok spec s bits base zero ind cur after fields out top fresh e =
    let same : out ≡ fields = cc in
    record {
      agrees = λ j lo hi. absurd (omega arith);
      others = λ j outside. ap (λ (f : Fields). f j) same;
    }
parse_bits-ok spec s bits base (suc rounds) ind cur after fields out top fresh e =
    let e' = rw (get_bit-bit bits ind (omega arith)) at e in
    let ((c, more), e1, e2) =
      >>=-eq-ok (parse_bit spec s (base + ind) (bit bits ind) cur fields) _ e' in
    let one =
      parse_bit-ok spec s (base + ind) cur c (bit bits ind) fields more
        (fresh (base + ind) (omega arith)) e1 in
    let rest =
      parse_bits-ok spec s bits base rounds (ind + 1) c after more out (omega arith)
        (λ j lo. one.others j (omega arith) ∙ fresh j (omega arith)) e2 in
    record {
      agrees = λ j lo hi. elim (ℕ_discrete ind j) [
        | yes same ↦ rw (← same, rest.others (base + ind) (inl (omega arith))) one.agrees
        | no ne ↦ rest.agrees j (omega arith) (omega arith)
      ];
      others = λ j outside. elim outside [
        | inl h ↦ rest.others j (inl (omega arith)) ∙ one.others j (omega arith)
        | inr h ↦ rest.others j (inr (omega arith)) ∙ one.others j (omega arith)
      ];
    }
