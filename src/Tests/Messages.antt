-- ===== src/Tests/Messages.antt =====
-- Parsing, printing and marking at the sample message.
use mathlib.Core.Path.{subst}
use longclaw.Base.{
  ℕ, ◌+◌, ◌^◌, ◌≡◌, ◌≢◌, ◌≤◌, ◌<◌, refl, arith, Bool, true, false, Option, none, some, Bytes, codes,
  length, max_int, ok, panic, pos, if◌then◌else◌,
}
use longclaw.Iso.BitSet.{to_hex}
use longclaw.Iso.Spec.{FieldDef, fill_map, int_eq, field_kind}
use longclaw.Iso.Message.{new_iso8583_message}
use longclaw.Iso.Format.{format_iso, format_fields, format_field, format_value, format_kind}
use longclaw.Strconv.{digits, format_padded}
use longclaw.Iso.WellFormed.{IsWellFormed, FitsDef}
use longclaw.Iso.RoundTrip.{text, format_iso-text, new_iso8583_message-text}
use longclaw.Iso.Parsed.{new_iso8583_message-IsWellFormed}
use longclaw.Iso.NoPanic.{IsModest, IsSmall, new_iso8583_message-ne-panic}
use longclaw.Reference.{generate_timestamp_id}
use longclaw.Reference.Unique.{counter_after, generate_timestamp_id_unique}
use longclaw.Tests.Sample.{sample_text, sample_spec, sample_message, sample_parses, definition}

pub sample-IsWellFormed : IsWellFormed sample_message
sample-IsWellFormed =
    (new_iso8583_message-IsWellFormed sample_text sample_spec sample_message sample_parses).0

new_iso8583_message-IsWellFormed_example :
    IsWellFormed sample_message
    × (sample_message.message ≡ sample_text)
    × (sample_message.iso_spec ≡ sample_spec)
new_iso8583_message-IsWellFormed_example =
    new_iso8583_message-IsWellFormed sample_text sample_spec sample_message sample_parses

format_iso-text_example : format_iso {E = ⊥} sample_message ≡ ok (text sample_message)
format_iso-text_example = format_iso-text {E = ⊥} sample_message sample-IsWellFormed

pub printed_length : length (text sample_message) ≡ 90
unfolding sample_message sample_spec fill_map to_hex digits format_fields format_field format_value
    format_kind field_kind format_padded
printed_length = refl

sample_fits : length (text sample_message) ≤ max_int
sample_fits = omega (arith, printed_length)

new_iso8583_message-text_example :
    new_iso8583_message (text sample_message) sample_message.iso_spec
    ≡ ok (record sample_message { message = text sample_message })
new_iso8583_message-text_example =
    new_iso8583_message-text sample_message sample-IsWellFormed sample_fits

Small : Option FieldDef → Type 0
Small o = (d : FieldDef) → o ≡ some d → IsSmall d.min_length

Small-none : Small none
unfolding Small
Small-none d e = cc

Small-if :
    (b : Bool) (number : ℕ) (kind : Bytes) (size : ℕ) (o : Option FieldDef)
    → size < 2 ^ 62
    → Small o
    → Small (if b then some (definition number kind size) else o)
unfolding Small
Small-if true number kind size o h k d e = subst (λ d. IsSmall d.min_length) (some-injective e) h
  where
    some-injective : {a b : FieldDef} → some a ≡ some b → a ≡ b
    some-injective h = cc
Small-if false number kind size o h k d e = k d e

pub sample_spec-IsModest : IsModest sample_spec
unfolding sample_spec fill_map Small
sample_spec-IsModest = record {
  small = λ k. Small-if (int_eq (pos 123) k) 123 (codes "LLLVar") 0 _ (omega arith) (
      Small-if (int_eq (pos 39) k) 39 (codes "Fixed") 2 _ (omega arith) (
        Small-if (int_eq (pos 37) k) 37 (codes "Fixed") 12 _ (omega arith) (
          Small-if (int_eq (pos 4) k) 4 (codes "Fixed") 12 _ (omega arith)
            (Small-if (int_eq (pos 2) k) 2 (codes "LLVar") 0 none (omega arith) Small-none))));
}

new_iso8583_message-ne-panic_example : new_iso8583_message sample_text sample_spec ≢ panic
new_iso8583_message-ne-panic_example =
    new_iso8583_message-ne-panic sample_text sample_spec (omega arith) sample_spec-IsModest

response_code_fits : FitsDef (sample_message.iso_spec.field_def_map (pos (38 + 1))) (codes "00")
unfolding sample_message sample_spec fill_map field_kind
response_code_fits = refl

generate_timestamp_id_unique_example :
    ((generate_timestamp_id 999999999999).0
      ≢ (generate_timestamp_id (counter_after 999999999999 1)).0)
    × (length ((generate_timestamp_id 999999999999).0) ≡ 12)
generate_timestamp_id_unique_example =
    generate_timestamp_id_unique 999999999999 1 (omega arith) (omega arith)
