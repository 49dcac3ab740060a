-- ===== src/Reference/Unique.antt =====
-- References do not repeat.
use longclaw.Base.{ℕ, zero, suc, ◌+◌, ◌%◌, ◌^◌, ◌<◌, ◌≡◌, ◌≢◌, sym, ap, ◌∙◌, arith, length, pos}
use longclaw.Strconv.{number, atoi, format_int}
use longclaw.Strconv.Digits.{atoi-format_padded, format_padded_fits, length-digits}
use longclaw.Reference.{generate_timestamp_id}

-- The counter after some calls.
abbrev pub counter_after : ℕ → ℕ → ℕ
counter_after counter zero = counter
counter_after counter (suc calls) = (generate_timestamp_id (counter_after counter calls)).1

counter_after-add : (counter calls : ℕ) → counter_after counter calls ≡ counter + calls
unfolding generate_timestamp_id
counter_after-add counter zero = omega arith
counter_after-add counter (suc calls) = omega (arith, counter_after-add counter calls)

number_of : (n : ℕ) → atoi (format_int 12 (pos (n % 10 ^ 12))) ≡ number (pos (n % 10 ^ 12))
unfolding format_int
number_of n = atoi-format_padded 12 (n % 10 ^ 12) (omega arith) (omega arith) (omega arith)

number-injective : {m n : ℕ} → number (pos m) ≡ number (pos n) → m ≡ n
number-injective e = cc

-- Two references with fewer than 10^12 calls between them differ, and every reference has 12 characters.
pub generate_timestamp_id_unique :
    (counter calls : ℕ)
    → 0 < calls
    → calls < 10 ^ 12
    → ((generate_timestamp_id counter).0 ≢ (generate_timestamp_id (counter_after counter calls)).0)
      × (length ((generate_timestamp_id counter).0) ≡ 12)
unfolding generate_timestamp_id
generate_timestamp_id_unique counter calls p h = (differ, wide)
  where
    differ :
        format_int 12 (pos ((counter + 1) % 10 ^ 12))
        ≢ format_int 12 (pos ((counter_after counter calls + 1) % 10 ^ 12))
    differ e =
        let same : (counter + 1) % 10 ^ 12 ≡ (counter_after counter calls + 1) % 10 ^ 12 =
          number-injective (
            sym (number_of (counter + 1))
            ∙ ap atoi e
            ∙ number_of (counter_after counter calls + 1)) in
        omega (arith, same, counter_after-add counter calls)

    wide : length (format_int 12 (pos ((counter + 1) % 10 ^ 12))) ≡ 12
    wide =
        unfold format_int in
        ap length (format_padded_fits 12 ((counter + 1) % 10 ^ 12) (omega arith) (omega arith))
        ∙ length-digits 10 12 ((counter + 1) % 10 ^ 12)
