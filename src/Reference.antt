-- ===== src/Reference.antt =====
-- utils/helper.go: the references of the messages that the load generator sends, and its data.
pub mod Unique
pub mod Data
use longclaw.Base.{ℕ, ◌+◌, ◌*◌, ◌%◌, ◌^◌, Bytes, pos}
use longclaw.Strconv.{format_int}

-- The counter is seeded with the milliseconds of the clock, times 100.
unfoldable pub init_counter : ℕ → ℕ
init_counter unix_milli = unix_milli * 100

-- The reference, and the counter behind it; the counter stays below 2^63.
unfoldable pub generate_timestamp_id : ℕ → Bytes × ℕ
generate_timestamp_id counter = (format_int 12 (pos ((counter + 1) % 10 ^ 12)), counter + 1)
