-- ===== src/Network/Stats.antt =====
-- network/server/message_stats.go: the counters of messages, and the loop that reports them every minute.
pub mod Kept
use longclaw.Base.{ℕ, ◌+◌, Bool, true, false, List, [], ◌∷◌, ◌++◌, ltb, if◌then◌else◌}

pub data Counter : Type 0 where
  sent_count : Counter
  dropped_count : Counter
  unmatched_count : Counter

abbrev pub same_counter : Counter → Counter → Bool
same_counter sent_count sent_count = true
same_counter sent_count dropped_count = false
same_counter sent_count unmatched_count = false
same_counter dropped_count sent_count = false
same_counter dropped_count dropped_count = true
same_counter dropped_count unmatched_count = false
same_counter unmatched_count sent_count = false
same_counter unmatched_count dropped_count = false
same_counter unmatched_count unmatched_count = true

-- The values of the counters, and the lines of the log, the oldest first.
pub record Stats : Type 0 where
  pub value : Counter → ℕ
  pub logged : List (Counter × ℕ)

abbrev pub set_value : Counter → ℕ → (Counter → ℕ) → Counter → ℕ
set_value counter n value other = if same_counter counter other then n else value other

-- `Add(1)`
unfoldable pub count_one : Counter → Stats → Stats
count_one counter s = record s { value = set_value counter (s.value counter + 1) s.value }

-- `Swap(0)`, and a line for what was there.
unfoldable pub report_counter : Counter → Stats → Stats
report_counter counter s = record {
  value = set_value counter 0 s.value;
  logged =
      if ltb 0 (s.value counter) then s.logged ++ ((counter, s.value counter) ∷ []) else s.logged;
}

-- What the goroutines do, each atomically: a message is counted, or the report comes to a counter.
pub data Act : Type 0 where
  counts : Counter → Act
  reports : Counter → Act

unfoldable pub act : Act → Stats → Stats
unfolding count_one report_counter
act (counts counter) s = count_one counter s
act (reports counter) s = report_counter counter s

unfoldable pub act_all : List Act → Stats → Stats
unfolding act
act_all [] s = s
act_all (a ∷ acts) s = act_all acts (act a s)

-- One round of `reportSentPerMinute`.
abbrev pub report_round : List Act
report_round = reports sent_count ∷ reports dropped_count ∷ reports unmatched_count ∷ []
