-- ===== src/Network/Stats/Kept.antt =====
-- No message is lost or counted twice between the reports of network/server/message_stats.go.
use longclaw.Base.{
  ℕ, ◌+◌, ◌<◌, ◌≡◌, refl, ap, arith, true, List, [], ◌∷◌, ◌++◌, ltb, ltb→lt, ltb→ge, if◌then◌else◌,
  Bool-cases, inl, inr, All, All-append,
}
use longclaw.Network.Stats.{
  Counter, sent_count, dropped_count, unmatched_count, same_counter, Stats, set_value, count_one,
  report_counter, Act, counts, reports, act, act_all,
}

-- What the log says of a counter.
abbrev pub logged_of : Counter → List (Counter × ℕ) → ℕ
logged_of counter [] = 0
logged_of counter ((other, n) ∷ lines) =
    (if same_counter counter other then n else 0) + logged_of counter lines

-- How many messages are counted.
abbrev pub counted_of : Counter → List Act → ℕ
counted_of counter [] = 0
counted_of counter (counts other ∷ acts) =
    (if same_counter counter other then 1 else 0) + counted_of counter acts
counted_of counter (reports other ∷ acts) = counted_of counter acts

-- What is reported or still to be reported.
abbrev pub total : Counter → Stats → ℕ
total counter s = logged_of counter s.logged + s.value counter

-- No empty line is written.
abbrev pub NoneEmpty : List (Counter × ℕ) → Type 0
NoneEmpty = All (λ (line : Counter × ℕ). 0 < line.1)

logged_of-append :
    (counter : Counter) (lines : List (Counter × ℕ)) (other : Counter) (n : ℕ)
    → logged_of counter (lines ++ ((other, n) ∷ []))
      ≡ logged_of counter lines + (if same_counter counter other then n else 0)
logged_of-append counter [] other n = omega arith
logged_of-append counter ((first, m) ∷ lines) other n =
    omega (arith, logged_of-append counter lines other n)

same_counter_comm : (a b : Counter) → same_counter a b ≡ same_counter b a
same_counter_comm sent_count sent_count = refl
same_counter_comm sent_count dropped_count = refl
same_counter_comm sent_count unmatched_count = refl
same_counter_comm dropped_count sent_count = refl
same_counter_comm dropped_count dropped_count = refl
same_counter_comm dropped_count unmatched_count = refl
same_counter_comm unmatched_count sent_count = refl
same_counter_comm unmatched_count dropped_count = refl
same_counter_comm unmatched_count unmatched_count = refl

same_counter→eq : (a b : Counter) → same_counter a b ≡ true → a ≡ b
same_counter→eq sent_count sent_count e = refl
same_counter→eq sent_count dropped_count e = cc
same_counter→eq sent_count unmatched_count e = cc
same_counter→eq dropped_count sent_count e = cc
same_counter→eq dropped_count dropped_count e = refl
same_counter→eq dropped_count unmatched_count e = cc
same_counter→eq unmatched_count sent_count e = cc
same_counter→eq unmatched_count dropped_count e = cc
same_counter→eq unmatched_count unmatched_count e = refl

-- What is taken out of a counter was in it.
taken :
    (counter other : Counter) (value : Counter → ℕ)
    → (if same_counter counter other then value other else 0) + set_value other 0 value counter
      ≡ value counter
taken counter other value = elim (Bool-cases (same_counter counter other)) [
  | inl same ↦
      let e = ap value (same_counter→eq counter other same) in
      rw (same_counter_comm other counter, same) (omega (arith, e))
  | inr different ↦ rw (same_counter_comm other counter, different) (omega arith)
]

nothing :
    (counter other : Counter) (value : Counter → ℕ)
    → value other ≡ 0
    → (if same_counter counter other then value other else 0) ≡ 0
nothing counter other value e = elim (Bool-cases (same_counter counter other)) [
  | inl same ↦ rw same e
  | inr different ↦ rw different refl
]

act-total :
    (counter : Counter) (a : Act) (s : Stats)
    → total counter (act a s) ≡ total counter s + counted_of counter (a ∷ [])
unfolding act count_one report_counter
act-total counter (counts other) s = elim (Bool-cases (same_counter counter other)) [
  | inl same ↦
      let e = ap s.value (same_counter→eq counter other same) in
      rw (same_counter_comm other counter, same) (omega (arith, e))
  | inr different ↦ rw (same_counter_comm other counter, different) (omega arith)
]
act-total counter (reports other) s = elim (Bool-cases (ltb 0 (s.value other))) [
  | inl some_left ↦
      rw (some_left, logged_of-append counter s.logged other (s.value other))
        (omega (arith, taken counter other s.value))
  | inr none_left ↦
      let e : s.value other ≡ 0 = omega (arith, ltb→ge _ _ none_left) in
      rw none_left (omega (arith, taken counter other s.value, nothing counter other s.value e))
]

act-NoneEmpty : (a : Act) (s : Stats) → NoneEmpty s.logged → NoneEmpty (act a s).logged
unfolding act count_one report_counter
act-NoneEmpty (counts other) s h = h
act-NoneEmpty (reports other) s h = elim (Bool-cases (ltb 0 (s.value other))) [
  | inl some_left ↦ rw some_left (
      All-append (λ (line : Counter × ℕ). 0 < line.1) s.logged ((other, s.value other) ∷ []) h
        (ltb→lt _ _ some_left, tt))
  | inr none_left ↦ rw none_left h
]

counted_of-cons :
    (counter : Counter) (a : Act) (acts : List Act)
    → counted_of counter (a ∷ acts) ≡ counted_of counter (a ∷ []) + counted_of counter acts
counted_of-cons counter (counts other) acts = omega arith
counted_of-cons counter (reports other) acts = omega arith

-- Whatever is counted and in whatever order the report comes to the counters, between the messages or while they
-- are counted: for each counter, what its lines of the log add up to and what it still holds is what it had
-- before and one for each message that was counted; and no line says 0, if none did before.
pub act_all-keeps :
    (acts : List Act) (s : Stats)
    → NoneEmpty s.logged
    → ((counter : Counter)
        → total counter (act_all acts s) ≡ total counter s + counted_of counter acts)
      × NoneEmpty (act_all acts s).logged
unfolding act_all
act_all-keeps [] s h = ((λ counter. omega arith), h)
act_all-keeps (a ∷ acts) s h =
    let (e, h') = act_all-keeps acts (act a s) (act-NoneEmpty a s h) in
    (
      (λ counter. omega (arith, e counter, act-total counter a s, counted_of-cons counter a acts)),
      h',
    )
