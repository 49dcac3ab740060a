-- ===== src/Database/Results/Percentiles.antt =====
-- The percentiles of `GetStressTestResults` (database/dao.go): all rows' latencies and each MTI's are in
-- order.
use longclaw.Base.{
  ℕ, suc, ◌-◌, ◌≤◌, ◌<◌, Bool, true, false, some, List, [], ◌∷◌, ◌++◌, append_assoc, append-nil,
  map, foldl, filter, length, get_elem?, All, Bytes, bytes_eq, bytes_eq→eq, get_elem?-some, ltb,
  ◌==◌, if◌then◌else◌, ℤ, pos, negsuc, ok, ◌>>=◌, Returns, Returns-bind, ◌≡◌, refl, sym, ap, ◌∙◌,
  inl, inr, Bool-cases, arith,
}
use longclaw.Base.Dict.{Dict, load, load-store}
use longclaw.Base.Order.{int_le, int_le-IsOrder}
use longclaw.Base.Sort.{sort, IsPreorder, IsSorted, IsSorted-get, sort-IsSorted}
use longclaw.Database.Tables.{LogRow, TestRow, ScheduledMessage, Tables}
use longclaw.Database.StressTests.{StressTest, first_test, get_stress_test, of_test}
use longclaw.Database.Results.{
  RequestSummary, summarize, Ranks, faster, latency_rows, or_nil, add_latency, percentile,
  set_percentiles, set_all, StressTestResults, overall_of, group_rows, finish_results, not_sent,
  results_of, get_stress_test_results, at_least_one,
}

-- The latencies of one MTI.
abbrev latencies_of : Bytes → List (Bytes × ℤ) → List ℤ
latencies_of mti rows = map (λ r. r.1) (filter (λ r. bytes_eq (r.0) mti) rows)

load-add_one :
    (mti other : Bytes) (ms : ℤ) (d : Dict (List ℤ))
    → or_nil (load mti (add_latency d (other, ms)))
      ≡ or_nil (load mti d) ++ (if bytes_eq other mti then ms ∷ [] else [])
unfolding add_latency
load-add_one mti other ms d = elim (Bool-cases (bytes_eq other mti)) [
  | inl e ↦
      rw (load-store other mti (or_nil (load other d) ++ (ms ∷ [])) d, e)
        (ap (λ k. or_nil (load k d) ++ (ms ∷ [])) (bytes_eq→eq other mti e))
  | inr e ↦
      rw (load-store other mti (or_nil (load other d) ++ (ms ∷ [])) d, e)
        (sym (append-nil (or_nil (load mti d))))
]

load-add_latency :
    (mti : Bytes) (d : Dict (List ℤ)) (rows : List (Bytes × ℤ))
    → or_nil (load mti (foldl add_latency d rows)) ≡ or_nil (load mti d) ++ latencies_of mti rows
load-add_latency mti d [] = sym (append-nil (or_nil (load mti d)))
load-add_latency mti d ((other, ms) ∷ rows) =
    load-add_latency mti (add_latency d (other, ms)) rows
    ∙ ap (λ l. l ++ latencies_of mti rows) (load-add_one mti other ms d)
    ∙ append_assoc (or_nil (load mti d)) (if bytes_eq other mti then ms ∷ [] else [])
        (latencies_of mti rows)
    ∙ ap (λ l. or_nil (load mti d) ++ l) (by_case (bytes_eq other mti))
  where
    by_case :
        (b : Bool)
        → (if b then ms ∷ [] else []) ++ latencies_of mti rows
          ≡ map
              (λ (r : Bytes × ℤ). r.1)
              (if b
                then (other, ms) ∷ filter (λ r. bytes_eq (r.0) mti) rows
                else filter (λ r. bytes_eq (r.0) mti) rows)
    by_case true = refl
    by_case false = refl

faster-IsPreorder : IsPreorder faster
faster-IsPreorder = record {
  total = λ a b. int_le-IsOrder.preorder.total (a.1) (b.1);
  trans = λ a b c. int_le-IsOrder.preorder.trans (a.1) (b.1) (c.1);
}

All-filter :
    (p : Bytes × ℤ → Bool) (P : Bytes × ℤ → Type 0) (rows : List (Bytes × ℤ))
    → All P rows
    → All P (filter p rows)
All-filter p P [] h = tt
All-filter p P (row ∷ rows) (h, hs) = elim (Bool-cases (p row)) [
  | inl e ↦ rw e (h, All-filter p P rows hs)
  | inr e ↦ rw e (All-filter p P rows hs)
]

IsSorted-filter :
    (p : Bytes × ℤ → Bool) (rows : List (Bytes × ℤ))
    → IsSorted faster rows
    → IsSorted faster (filter p rows)
IsSorted-filter p [] s = tt
IsSorted-filter p (row ∷ rows) (s, ss) = elim (Bool-cases (p row)) [
  | inl e ↦ rw e (All-filter p (λ b. faster row b ≡ true) rows s, IsSorted-filter p rows ss)
  | inr e ↦ rw e (IsSorted-filter p rows ss)
]

IsSorted-map :
    (rows : List (Bytes × ℤ)) → IsSorted faster rows → IsSorted int_le (map (λ r. r.1) rows)
IsSorted-map [] s = tt
IsSorted-map (row ∷ rows) (s, ss) = (All-map rows s, IsSorted-map rows ss)
  where
    All-map :
        (others : List (Bytes × ℤ))
        → All (λ b. faster row b ≡ true) others
        → All (λ b. int_le (row.1) b ≡ true) (map (λ r. r.1) others)
    All-map [] h = tt
    All-map (other ∷ others) (h, hs) = (h, All-map others hs)

-- The nearest ranks.
int_le_refl : (a : ℤ) → int_le a a ≡ true
int_le_refl (pos a) = ground arith
int_le_refl (negsuc a) = ground arith

IsSorted-get_le :
    (xs : List ℤ) (i j : ℕ) (a b : ℤ)
    → IsSorted int_le xs
    → i ≤ j
    → get_elem? xs i ≡ some a
    → get_elem? xs j ≡ some b
    → int_le a b ≡ true
IsSorted-get_le xs i j a b s h e e' = elim (Bool-cases (ltb i j)) [
  | inl l ↦ IsSorted-get int_le xs i j a b s (ground arith) e e'
  | inr l ↦ rw (same (ground arith)) (int_le_refl b)
]
  where
    same : i ≡ j → a ≡ b
    same h = cc

abbrev pub PercentilesOrdered : RequestSummary → Type 0
PercentilesOrdered s = (int_le s.p50 s.p95 ≡ true) × (int_le s.p95 s.p99 ≡ true)

module _ (ranks : Ranks) where
  -- The index that a share's rank stands for.
  abbrev index : ℕ → ℕ → ℕ
  index share n = at_least_one ranks (ranks.rank share n) - 1

  index_mono : (share other n : ℕ) → share ≤ other → index share n ≤ index other n
  index_mono share other n h = ground (arith, ranks.rank_mono share other n h)

  index_lt :
      (share : ℕ) (rest : List ℤ)
      → share ≤ 100
      → index share (suc (length rest)) < suc (length rest)
  index_lt share rest h = ground (arith, ranks.rank_le share (suc (length rest)) h)

  percentile-get :
      (ms : ℤ) (rest : List ℤ) (share : ℕ)
      → share ≤ 100
      → (v : ℤ) × (percentile ranks (ms ∷ rest) share ≡ ok v)
        × (get_elem? (ms ∷ rest) (index share (length (ms ∷ rest))) ≡ some v)
  unfolding percentile
  percentile-get ms rest share h =
      let (v, e) =
        get_elem?-some (ms ∷ rest) (index share (length (ms ∷ rest))) (index_lt share rest h) in
      (v, rw (e, percentile) refl, e)

  set_percentiles-ordered :
      (sorted : List ℤ) (s : RequestSummary)
      → IsSorted int_le sorted
      → Returns PercentilesOrdered (set_percentiles ranks sorted s)
  unfolding set_percentiles
  set_percentiles-ordered [] s h = (refl, refl)
  set_percentiles-ordered (ms ∷ rest) s h =
      let (a, e, g) = percentile-get ms rest 50 (omega arith) in
      let (b, e', g') = percentile-get ms rest 95 (omega arith) in
      let (c, e'', g'') = percentile-get ms rest 99 (omega arith) in
      let n = suc (length rest) in
      rw (e, e', e'')
        (
          IsSorted-get_le (ms ∷ rest) (index 50 n) (index 95 n) a b h
              (index_mono 50 95 n (omega arith)) g g',
          IsSorted-get_le (ms ∷ rest) (index 95 n) (index 99 n) b c h
              (index_mono 95 99 n (omega arith)) g' g'',
        )

  abbrev pub AllOrdered : Dict RequestSummary → Type 0
  AllOrdered [] = Unit
  AllOrdered ((mti, s) ∷ d) = PercentilesOrdered s × AllOrdered d

  set_all-ordered :
      (latencies : Dict (List ℤ))
      → ((mti : Bytes) → IsSorted int_le (or_nil (load mti latencies)))
      → (groups : Dict (List LogRow)) → Returns AllOrdered (set_all ranks latencies groups)
  unfolding set_all
  set_all-ordered latencies h [] = tt
  set_all-ordered latencies h ((mti, rows) ∷ groups) =
      Returns-bind PercentilesOrdered AllOrdered _ _
        (set_percentiles-ordered (or_nil (load mti latencies)) (summarize rows) (h mti))
        (λ s e o.
          Returns-bind AllOrdered AllOrdered _ _ (set_all-ordered latencies h groups)
            (λ d e' os. (o, os)))

  IsSorted-latencies :
      (mti : Bytes) (rows : List (Bytes × ℤ))
      → IsSorted faster rows
      → IsSorted int_le (or_nil (load mti (foldl add_latency [] rows)))
  unfolding load
  IsSorted-latencies mti rows s = rw (load-add_latency mti [] rows) (
      IsSorted-map (filter (λ r. bytes_eq (r.0) mti) rows)
        (IsSorted-filter (λ r. bytes_eq (r.0) mti) rows s))

  -- Both the overall figures and those of each MTI.
  abbrev pub InOrder : StressTestResults → Type 0
  InOrder results = PercentilesOrdered results.overall × AllOrdered results.by_mti

  results_of-InOrder :
      (test : StressTest) (now : ℕ) (rows : List LogRow) (waiting : List ScheduledMessage)
      → Returns InOrder (results_of ranks test now rows waiting)
  unfolding results_of finish_results
  results_of-InOrder test now rows waiting =
      let sorted = sort faster (latency_rows rows) in
      let s = sort-IsSorted faster faster-IsPreorder (latency_rows rows) in
      let by_mti = set_all ranks (foldl add_latency [] sorted) (group_rows rows) in
      Returns-bind PercentilesOrdered InOrder
        (set_percentiles ranks (map (λ r. r.1) sorted) (overall_of rows))
        (λ overall. by_mti >>= λ d. ok (finish_results test now waiting overall d))
        (set_percentiles-ordered (map (λ r. r.1) sorted) (overall_of rows) (IsSorted-map sorted s))
        (λ overall e o.
          Returns-bind AllOrdered InOrder by_mti
            (λ d. ok (finish_results test now waiting overall d))
            (set_all-ordered (foldl add_latency [] sorted) (λ mti. IsSorted-latencies mti sorted s)
              (group_rows rows))
            (λ d e' os. (o, os)))

  get_stress_test-Returns :
      (t : Tables) (id : ℕ) → Returns (λ test. Unit {0}) (get_stress_test t id)
  unfolding get_stress_test
  get_stress_test-Returns t id = by_rows (filter (λ row. row.id == id) t.tests)
    where
      by_rows : (rows : List TestRow) → Returns (λ test. Unit {0}) (first_test rows)
      by_rows [] = tt
      by_rows (row ∷ rows) = tt

  -- The results of a test that exists are computed without a panic, whatever its log holds: of all
  -- latencies and of each MTI's, the 50th percentile is at most the 95th and this at most the 99th.
  pub get_stress_test_results-InOrder :
      (t : Tables) (now id : ℕ) → Returns InOrder (get_stress_test_results ranks t now id)
  unfolding get_stress_test_results
  get_stress_test_results-InOrder t now id =
      Returns-bind (λ test. Unit {0}) InOrder (get_stress_test t id)
        (λ test.
          results_of ranks test now (filter (of_test id) t.log) (filter (not_sent id) t.scheduled))
        (get_stress_test-Returns t id)
        (λ test e u.
          results_of-InOrder test now (filter (of_test id) t.log)
            (filter (not_sent id) t.scheduled))
