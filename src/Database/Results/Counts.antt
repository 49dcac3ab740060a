-- ===== src/Database/Results/Counts.antt =====
-- The figures that are combined from the groups of `GetStressTestResults` (database/dao.go).
use mathlib.Core.List.{Permᴰ}
use mathlib.Core.List.Permᴰ.{nil, cons, swap, trans}
use mathlib.Core.List.Permᴰ
use longclaw.Base.{
  ℕ, suc, ◌-◌, true, false, not, ◌&&◌, ◌||◌, Option, none, some, List, [], ◌∷◌, ◌++◌, append_assoc,
  append-nil, foldl, length, length-append, Bytes, bytes_eq, ltb, ◌==◌, if◌then◌else◌, ℤ, pos, ◌≡◌,
  refl, sym, ap, ◌∙◌, inl, inr, Bool-cases, arith,
}
use longclaw.Base.Dict.{Dict}
use longclaw.Base.Order.{int_le}
use longclaw.Database.Tables.{LogRow}
use longclaw.Database.Results.{
  int_add, int_min, int_max, mti_or_unknown, cons_time, times, add_group, group_rows,
  RequestSummary, fold_times, summarize, no_summary, combine, combine_all, overall_of,
}
use longclaw.Database.Results.Folds.{
  int_add_zero, foldl-append_times, foldl-Permᴰ, fold_times-Permᴰ, int_add-IsCommutative,
  int_min-IsCommutative, int_max-IsCommutative,
}

-- The rows of all groups.
abbrev ungroup : Dict (List LogRow) → List LogRow
ungroup [] = []
ungroup ((mti, rows) ∷ groups) = rows ++ ungroup groups

ungroup-add_group :
    (mti : Bytes) (row : LogRow) (groups : Dict (List LogRow))
    → Permᴰ (row ∷ ungroup groups) (ungroup (add_group mti row groups))
unfolding add_group
ungroup-add_group mti row [] = Permᴰ.refl (row ∷ [])
ungroup-add_group mti row ((other, rows) ∷ groups) = elim (Bool-cases (bytes_eq other mti)) [
  | inl e ↦ rw e (Permᴰ.refl (row ∷ (rows ++ ungroup groups)))
  | inr e ↦ rw e (
      trans (Permᴰ.symm (Permᴰ.middle row rows (ungroup groups)))
        (Permᴰ.append_left rows (ungroup-add_group mti row groups)))
]

ungroup-group_rows : (rows : List LogRow) → Permᴰ rows (ungroup (group_rows rows))
unfolding group_rows
ungroup-group_rows [] = nil
ungroup-group_rows (row ∷ rows) =
    trans (cons refl (ungroup-group_rows rows))
      (ungroup-add_group (mti_or_unknown row.mti) row (group_rows rows))

cons_time-append : (o : Option ℤ) (xs ys : List ℤ) → cons_time o xs ++ ys ≡ cons_time o (xs ++ ys)
cons_time-append none xs ys = refl
cons_time-append (some ms) xs ys = refl

cons_time-Permᴰ :
    {xs ys : List ℤ} (o : Option ℤ) → Permᴰ xs ys → Permᴰ (cons_time o xs) (cons_time o ys)
cons_time-Permᴰ none p = p
cons_time-Permᴰ (some ms) p = cons refl p

cons_time-swap :
    (o q : Option ℤ) (xs : List ℤ)
    → Permᴰ (cons_time o (cons_time q xs)) (cons_time q (cons_time o xs))
cons_time-swap none q xs = Permᴰ.refl (cons_time q xs)
cons_time-swap (some ms) none xs = Permᴰ.refl (ms ∷ xs)
cons_time-swap (some ms) (some other) xs = swap refl refl

times-append : (xs ys : List LogRow) → times (xs ++ ys) ≡ times xs ++ times ys
unfolding times
times-append [] ys = refl
times-append (row ∷ rows) ys =
    rw (times-append rows ys) (sym (cons_time-append row.time_taken (times rows) (times ys)))

times-Permᴰ : {xs ys : List LogRow} → Permᴰ xs ys → Permᴰ (times xs) (times ys)
unfolding times
times-Permᴰ nil = nil
times-Permᴰ (cons {a} {b} {l₁} {l₂} e p) = rw e (cons_time-Permᴰ b.time_taken (times-Permᴰ p))
times-Permᴰ (swap {a} {b} {a'} {b'} {l} e e') =
    rw (e, e') (cons_time-swap b'.time_taken a'.time_taken (times l))
times-Permᴰ (trans p q) = trans (times-Permᴰ p) (times-Permᴰ q)

-- What the loop has after these rows.
abbrev partial : List LogRow → RequestSummary
partial rows = record (summarize rows) { unanswered = 0; max = foldl int_max (pos 0) (times rows) }

positive : (n : ℕ) → ltb 0 (suc n) ≡ true
positive n = ground arith

suc_not_zero : (n : ℕ) → (suc n == 0) ≡ false
suc_not_zero n = ground arith

length-Permᴰ {ℓ} : {A : Type ℓ} {xs ys : List A} → Permᴰ xs ys → length xs ≡ length ys
length-Permᴰ nil = refl
length-Permᴰ (cons {a} {b} {l₁} {l₂} e p) = ap suc (length-Permᴰ p)
length-Permᴰ (swap {a} {b} {a'} {b'} {l} e e') = refl
length-Permᴰ (trans p q) = length-Permᴰ p ∙ length-Permᴰ q

-- Of the latencies before and behind.
min_after : List ℤ → List ℤ → ℤ
min_after xs ys =
    if ltb 0 (length ys)
      && ((length xs == 0) || not (int_le (fold_times int_min xs) (fold_times int_min ys)))
    then fold_times int_min ys
    else fold_times int_min xs

min_after-append : (xs ys : List ℤ) → min_after xs ys ≡ fold_times int_min (xs ++ ys)
unfolding min_after fold_times
min_after-append [] [] = refl
min_after-append [] (y ∷ ys) = rw (positive (length ys)) refl
min_after-append (x ∷ xs) [] = rw (append-nil xs) refl
min_after-append (x ∷ xs) (y ∷ ys) =
    rw
      (
        foldl-append_times int_min int_min-IsCommutative x y xs ys,
        positive (length ys),
        suc_not_zero (length xs),
      )
      (swapped (foldl int_min x xs) (foldl int_min y ys))
  where
    swapped : (a b : ℤ) → (if not (int_le a b) then b else a) ≡ int_min a b
    swapped a b = ground arith

max_after : List ℤ → List ℤ → ℤ
max_after xs ys =
    if ltb 0 (length ys)
    then int_max (foldl int_max (pos 0) xs) (fold_times int_max ys)
    else foldl int_max (pos 0) xs

max_after-append : (xs ys : List ℤ) → max_after xs ys ≡ foldl int_max (pos 0) (xs ++ ys)
unfolding max_after fold_times
max_after-append xs [] = rw (append-nil xs) refl
max_after-append xs (y ∷ ys) =
    rw (positive (length ys))
      (sym (foldl-append_times int_max int_max-IsCommutative (pos 0) y xs ys))

add_after-append :
    (xs ys : List ℤ)
    → int_add (fold_times int_add xs) (fold_times int_add ys) ≡ fold_times int_add (xs ++ ys)
unfolding fold_times
add_after-append [] [] = refl
add_after-append [] (y ∷ ys) =
    int_add-IsCommutative.comm (pos 0) (foldl int_add y ys) ∙ int_add_zero (foldl int_add y ys)
add_after-append (x ∷ xs) [] = rw (append-nil xs) (int_add_zero (foldl int_add x xs))
add_after-append (x ∷ xs) (y ∷ ys) =
    sym (foldl-append_times int_add int_add-IsCommutative x y xs ys)

combine-partial : (xs ys : List LogRow) → combine (partial xs) (summarize ys) ≡ partial (xs ++ ys)
unfolding combine summarize min_after max_after
combine-partial xs ys =
    rw
      (
        times-append xs ys,
        length-append xs ys,
        length-append (times xs) (times ys),
        sym (min_after-append (times xs) (times ys)),
        sym (max_after-append (times xs) (times ys)),
        sym (add_after-append (times xs) (times ys)),
      )
      refl

combine_all-partial :
    (xs : List LogRow) (groups : Dict (List LogRow))
    → combine_all (partial xs) groups ≡ partial (xs ++ ungroup groups)
unfolding combine_all
combine_all-partial xs [] = rw (append-nil xs) refl
combine_all-partial xs ((mti, rows) ∷ groups) =
    rw (combine-partial xs rows, sym (append_assoc xs rows (ungroup groups)))
      (combine_all-partial (xs ++ rows) groups)

partial-Permᴰ : {xs ys : List LogRow} → Permᴰ xs ys → partial xs ≡ partial ys
unfolding summarize
partial-Permᴰ {xs} {ys} p =
    rw
      (
        length-Permᴰ p,
        length-Permᴰ (times-Permᴰ p),
        fold_times-Permᴰ int_min int_min-IsCommutative (times-Permᴰ p),
        fold_times-Permᴰ int_add int_add-IsCommutative (times-Permᴰ p),
        foldl-Permᴰ int_max int_max-IsCommutative (pos 0) (times-Permᴰ p),
      )
      refl

-- The loop over the groups of the MTIs, in whatever order they come, gives the number of all the test's
-- rows, of the answered ones and of the others, and the least latency and the sum of the latencies of
-- all rows together; the greatest latency is that of all rows, or 0 where all are below 0.
pub overall_of-direct :
    (rows : List LogRow)
    → overall_of rows ≡ record (summarize rows) { max = foldl int_max (pos 0) (times rows) }
unfolding overall_of no_summary summarize combine_all
overall_of-direct rows =
    ap {A = RequestSummary} (λ s. record s { unanswered = s.logged - s.answered })
      (combine_all-partial [] (group_rows rows) ∙ sym (partial-Permᴰ (ungroup-group_rows rows)))
