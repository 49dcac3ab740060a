-- ===== src/Network/Targets/Rotation.antt =====
-- A round of the round robin visits every connection once.
use native.Mathlib.Nat.{suc-mod, mod-eq_of_lt, mod-lt, mod-add-mod, mod_self}
use longclaw.Base.{
  ℕ, zero, suc, ◌+◌, ◌-◌, ◌%◌, ◌<◌, ◌≤◌, ◌≡◌, refl, sym, ap, ◌∙◌, arith, List, [], ◌∷◌, ◌++◌,
  append_assoc, append-nil, length, take, drop, length-drop,
}
use longclaw.Network.Targets.{node_targets, queue_steps, node_test_mode_round_robin}

module _ {A : Type 0} where
  take-one :
      (m i : ℕ) (xs : List A)
      → take 1 (drop i xs) ++ take m (drop (suc i) xs) ≡ take (suc m) (drop i xs)
  take-one zero zero [] = refl
  take-one (suc m) zero [] = refl
  take-one m zero (x ∷ xs) = refl
  take-one zero (suc i) [] = refl
  take-one (suc m) (suc i) [] = refl
  take-one m (suc i) (x ∷ xs) = take-one m i xs

  take_all : (n : ℕ) (xs : List A) → length xs ≤ n → take n xs ≡ xs
  take_all zero [] h = refl
  take_all zero (x ∷ xs) h = absurd (omega arith)
  take_all (suc n) [] h = refl
  take_all (suc n) (x ∷ xs) h = ap (λ t. x ∷ t) (take_all n xs (omega arith))

  module _ (conns : List A) (some_conn : 0 < length conns) where
    node_targets-next :
        (next : ℕ)
        → node_targets node_test_mode_round_robin conns next
          ≡ (take 1 (drop (next % length conns) conns), suc next)
    unfolding node_targets
    node_targets-next next = ground (arith, some_conn)

    queue_steps-suc :
        (m next : ℕ)
        → queue_steps node_test_mode_round_robin conns (suc m) next ≡ (
            let rest = queue_steps node_test_mode_round_robin conns m (suc next) in
            (take 1 (drop (next % length conns) conns) ++ rest.0, rest.1))
    unfolding queue_steps
    queue_steps-suc m next = rw (node_targets-next next) refl

    -- The steps up to the end of the list.
    some_steps :
        (m next : ℕ)
        → next % length conns + m ≤ length conns
        → queue_steps node_test_mode_round_robin conns m next
          ≡ (take m (drop (next % length conns) conns), next + m)
    some_steps zero next h =
        let e : next + 0 ≡ next = omega arith in unfold queue_steps in rw e refl
    some_steps (suc zero) next h =
        let e : next + 1 ≡ suc next = omega arith in
        queue_steps-suc 0 next
        ∙ (unfold queue_steps in
            rw (e, append-nil (take 1 (drop (next % length conns) conns))) refl)
    some_steps (suc (suc m)) next h =
        let room : suc (next % length conns) < length conns = omega (arith, h) in
        let up : suc next % length conns ≡ suc (next % length conns) =
          suc-mod next (length conns) ∙ mod-eq_of_lt room in
        let e : suc next + suc m ≡ next + suc (suc m) = omega arith in
        let ih = some_steps (suc m) (suc next) (rw up (omega (arith, h))) in
        queue_steps-suc (suc m) next
        ∙ rw (ih, up, e, take-one (suc m) (next % length conns) conns) refl

    queue_steps-add :
        (a b next : ℕ)
        → queue_steps node_test_mode_round_robin conns (a + b) next ≡ (
            let front = queue_steps node_test_mode_round_robin conns a next in
            let back = queue_steps node_test_mode_round_robin conns b (front.1) in
            (front.0 ++ back.0, back.1))
    queue_steps-add zero b next = let e : 0 + b ≡ b = omega arith in unfold queue_steps in rw e refl
    queue_steps-add (suc a) b next =
        let e : suc a + b ≡ suc (a + b) = omega arith in
        let front = queue_steps node_test_mode_round_robin conns a (suc next) in
        let back = queue_steps node_test_mode_round_robin conns b (front.1) in
        ap (λ n. queue_steps node_test_mode_round_robin conns n next) e
        ∙ queue_steps-suc (a + b) next
        ∙ rw
            (
              queue_steps-add a b (suc next),
              queue_steps-suc a next,
              append_assoc (take 1 (drop (next % length conns) conns)) (front.0) (back.0),
            )
            refl

    -- In as many steps as there are connections, the round robin sends to every connection once: from
    -- the one whose turn it is to the last, and then from the first.
    pub queue_steps-round :
        (next : ℕ)
        → queue_steps node_test_mode_round_robin conns (length conns) next ≡ (
          drop (next % length conns) conns ++ take (next % length conns) conns,
          next + length conns,
        )
    queue_steps-round next =
        let n = length conns in
        let j = next % n in
        let below : j < n = mod-lt next some_conn in
        let front = some_steps (n - j) next (omega (arith, below)) in
        let e : j + (n - j) ≡ n = omega (arith, below) in
        let turned : (next + (n - j)) % n ≡ 0 =
          sym (mod-add-mod next n (n - j)) ∙ ap (λ k. k % n) e ∙ mod_self n in
        let back = some_steps j (next + (n - j)) (rw turned (omega (arith, below))) in
        let whole : (n - j) + j ≡ n = omega (arith, below) in
        let after : next + (n - j) + j ≡ next + n = omega (arith, below) in
        let rest : take (n - j) (drop j conns) ≡ drop j conns =
          take_all (n - j) (drop j conns) (omega (arith, length-drop j conns)) in
        ap (λ k. queue_steps node_test_mode_round_robin conns k next) (sym whole)
        ∙ queue_steps-add (n - j) j next
        ∙ rw (front, back, turned, rest, after) refl
