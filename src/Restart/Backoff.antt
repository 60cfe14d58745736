-- ===== src/Restart/Backoff.antt =====
-- The delay that calculateBackoff returns.
use phpeek_pm.Prelude.{
  ℕ, zero, suc, ◌+◌, ◌-◌, ◌*◌, ◌%◌, ◌^◌, ◌≤◌, ◌<◌, ◌≡◌, refl, arith, ℤ, pos, ◌≤ℤ◌, ◌<ℤ◌, min,
  pos_part, lt→ltb, wrap_int64, ap, ◌∙◌, ◌⊎◌, inl, inr, Bool-cases, ltb, subst,
}
use native.Mathlib.Nat.{mul_comm, mul-le-mul_left, pow-le-pow_right}
use phpeek_pm.Restart.{second, clamp_shift, initial_delay, cap_delay, calculate_backoff}

-- A number below 2^63 is itself as an int64.
wrap_int64_small : (n : ℕ) → n < 2 ^ 63 → wrap_int64 n ≡ pos n
wrap_int64_small n h = let e : n % 2 ^ 64 ≡ n = omega arith in rw (e, lt→ltb n (2 ^ 63) h)

cap_delay_pos :
    (max : ℤ) (n : ℕ) → pos 0 <ℤ max → cap_delay max (pos n) ≡ pos (min n (pos_part max))
unfolding cap_delay
cap_delay_pos (pos m) n h = ground arith
cap_delay_pos _ n h = absurd (omega arith)

calculate_backoff_fits :
    (initial max restart_count : ℤ)
    → pos 0 <ℤ max
    → initial_delay initial * 2 ^ clamp_shift restart_count < 2 ^ 63
    → calculate_backoff initial max restart_count
      ≡ pos (min (initial_delay initial * 2 ^ clamp_shift restart_count) (pos_part max))
unfolding calculate_backoff
calculate_backoff_fits initial max restart_count m h =
    let n = initial_delay initial * 2 ^ clamp_shift restart_count in
    ap (cap_delay max) (wrap_int64_small n h) ∙ cap_delay_pos max n m

initial_delay_lem :
    (initial : ℤ) (delay : ℕ)
    → ((initial ≡ pos delay) × (0 < delay)) ⊎ ((initial ≤ℤ pos 0) × (delay ≡ 1000000000))
    → initial_delay initial ≡ delay
unfolding initial_delay
initial_delay_lem initial delay (inl (e, positive)) = rw e (ground (arith, positive))
initial_delay_lem initial delay (inr (low, e)) = ground (arith, low, e)

clamp_shift_small : (r : ℕ) → r ≤ 62 → clamp_shift (pos r) ≡ r
unfolding clamp_shift
clamp_shift_small r h = ground arith

-- A product below 2^63 leaves room for 62 doublings at most.
few_doublings : (delay r : ℕ) → 0 < delay → delay * 2 ^ r < 2 ^ 63 → r ≤ 62
few_doublings delay r positive fits = elim (Bool-cases (ltb r 63)) [
  | inl few ↦ ground (arith, few)
  | inr many ↦
      let late : 63 ≤ r = ground (arith, many) in
      let grows : 1 * 2 ^ 63 ≤ 1 * 2 ^ r =
        mul-le-mul_left 1 (pow-le-pow_right (omega arith) late) in
      let least : 2 ^ r * 1 ≤ 2 ^ r * delay = mul-le-mul_left (2 ^ r) positive in
      absurd (omega (arith, grows, mul_comm (2 ^ r) delay, least, fits))
]

-- Let the initial delay be positive, or be one second in place of one that is not, and the maximum
-- positive. As long as the product fits an int64, the delay after r restarts is the initial one
-- doubled r times, and cut down to the maximum.
pub calculate_backoff_exact :
    (initial max : ℤ) (delay r : ℕ)
    → ((initial ≡ pos delay) × (0 < delay)) ⊎ ((initial ≤ℤ pos 0) × (delay ≡ 1000000000))
    → pos 0 <ℤ max
    → delay * 2 ^ r < 2 ^ 63
    → calculate_backoff initial max (pos r) ≡ pos (min (delay * 2 ^ r) (pos_part max))
calculate_backoff_exact initial max delay r starts positive fits =
    let from = initial_delay_lem initial delay starts in
    let shift = clamp_shift_small r (few_doublings delay r (at_least starts) fits) in
    subst (λ n. calculate_backoff initial max (pos r) ≡ pos (min n (pos_part max)))
      (rw (from, shift) refl)
      (calculate_backoff_fits initial max (pos r) positive (rw (from, shift) fits))
  where
    at_least :
        ((initial ≡ pos delay) × (0 < delay)) ⊎ ((initial ≤ℤ pos 0) × (delay ≡ 1000000000))
        → 0 < delay
    at_least (inl (e, h)) = h
    at_least (inr (low, e)) = omega (arith, e)

cap_delay-le : (max delay : ℤ) → pos 0 <ℤ max → cap_delay max delay ≤ℤ max
unfolding cap_delay
cap_delay-le max delay h = ground arith

-- The delay never passes a positive maximum, overflow or not.
pub calculate_backoff-le-max :
    (initial max restart_count : ℤ)
    → pos 0 <ℤ max
    → calculate_backoff initial max restart_count ≤ℤ max
unfolding calculate_backoff
calculate_backoff-le-max initial max restart_count m =
    cap_delay-le max (wrap_int64 (initial_delay initial * 2 ^ clamp_shift restart_count)) m

cap_delay_zero : (max : ℤ) → cap_delay max (pos 0) ≡ pos 0
unfolding cap_delay
cap_delay_zero max = ground arith

shifted_out : (n k : ℕ) → k ≤ 7 → (n * second * 2 ^ (55 + k)) % 2 ^ 64 ≡ 0
shifted_out n zero h = omega arith
shifted_out n (suc zero) h = omega arith
shifted_out n (suc (suc zero)) h = omega arith
shifted_out n (suc (suc (suc zero))) h = omega arith
shifted_out n (suc (suc (suc (suc zero)))) h = omega arith
shifted_out n (suc (suc (suc (suc (suc zero))))) h = omega arith
shifted_out n (suc (suc (suc (suc (suc (suc zero)))))) h = omega arith
shifted_out n (suc (suc (suc (suc (suc (suc (suc zero))))))) h = omega arith
shifted_out n (suc (suc (suc (suc (suc (suc (suc (suc k)))))))) h = absurd (omega arith)

clamp_shift_late : (r : ℕ) → 55 ≤ r → (k : ℕ) × (k ≤ 7) × (clamp_shift (pos r) ≡ 55 + k)
unfolding clamp_shift
clamp_shift_late r h = (clamp_shift (pos r) - 55, ground arith, ground arith)

whole_seconds : (n : ℕ) → (k : ℕ) × (initial_delay (pos (n * second)) ≡ k * second)
unfolding initial_delay
whole_seconds zero = (1, refl)
whole_seconds (suc n) = (suc n, ground arith)

-- From the 55th restart on, a backoff of whole seconds overflows to no delay at all, whatever the
-- maximum.
pub calculate_backoff_vanishes :
    (seconds : ℕ) (max : ℤ) (restart_count : ℕ)
    → 55 ≤ restart_count
    → calculate_backoff (pos (seconds * second)) max (pos restart_count) ≡ pos 0
unfolding calculate_backoff
calculate_backoff_vanishes seconds max r h =
    let (k, small, shift) = clamp_shift_late r h in
    let (n, whole) = whole_seconds seconds in
    rw (shift, whole, shifted_out n k small) (cap_delay_zero max)

-- While the products fit an int64, a later restart never waits for a shorter time.
calculate_backoff_mono :
    (initial max : ℤ) (m n : ℕ)
    → pos 0 <ℤ max
    → m ≤ n
    → n ≤ 62
    → initial_delay initial * 2 ^ n < 2 ^ 63
    → calculate_backoff initial max (pos m) ≤ℤ calculate_backoff initial max (pos n)
calculate_backoff_mono initial max m n h le hi fits =
    let grows : initial_delay initial * 2 ^ m ≤ initial_delay initial * 2 ^ n =
      mul-le-mul_left (initial_delay initial) (pow-le-pow_right (omega arith) le) in
    rw
      (
        calculate_backoff_fits initial max (pos m) h
            (rw (clamp_shift_small m (omega arith)) (omega arith)),
        calculate_backoff_fits initial max (pos n) h (rw (clamp_shift_small n hi) fits),
        clamp_shift_small m (omega arith),
        clamp_shift_small n hi,
      )
      (omega arith)
