-- ===== src/TimeSeries/Reading.antt =====
-- Reading the ring from its newest sample backwards.
use phpeek_pm.Prelude.{
  ℕ, ◌+◌, ◌-◌, ◌%◌, ◌≤◌, ◌<◌, ◌≡◌, inl, inr, sym, ◌∙◌, arith, Bool-cases, ltb, ltb→lt, ltb_false→le,
  length, get_elem?, take, drop, length-drop, get_elem?-take, get_elem?-drop,
  get_elem?-append_before, get_elem?-append_after, dec_lt,
}
use native.Mathlib.Nat.{mod-eq_of_lt, mod-eq-sub-mod}
use phpeek_pm.TimeSeries.{Floats, TimeSeriesBuffer, index_back}
use phpeek_pm.TimeSeries.Order.{IsValid, chronological}

module _ (floats : Floats) where
  wrap : (a n : ℕ) → n ≤ a → a < n + n → a % n ≡ a - n
  wrap a n ge lt = mod-eq-sub-mod ge ∙ mod-eq_of_lt (omega arith)

  -- The i-th sample from the newest is the i-th from the end of the chronological order.
  pub read_back :
      (tsb : TimeSeriesBuffer floats) (i : ℕ)
      → IsValid floats tsb
      → i < tsb.size
      → get_elem? tsb.samples (index_back floats tsb i)
        ≡ get_elem? (chronological floats tsb) (tsb.size - 1 - i)
  read_back tsb i v lt = elim (Bool-cases (ltb tsb.size tsb.max_samples)) [
    | inl free ↦
        let at = v.filling (ltb→lt _ _ free) in
        let idx : index_back floats tsb i ≡ tsb.size - 1 - i =
          wrap (tsb.head + tsb.max_samples - (1 + i)) tsb.max_samples (omega (arith, at, lt))
            (omega (arith, v.head_in_range))
          ∙ omega (arith, at) in
        rw (free, idx)
          (sym (get_elem?-take tsb.head (tsb.size - 1 - i) tsb.samples (omega (arith, at))))
    | inr full ↦
        let all : tsb.size ≡ tsb.max_samples = omega (arith, v.within_max, ltb_false→le _ _ full) in
        rw full (elim (dec_lt i tsb.head) [
          | yes in_front ↦
              let idx : index_back floats tsb i ≡ tsb.head - 1 - i =
                wrap (tsb.head + tsb.max_samples - (1 + i)) tsb.max_samples (omega arith)
                  (omega (arith, v.head_in_range))
                ∙ omega arith in
              let len : length (drop tsb.head tsb.samples) ≡ tsb.max_samples - tsb.head =
                omega (arith, length-drop tsb.head tsb.samples, v.allocated) in
              let at : tsb.size - 1 - i ≡ length (drop tsb.head tsb.samples) + (tsb.head - 1 - i) =
                omega (arith, len, all, v.head_in_range) in
              rw (idx, at)
                (sym (
                  get_elem?-append_after (drop tsb.head tsb.samples) (take tsb.head tsb.samples)
                    (tsb.head - 1 - i)
                  ∙ get_elem?-take tsb.head (tsb.head - 1 - i) tsb.samples (omega arith)))
          | no behind ↦
              let idx : index_back floats tsb i ≡ tsb.head + (tsb.size - 1 - i) =
                mod-eq_of_lt {n = tsb.head + tsb.max_samples - (1 + i)} (omega (arith, lt, all))
                ∙ omega (arith, lt, all) in
              rw idx (
                sym (
                  get_elem?-append_before (drop tsb.head tsb.samples) (take tsb.head tsb.samples)
                    (tsb.size - 1 - i)
                    (omega (arith, length-drop tsb.head tsb.samples, v.allocated, lt, all))
                  ∙ get_elem?-drop tsb.head (tsb.size - 1 - i) tsb.samples))
        ])
  ]
