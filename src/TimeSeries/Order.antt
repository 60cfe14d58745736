-- ===== src/TimeSeries/Order.antt =====
-- The samples of the ring in the order in which they were added.
use phpeek_pm.Prelude.{
  ℕ, ◌+◌, ◌%◌, ◌≤◌, ◌<◌, ◌≡◌, ◌⊎◌, inl, inr, refl, sym, ap, ◌∙◌, arith, true, false, if◌then◌else◌,
  Bool-cases, List, [], ◌∷◌, ◌++◌, ℤ, ltb, ltb→lt, lt→ltb, length, take, drop, last_n, length-set,
  length-replicate, length-take, length-drop, length-append, take-set, set_last, drop-set,
  last_n-ring, last_n-prefix, last_n-ring_last, drop_all, append-nil, append_assoc,
  last_n-last_n_snoc, dec_lt,
}
use native.Mathlib.Nat.{mod-eq_of_lt, mod_self, mod-lt}
use phpeek_pm.TimeSeries.{
  Floats, ResourceSample, zero_sample, TimeSeriesBuffer, new_time_series_buffer, add, clear, size,
}

module _ (floats : Floats) where
  pub record IsValid (tsb : TimeSeriesBuffer floats) : Type 0 where
    pub allocated : length tsb.samples ≡ tsb.max_samples
    pub head_in_range : tsb.head < tsb.max_samples
    pub within_max : tsb.size ≤ tsb.max_samples
    -- Until the ring is full, it is filled from its first slot.
    pub filling : tsb.size < tsb.max_samples → tsb.head ≡ tsb.size

  pub new_time_series_buffer-IsValid : (n : ℤ) → IsValid (new_time_series_buffer floats n)
  unfolding new_time_series_buffer
  new_time_series_buffer-IsValid n = record {
    allocated = length-replicate _ (zero_sample floats);
    head_in_range = ground arith;
    within_max = omega arith;
    filling = λ h. refl;
  }

  next-cases :
      (i n : ℕ) → i < n → ((i + 1) % n ≡ i + 1) × (i + 1 < n) ⊎ ((i + 1) % n ≡ 0) × (i + 1 ≡ n)
  next-cases i n lt = elim (dec_lt (i + 1) n) [
    | yes more ↦ inl (mod-eq_of_lt more, more)
    | no last ↦ let e : i + 1 ≡ n = omega arith in inr (ap (λ k. k % n) e ∙ mod_self n, e)
  ]

  pub add-IsValid :
      (x : ResourceSample floats) (tsb : TimeSeriesBuffer floats)
      → IsValid tsb
      → IsValid (add floats x tsb)
  unfolding add
  add-IsValid x tsb v = record {
    allocated = length-set tsb.samples tsb.head x ∙ v.allocated;
    head_in_range = mod-lt (tsb.head + 1) (omega (arith, v.head_in_range));
    within_max = ground (arith, v.within_max);
    filling =
        filled tsb.head tsb.size tsb.max_samples
          (next-cases tsb.head tsb.max_samples v.head_in_range) v.within_max v.filling;
  }
    where
      filled :
          (head size n : ℕ)
          → ((head + 1) % n ≡ head + 1) × (head + 1 < n) ⊎ ((head + 1) % n ≡ 0) × (head + 1 ≡ n)
          → size ≤ n
          → (size < n → head ≡ size)
          → (if ltb size n then size + 1 else size) < n
          → (head + 1) % n ≡ (if ltb size n then size + 1 else size)
      filled head size n next within filling h = ground arith

  pub clear-IsValid : (tsb : TimeSeriesBuffer floats) → IsValid tsb → IsValid (clear floats tsb)
  unfolding clear
  clear-IsValid tsb v = record {
    allocated = v.allocated;
    head_in_range = omega (arith, v.head_in_range);
    within_max = omega arith;
    filling = λ h. refl;
  }

  abbrev pub chronological : TimeSeriesBuffer floats → List (ResourceSample floats)
  chronological tsb =
      if ltb tsb.size tsb.max_samples
      then take tsb.head tsb.samples
      else drop tsb.head tsb.samples ++ take tsb.head tsb.samples

  pub length-chronological :
      (tsb : TimeSeriesBuffer floats) → IsValid tsb → length (chronological tsb) ≡ tsb.size
  length-chronological tsb v = ground (
    arith,
    v.allocated,
    v.head_in_range,
    v.within_max,
    v.filling,
    length-append (drop tsb.head tsb.samples) (take tsb.head tsb.samples),
    length-drop tsb.head tsb.samples,
    length-take tsb.head tsb.samples,
  )

  -- A new sample comes last; if the ring was full, the oldest goes.
  pub chronological-add :
      (x : ResourceSample floats) (tsb : TimeSeriesBuffer floats)
      → IsValid tsb
      → chronological (add floats x tsb) ≡ last_n tsb.max_samples (chronological tsb ++ x ∷ [])
  unfolding add
  chronological-add x tsb v =
      let es = tsb.samples in
      let i = tsb.head in
      let n = tsb.max_samples in
      let len = v.allocated in
      let lt = v.head_in_range in
      elim (Bool-cases (ltb tsb.size n)) [
        | inl free ↦
            let at : i ≡ tsb.size = v.filling (ltb→lt _ _ free) in
            elim (next-cases i n lt) [
              | inl more ↦
                  let still : ltb (tsb.size + 1) n ≡ true =
                    lt→ltb _ _ (omega (arith, more.1, at)) in
                  rw (free, still, more.0)
                    (take-set es i n x len lt ∙ sym (last_n-prefix es i n x len lt))
              | inr last ↦
                  let now_full : ltb (tsb.size + 1) n ≡ false =
                    le→ltb_false n (tsb.size + 1) (omega (arith, last.1, at)) in
                  rw (free, now_full, last.0)
                    (set_last es i n x len lt (omega (arith, last.1))
                      ∙ sym (last_n-prefix es i n x len lt))
            ]
        | inr full ↦
            let stays : ltb (if ltb tsb.size n then tsb.size + 1 else tsb.size) n ≡ false =
              rw full full in
            elim (next-cases i n lt) [
              | inl more ↦
                  rw (stays, full, more.0, drop-set es i n x len lt, take-set es i n x len lt)
                    (sym (last_n-ring es i n x len lt))
              | inr last ↦
                  rw (stays, full, last.0)
                    (set_last es i n x len lt (omega (arith, last.1))
                      ∙ sym (last_n-ring_last es i n x len lt (omega (arith, last.1))))
            ]
      ]
    where
      le→ltb_false : (n k : ℕ) → n ≤ k → ltb k n ≡ false
      le→ltb_false n k h = ground arith

  chronological-new : (n : ℤ) → chronological (new_time_series_buffer floats n) ≡ []
  unfolding new_time_series_buffer
  chronological-new n = ground arith

  pub add_list : TimeSeriesBuffer floats → List (ResourceSample floats) → TimeSeriesBuffer floats
  add_list tsb [] = tsb
  add_list tsb (x ∷ xs) = add_list (add floats x tsb) xs

  add-max_samples :
      (x : ResourceSample floats) (tsb : TimeSeriesBuffer floats)
      → (add floats x tsb).max_samples ≡ tsb.max_samples
  unfolding add
  add-max_samples x tsb = refl

  pub add_list-IsValid :
      (tsb : TimeSeriesBuffer floats) (xs : List (ResourceSample floats))
      → IsValid tsb
      → IsValid (add_list tsb xs)
  unfolding add_list
  add_list-IsValid tsb [] v = v
  add_list-IsValid tsb (x ∷ xs) v = add_list-IsValid (add floats x tsb) xs (add-IsValid x tsb v)

  chronological-add_list_from :
      (xs old : List (ResourceSample floats)) (tsb : TimeSeriesBuffer floats)
      → IsValid tsb
      → chronological tsb ≡ last_n tsb.max_samples old
      → chronological (add_list tsb xs) ≡ last_n tsb.max_samples (old ++ xs)
  unfolding add_list
  chronological-add_list_from [] old tsb v e =
      e ∙ ap (last_n tsb.max_samples) (sym (append-nil old))
  chronological-add_list_from (x ∷ xs) old tsb v e =
      let step : chronological (add floats x tsb)
          ≡ last_n (add floats x tsb).max_samples (old ++ x ∷ []) =
        chronological-add x tsb v
        ∙ ap (λ l. last_n tsb.max_samples (l ++ x ∷ [])) e
        ∙ last_n-last_n_snoc tsb.max_samples old x
        ∙ ap (λ n. last_n n (old ++ x ∷ [])) (sym (add-max_samples x tsb)) in
      chronological-add_list_from xs (old ++ x ∷ []) (add floats x tsb) (add-IsValid x tsb v) step
      ∙ ap (λ n. last_n n ((old ++ x ∷ []) ++ xs)) (add-max_samples x tsb)
      ∙ ap (last_n tsb.max_samples) (append_assoc old (x ∷ []) xs)

  -- A new ring holds, after any samples, the last of them, up to its size.
  chronological-add_list :
      (n : ℤ) (xs : List (ResourceSample floats))
      → chronological (add_list (new_time_series_buffer floats n) xs)
        ≡ last_n (new_time_series_buffer floats n).max_samples xs
  chronological-add_list n xs =
      chronological-add_list_from xs [] (new_time_series_buffer floats n)
        (new_time_series_buffer-IsValid n) (chronological-new n ∙ sym (drop_all _ [] (omega arith)))
