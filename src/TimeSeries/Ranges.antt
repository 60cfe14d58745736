-- ===== src/TimeSeries/Ranges.antt =====
-- What the queries return.
use phpeek_pm.Prelude.{
  ℕ, zero, suc, ◌+◌, ◌-◌, ◌≤◌, ◌<◌, ◌≡◌, inl, inr, refl, sym, ap, ◌∙◌, arith, true, if◌then◌else◌,
  Bool-cases, List, [], ◌∷◌, ◌++◌, ℤ, pos, ltb, ltb→lt, ltb_false→le, ◌==◌, ==_iff, length,
  get_elem?, get_elem?_in, take, drop, length-append, drop-append_left, take_all, drop_all, last_n,
  last_n_all, append_assoc, append-nil, none, some, some_inj,
}
use phpeek_pm.TimeSeries.{
  Floats, ResourceSample, TimeSeriesBuffer, index_back, is_since, range_from, range_limit,
  get_range, get_last, get_since, size, latest,
}
use phpeek_pm.TimeSeries.Order.{IsValid, chronological, length-chronological}
use phpeek_pm.TimeSeries.Reading.{read_back}

module _ (floats : Floats) where
  -- The samples from a time on.
  abbrev pub samples_since : ℕ → List (ResourceSample floats) → List (ResourceSample floats)
  samples_since since [] = []
  samples_since since (x ∷ xs) =
      if is_since floats since x then x ∷ samples_since since xs else samples_since since xs

  samples_since-append :
      (since : ℕ) (xs ys : List (ResourceSample floats))
      → samples_since since (xs ++ ys) ≡ samples_since since xs ++ samples_since since ys
  samples_since-append since [] ys = refl
  samples_since-append since (x ∷ xs) ys = elim (Bool-cases (is_since floats since x)) [
    | inl late ↦ rw late (ap (λ l. x ∷ l) (samples_since-append since xs ys))
    | inr early ↦ rw early (samples_since-append since xs ys)
  ]

  drop_last :
      (n : ℕ) (xs : List (ResourceSample floats)) {x : ResourceSample floats}
      → get_elem? xs n ≡ some x
      → take (suc n) xs ≡ take n xs ++ x ∷ []
  drop_last n [] h = cc
  drop_last zero (y ∷ xs) h = ap (λ z. z ∷ []) (some_inj h)
  drop_last (suc n) (y ∷ xs) h = ap (λ l. y ∷ l) (drop_last n xs h)

  last_n-snoc :
      (n : ℕ) (xs ys : List (ResourceSample floats)) (x : ResourceSample floats)
      → length ys < n
      → last_n (n - length (x ∷ ys)) xs ++ x ∷ ys ≡ last_n (n - length ys) (xs ++ x ∷ []) ++ ys
  last_n-snoc n xs ys x h =
      let e : length (xs ++ x ∷ []) - (n - length ys) ≡ length xs - (n - suc (length ys)) =
        omega (arith, h, length-append xs (x ∷ [])) in
      rw e (
        sym (
          ap (λ l. l ++ ys)
            (drop-append_left (length xs - (n - suc (length ys))) xs (x ∷ []) (omega arith))
          ∙ append_assoc (drop (length xs - (n - suc (length ys))) xs) (x ∷ []) ys))

  range_from-last_n :
      (rounds i since limit : ℕ) (tsb : TimeSeriesBuffer floats)
      (result : List (ResourceSample floats))
      → IsValid floats tsb
      → i + rounds ≡ tsb.size
      → length result ≤ limit
      → range_from floats rounds i since limit tsb result
        ≡ last_n
            (limit - length result)
            (samples_since since (take rounds (chronological floats tsb)))
          ++ result
  unfolding range_from
  range_from-last_n zero i since limit tsb result v at within =
      sym (ap (λ l. l ++ result) (drop_all _ [] (omega arith)))
  range_from-last_n (suc r) i since limit tsb result v at within =
      let c = chronological floats tsb in
      let (x, found) = get_elem?_in c r (omega (arith, length-chronological floats tsb v)) in
      let idx : tsb.size - 1 - i ≡ r = omega arith in
      let read : get_elem? tsb.samples (index_back floats tsb i) ≡ some x =
        read_back floats tsb i v (omega arith) ∙ ap (get_elem? c) idx ∙ found in
      let s = samples_since since (take r c) in
      let more : samples_since since (take (suc r) c) ≡ s ++ samples_since since (x ∷ []) =
        ap (samples_since since) (drop_last r c found)
        ∙ samples_since-append since (take r c) (x ∷ []) in
      rw (read, more)
        (elim (Bool-cases (ltb (length result) limit)) [
          | inr full ↦
              let none_left : limit - length result ≡ 0 = omega (arith, ltb_false→le _ _ full) in
              rw (full, none_left)
                (sym (
                  ap (λ l. l ++ result)
                    (drop_all _ (s ++ samples_since since (x ∷ [])) (omega arith))))
          | inl room ↦ elim (Bool-cases (is_since floats since x)) [
            | inl late ↦
                rw (room, late)
                  (range_from-last_n r (i + 1) since limit tsb (x ∷ result) v (omega arith)
                      (omega (arith, ltb→lt _ _ room))
                    ∙ last_n-snoc limit s result x (ltb→lt _ _ room))
            | inr early ↦
                rw (room, early)
                  (range_from-last_n r (i + 1) since limit tsb result v (omega arith) within
                    ∙ ap (λ l. last_n (limit - length result) l ++ result) (sym (append-nil s)))
          ]
        ])

  range_limit-le : (limit : ℤ) (size : ℕ) → 0 < size → range_limit floats limit size ≤ size
  range_limit-le limit size some_there = ground arith

  -- GetRange returns, in the order in which they were added, the last samples from the time on: as many
  -- as the limit says, which is the number of samples where it is not positive or is larger than that.
  pub get_range_lem :
      (since : ℕ) (limit : ℤ) (tsb : TimeSeriesBuffer floats)
      → IsValid floats tsb
      → get_range floats since limit tsb
        ≡ last_n
            (range_limit floats limit tsb.size)
            (samples_since since (chronological floats tsb))
  unfolding get_range
  get_range_lem since limit tsb v = elim (Bool-cases (tsb.size == 0)) [
    | inl empty ↦
        let no_samples : chronological floats tsb ≡ [] =
          no_length _ (length-chronological floats tsb v ∙ (==_iff tsb.size 0).0 empty) in
        rw (empty, no_samples) (sym (drop_all _ [] (omega arith)))
    | inr there ↦
        let k = range_limit floats limit tsb.size in
        let all : take tsb.size (chronological floats tsb) ≡ chronological floats tsb =
          take_all tsb.size _ (omega (arith, length-chronological floats tsb v)) in
        let whole : k - 0 ≡ k = omega arith in
        rw there (
          range_from-last_n tsb.size 0 since k tsb [] v (omega arith) (omega arith)
          ∙ append-nil _
          ∙ ap (λ l. last_n (k - 0) (samples_since since l)) all
          ∙ ap (λ n. last_n n (samples_since since (chronological floats tsb))) whole)
  ]
    where
      no_length : (xs : List (ResourceSample floats)) → length xs ≡ 0 → xs ≡ []
      no_length [] h = refl
      no_length (x ∷ xs) h = absurd (omega arith)

  since_zero : (xs : List (ResourceSample floats)) → samples_since 0 xs ≡ xs
  since_zero [] = refl
  since_zero (x ∷ xs) =
      let late : is_since floats 0 x ≡ true = ground arith in
      rw late (ap (λ l. x ∷ l) (since_zero xs))

  length-samples_since :
      (since : ℕ) (xs : List (ResourceSample floats)) → length (samples_since since xs) ≤ length xs
  length-samples_since since [] = omega arith
  length-samples_since since (x ∷ xs) = ground (arith, length-samples_since since xs)

  get_last-range :
      (n : ℤ) (tsb : TimeSeriesBuffer floats)
      → IsValid floats tsb
      → get_last floats n tsb ≡ last_n (range_limit floats n tsb.size) (chronological floats tsb)
  unfolding get_last
  get_last-range n tsb v =
      get_range_lem 0 n tsb v
      ∙ ap (last_n (range_limit floats n tsb.size)) (since_zero (chronological floats tsb))

  latest-chronological :
      (tsb : TimeSeriesBuffer floats)
      → IsValid floats tsb
      → latest floats tsb ≡ get_elem? (chronological floats tsb) (tsb.size - 1)
  unfolding latest
  latest-chronological tsb v = elim (Bool-cases (tsb.size == 0)) [
    | inl empty ↦ rw empty (
        sym (
          none_there _ (chronological floats tsb)
            (length-chronological floats tsb v ∙ (==_iff tsb.size 0).0 empty)))
    | inr there ↦
        let positive : 0 < tsb.size = ground arith in
        let e : tsb.size - 1 - 0 ≡ tsb.size - 1 = omega arith in
        rw there (read_back floats tsb 0 v positive ∙ ap (get_elem? (chronological floats tsb)) e)
  ]
    where
      none_there :
          (i : ℕ) (xs : List (ResourceSample floats)) → length xs ≡ 0 → get_elem? xs i ≡ none
      none_there i [] h = refl
      none_there i (x ∷ xs) h = absurd (omega arith)

  -- GetLast returns the last n samples at a positive n; GetSince returns all from the time on; Latest is
  -- the last one that was added.
  queries_lem :
      (tsb : TimeSeriesBuffer floats)
      → IsValid floats tsb
      → ((n : ℕ) → get_last floats (pos (suc n)) tsb ≡ last_n (suc n) (chronological floats tsb))
        × ((since : ℕ)
            → get_since floats since tsb ≡ samples_since since (chronological floats tsb))
        × (latest floats tsb ≡ get_elem? (chronological floats tsb) (tsb.size - 1))
  unfolding get_since
  queries_lem tsb v =
      let c = chronological floats tsb in
      let len = length-chronological floats tsb v in
      (
        λ n.
            let e : length c - range_limit floats (pos (suc n)) tsb.size ≡ length c - suc n =
              positive n tsb.size (length c) len in
            get_last-range (pos (suc n)) tsb v ∙ ap (λ k. drop k c) e,
        λ since.
            let e : range_limit floats (pos tsb.max_samples) tsb.size ≡ tsb.size =
              limit_all tsb.max_samples tsb.size v.within_max in
            get_range_lem since (pos tsb.max_samples) tsb v
            ∙ ap (λ k. last_n k (samples_since since c)) e
            ∙ last_n_all tsb.size (samples_since since c)
                (omega (arith, len, length-samples_since since c)),
        latest-chronological tsb v,
      )
    where
      positive :
          (n size len : ℕ) → len ≡ size → len - range_limit floats (pos (suc n)) size ≡ len - suc n
      positive n size len e = ground arith

      limit_all : (n size : ℕ) → size ≤ n → range_limit floats (pos n) size ≡ size
      limit_all n size h = ground arith
