-- ===== src/LogBuffer/Recent.antt =====
-- The most recent entries of the buffer.
use phpeek_pm.Prelude.{
  ℕ, ◌+◌, ◌-◌, ◌≤◌, ◌<◌, ◌≡◌, refl, ap, sym, ◌∙◌, inl, inr, List, ◌++◌, arith, pos, negsuc, length,
  take, drop, replicate, copy, last_n, none, some, Bool-cases, leb→le, leb, length-take,
  length-drop, length-replicate, drop-append_left, drop-append_right, drop-drop, copy_whole,
  copy_both, length-append, leb_false→lt, ltb, ltb→lt, if◌then◌else◌, last_n_all,
}
use phpeek_pm.LogBuffer.{LogEntry, LogBuffer, zero_entry, get_all, size, recent, get_recent}
use phpeek_pm.LogBuffer.Refine.{IsValid, chronological, get_all-chronological, length-chronological}

recent-full_wrap :
    (es : List LogEntry) (i cap n : ℕ)
    → length es ≡ cap
    → i < n
    → n ≤ cap
    → drop (cap - (n - i)) es ++ take i es ≡ last_n n (drop i es ++ take i es)
recent-full_wrap es i cap n len lt le =
    let k = cap - n in
    let from : cap - (n - i) ≡ i + k = omega arith in
    let kept : length (drop i es ++ take i es) - n ≡ k =
      omega (arith, length-append (drop i es) (take i es), length-drop i es, length-take i es) in
    rw (kept, from)
      (ap (λ l. l ++ take i es) (sym (drop-drop k i es))
        ∙ sym (drop-append_left k (drop i es) (take i es) (omega (arith, length-drop i es))))

recent-full_straight :
    (es : List LogEntry) (i cap n : ℕ)
    → length es ≡ cap
    → i < cap
    → n ≤ i
    → drop (i - n) (take i es) ≡ last_n n (drop i es ++ take i es)
recent-full_straight es i cap n len lt le =
    let k = length (drop i es ++ take i es) - n in
    let kept : k ≡ cap - n =
      omega (arith, length-append (drop i es) (take i es), length-drop i es, length-take i es) in
    let from : k - length (drop i es) ≡ i - n = omega (arith, kept, length-drop i es) in
    ap (λ j. drop j (take i es)) (sym from)
    ∙ sym (drop-append_right k (drop i es) (take i es) (omega (arith, kept, length-drop i es)))

copy_new : (src : List LogEntry) (n : ℕ) → length src ≡ n → copy (replicate n zero_entry) src ≡ src
copy_new src n e =
    copy_whole (replicate n zero_entry) src (omega (arith, length-replicate n zero_entry))

recent_lem :
    (lb : LogBuffer) (n : ℕ) → IsValid lb → n ≤ size lb → recent lb n ≡ last_n n (chronological lb)
unfolding recent size
recent_lem lb n v le =
    let es = lb.entries in
    let i = lb.index in
    elim (Bool-cases lb.full) [
      | inl full ↦ elim (Bool-cases (leb n i)) [
        | inl near ↦
            rw (full, near)
              (copy_new (drop (i - n) (take i es)) n (
                  omega
                    (arith, leb→le n i near, v, length-drop (i - n) (take i es), length-take i es))
                ∙ recent-full_straight es i lb.size n v.allocated v.index_in_range
                    (leb→le n i near))
        | inr far ↦
            let wide : n ≤ lb.size = rw full at le in
            let past : i < n = leb_false→lt n i far in
            rw (full, far)
              (copy_both (replicate n zero_entry) (drop (lb.size - (n - i)) es) (take i es) (n - i)
                  (omega (arith, v, wide, past, length-drop (lb.size - (n - i)) es))
                  (omega (
                    arith,
                    v,
                    wide,
                    past,
                    length-drop (lb.size - (n - i)) es,
                    length-take i es,
                    length-replicate n zero_entry,
                  ))
                ∙ recent-full_wrap es i lb.size n v.allocated past wide)
      ]
      | inr free ↦
          let short : n ≤ i = rw free at le in
          let len : length (take i es) ≡ i = omega (arith, v, length-take i es) in
          rw (free, len)
            (copy_new (drop (i - n) (take i es)) n
              (omega (arith, len, short, length-drop (i - n) (take i es))))
    ]

last_n_capped :
    (count n : ℕ) (xs : List LogEntry)
    → length xs ≡ count
    → last_n (if ltb count n then count else n) xs ≡ last_n n xs
last_n_capped count n xs e = elim (Bool-cases (ltb count n)) [
  | inl over ↦ rw over (
      last_n_all count xs (omega arith)
      ∙ sym (last_n_all n xs (omega (arith, ltb→lt count n over))))
  | inr under ↦ rw under
]

capped-le : (count n : ℕ) → (if ltb count n then count else n) ≤ count
capped-le count n = ground arith

-- GetRecent(n) returns the last n entries of GetAll, all of them if there are fewer; at a negative n
-- it panics.
get_recent_lem :
    (lb : LogBuffer) (n : ℕ)
    → IsValid lb
    → (get_recent lb (pos n) ≡ some (last_n n (get_all lb))) × (get_recent lb (negsuc n) ≡ none)
unfolding get_recent
get_recent_lem lb n v =
    let count = size lb in
    let capped = if ltb count n then count else n in
    (
      ap some (
          recent_lem lb capped v (capped-le count n)
          ∙ last_n_capped count n (chronological lb) (length-chronological lb v)
          ∙ ap (last_n n) (sym (get_all-chronological lb v))),
      refl,
    )
