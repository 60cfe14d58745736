-- ===== src/LogBuffer/Refine.antt =====
-- The buffer holds the last entries that were added since it was new or cleared.
use phpeek_pm.Prelude.{
  ◌+◌, ◌-◌, ◌<◌, ◌≡◌, refl, ap, sym, ◌∙◌, inl, inr, List, [], ◌∷◌, ◌++◌, arith, ℤ, length, take,
  drop, replicate, last_n, Bool-cases, leb→le, leb, length-set, length-take, length-drop,
  length-replicate, drop_all, append-nil, if◌then◌else◌, pos_part, last_n-last_n_snoc, append_assoc,
  copy_whole, copy_both, take-set, set_last, drop-set, last_n-ring, last_n-prefix, last_n-ring_last,
  length-append,
}
use phpeek_pm.LogBuffer.{LogEntry, LogBuffer, zero_entry, new_log_buffer, add, get_all, size, clear}

pub record IsValid (lb : LogBuffer) : Type 0 where
  pub allocated : length lb.entries ≡ lb.size
  pub index_in_range : lb.index < lb.size

pub new_log_buffer-IsValid : (n : ℤ) → IsValid (new_log_buffer n)
unfolding new_log_buffer
new_log_buffer-IsValid n =
    ground (arith, length-replicate 1000 zero_entry, length-replicate (pos_part n) zero_entry)

pub add-IsValid : (lb : LogBuffer) (entry : LogEntry) → IsValid lb → IsValid (add lb entry)
unfolding add
add-IsValid lb entry v = ground (arith, length-set lb.entries lb.index entry)

pub clear-IsValid : (lb : LogBuffer) → IsValid lb → IsValid (clear lb)
unfolding clear
clear-IsValid lb v = ground arith

-- The entries in the order in which they were added.
abbrev pub chronological : LogBuffer → List LogEntry
chronological lb =
    if lb.full
    then drop lb.index lb.entries ++ take lb.index lb.entries
    else take lb.index lb.entries

pub get_all-chronological : (lb : LogBuffer) → IsValid lb → get_all lb ≡ chronological lb
unfolding get_all
get_all-chronological lb v = elim (Bool-cases lb.full) [
  | inl full ↦ rw full (
      copy_both (replicate lb.size zero_entry) (drop lb.index lb.entries) (take lb.index lb.entries)
        (lb.size - lb.index) (omega (arith, v, length-drop lb.index lb.entries))
        (omega (
          arith,
          v,
          length-drop lb.index lb.entries,
          length-take lb.index lb.entries,
          length-replicate lb.size zero_entry,
        )))
  | inr free ↦ rw free (
      copy_whole (replicate lb.index zero_entry) (take lb.index lb.entries)
        (omega (arith, v, length-take lb.index lb.entries, length-replicate lb.index zero_entry)))
]

pub length-chronological : (lb : LogBuffer) → IsValid lb → length (chronological lb) ≡ size lb
unfolding size
length-chronological lb v = elim (Bool-cases lb.full) [
  | inl full ↦ rw full (
      omega (
        arith,
        v,
        length-append (drop lb.index lb.entries) (take lb.index lb.entries),
        length-drop lb.index lb.entries,
        length-take lb.index lb.entries,
      ))
  | inr free ↦ rw free (omega (arith, v, length-take lb.index lb.entries))
]

chronological-add :
    (lb : LogBuffer) (x : LogEntry)
    → IsValid lb
    → chronological (add lb x) ≡ last_n lb.size (chronological lb ++ x ∷ [])
unfolding add
chronological-add lb x v =
    let es = lb.entries in
    let i = lb.index in
    let n = lb.size in
    let len = v.allocated in
    let lt = v.index_in_range in
    elim (Bool-cases lb.full) [
      | inl full ↦ elim (Bool-cases (leb n (i + 1))) [
        | inl last ↦
            rw (full, last)
              (set_last es i n x len lt (leb→le _ _ last)
                ∙ sym (last_n-ring_last es i n x len lt (leb→le _ _ last)))
        | inr more ↦
            rw (full, more, drop-set es i n x len lt, take-set es i n x len lt)
              (sym (last_n-ring es i n x len lt))
      ]
      | inr free ↦ elim (Bool-cases (leb n (i + 1))) [
        | inl last ↦
            rw (free, last)
              (set_last es i n x len lt (leb→le _ _ last) ∙ sym (last_n-prefix es i n x len lt))
        | inr more ↦
            rw (free, more) (take-set es i n x len lt ∙ sym (last_n-prefix es i n x len lt))
      ]
    ]

-- An added entry comes last; the oldest entry goes if the buffer was full.
pub get_all-add :
    (lb : LogBuffer) (x : LogEntry)
    → IsValid lb
    → get_all (add lb x) ≡ last_n lb.size (get_all lb ++ x ∷ [])
get_all-add lb x v =
    get_all-chronological (add lb x) (add-IsValid lb x v)
    ∙ chronological-add lb x v
    ∙ ap (λ l. last_n lb.size (l ++ x ∷ [])) (sym (get_all-chronological lb v))

unfoldable pub add_list : LogBuffer → List LogEntry → LogBuffer
add_list lb [] = lb
add_list lb (x ∷ xs) = add_list (add lb x) xs

size-add : (lb : LogBuffer) (x : LogEntry) → (add lb x).size ≡ lb.size
unfolding add
size-add lb x = ground arith

-- Whatever was added since, get_all returns the last `size` of it, with what was there before.
get_all-add_list_from :
    (xs old : List LogEntry) (lb : LogBuffer)
    → IsValid lb
    → get_all lb ≡ last_n lb.size old
    → get_all (add_list lb xs) ≡ last_n lb.size (old ++ xs)
unfolding add_list
get_all-add_list_from [] old lb v e = e ∙ ap (last_n lb.size) (sym (append-nil old))
get_all-add_list_from (x ∷ xs) old lb v e =
    let step : get_all (add lb x) ≡ last_n (add lb x).size (old ++ x ∷ []) =
      get_all-add lb x v
      ∙ ap (λ l. last_n lb.size (l ++ x ∷ [])) e
      ∙ last_n-last_n_snoc lb.size old x
      ∙ ap (λ n. last_n n (old ++ x ∷ [])) (sym (size-add lb x)) in
    get_all-add_list_from xs (old ++ x ∷ []) (add lb x) (add-IsValid lb x v) step
    ∙ ap (λ n. last_n n ((old ++ x ∷ []) ++ xs)) (size-add lb x)
    ∙ ap (last_n lb.size) (append_assoc old (x ∷ []) xs)

get_all-clear : (lb : LogBuffer) → get_all (clear lb) ≡ []
unfolding get_all clear
get_all-clear lb = refl

get_all-new : (n : ℤ) → get_all (new_log_buffer n) ≡ []
unfolding get_all new_log_buffer
get_all-new n = refl

-- A new buffer returns, after any entries, the last of them in the order in which they came: all,
-- up to its size.
pub get_all-add_list :
    (n : ℤ) (xs : List LogEntry)
    → get_all (add_list (new_log_buffer n) xs) ≡ last_n (new_log_buffer n).size xs
get_all-add_list n xs =
    get_all-add_list_from xs [] (new_log_buffer n) (new_log_buffer-IsValid n)
      (get_all-new n ∙ sym (drop_all _ [] (omega arith)))

-- So does a cleared one: nothing from before the clearing shows.
get_all-clear-add_list :
    (lb : LogBuffer) (xs : List LogEntry)
    → IsValid lb
    → get_all (add_list (clear lb) xs) ≡ last_n lb.size xs
get_all-clear-add_list lb xs v =
    get_all-add_list_from xs [] (clear lb) (clear-IsValid lb v)
      (get_all-clear lb ∙ sym (drop_all _ [] (omega arith)))
    ∙ unfold clear in refl

-- Size counts what get_all returns.
pub size-get_all : (lb : LogBuffer) → IsValid lb → size lb ≡ length (get_all lb)
size-get_all lb v = rw (get_all-chronological lb v) (sym (length-chronological lb v))
