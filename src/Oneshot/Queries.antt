-- ===== src/Oneshot/Queries.antt =====
-- What the queries return.
use phpeek_pm.Prelude.{
  ℕ, zero, suc, ◌≤◌, ◌<◌, ◌≡◌, refl, sym, ap, ◌∙◌, arith, false, Bool-cases, inl, inr, List, [],
  ◌∷◌, ◌++◌, if◌then◌else◌, pos, negsuc, ltb, ltb_ℤ, ltb→lt, ltb_false→le, some_inj,
  take-length-append, String, str_eq, length, get_elem?, get_elem?_in, take, take_all, reverse,
  append-nil, append_assoc, length-append, length-reverse, newest_from, newest_from_lem, some, none,
  Option,
}
use mathlib.Core.List.{reverse-cons}
use phpeek_pm.Oneshot.{
  OneshotExecution, OneshotHistory, append_match, all_from, get_all, recent_from, get_recent,
  get_all_processes, get_recent_all,
}

-- The executions of one process.
abbrev pub of_process : String → List OneshotExecution → List OneshotExecution
of_process name [] = []
of_process name (e ∷ es) =
    if str_eq e.process_name name then e ∷ of_process name es else of_process name es

abbrev match_of : String → Option OneshotExecution → List OneshotExecution
match_of name none = []
match_of name (some e) = of_process name (e ∷ [])

append_match-of :
    (name : String) (o : Option OneshotExecution) (result : List OneshotExecution)
    → append_match name o result ≡ result ++ match_of name o
append_match-of name none result = sym (append-nil result)
append_match-of name (some e) result = elim (Bool-cases (str_eq e.process_name name)) [
  | inl same ↦ rw same
  | inr other ↦ rw other (sym (append-nil result))
]

-- The matches among the first `n` entries, from the last of them to the first.
backwards : ℕ → String → List OneshotExecution → List OneshotExecution
backwards zero name entries = []
backwards (suc i) name entries = match_of name (get_elem? entries i) ++ backwards i name entries

all_from-backwards :
    (n : ℕ) (name : String) (entries result : List OneshotExecution)
    → all_from n name entries result ≡ result ++ backwards n name entries
unfolding all_from backwards
all_from-backwards zero name entries result = sym (append-nil result)
all_from-backwards (suc i) name entries result =
    ap (all_from i name entries) (append_match-of name (get_elem? entries i) result)
    ∙ all_from-backwards i name entries (result ++ match_of name (get_elem? entries i))
    ∙ append_assoc result (match_of name (get_elem? entries i)) (backwards i name entries)

of_process-cons :
    (name : String) (e : OneshotExecution) (es : List OneshotExecution)
    → of_process name (e ∷ es) ≡ of_process name (e ∷ []) ++ of_process name es
of_process-cons name e es = elim (Bool-cases (str_eq e.process_name name)) [
  | inl same ↦ rw same
  | inr other ↦ rw other
]

take-suc :
    (i : ℕ) (es : List OneshotExecution) {e : OneshotExecution}
    → get_elem? es i ≡ some e
    → reverse (take (suc i) es) ≡ e ∷ reverse (take i es)
take-suc i [] h = cc
take-suc zero (x ∷ es) h = ap (λ y. y ∷ []) (some_inj h)
take-suc (suc i) (x ∷ es) {e} h =
    reverse-cons x (take (suc i) es)
    ∙ ap (λ l. l ++ x ∷ []) (take-suc i es h)
    ∙ ap (λ l. e ∷ l) (sym (reverse-cons x (take i es)))

backwards-reverse :
    (n : ℕ) (name : String) (entries : List OneshotExecution)
    → n ≤ length entries
    → backwards n name entries ≡ of_process name (reverse (take n entries))
unfolding backwards
backwards-reverse zero name entries h = refl
backwards-reverse (suc i) name entries h =
    let (e, at) = get_elem?_in entries i (omega arith) in
    rw (at, take-suc i entries at)
      (ap (λ l. of_process name (e ∷ []) ++ l) (backwards-reverse i name entries (omega arith))
        ∙ sym (of_process-cons name e (reverse (take i entries))))

-- GetAll returns the process's executions, the newest first.
pub get_all_lem :
    (process_name : String) (h : OneshotHistory)
    → get_all process_name h ≡ of_process process_name (reverse h.entries)
unfolding get_all
get_all_lem process_name h =
    all_from-backwards (length h.entries) process_name h.entries []
    ∙ backwards-reverse (length h.entries) process_name h.entries (omega arith)
    ∙ ap (λ l. of_process process_name (reverse l))
        (take_all (length h.entries) h.entries (omega arith))

append_match-length :
    (name : String) (o : Option OneshotExecution) (result : List OneshotExecution)
    → length (append_match name o result) ≤ suc (length result)
append_match-length name none result = omega arith
append_match-length name (some e) result = ground (arith, length-append result (e ∷ []))

recent_from-take :
    (n limit : ℕ) (name : String) (entries result : List OneshotExecution)
    → length result ≤ limit
    → recent_from n (pos limit) name entries result ≡ take limit (all_from n name entries result)
unfolding recent_from all_from
recent_from-take zero limit name entries result h = sym (take_all limit result h)
recent_from-take (suc i) limit name entries result h =
    elim (Bool-cases (ltb_ℤ (pos (length result)) (pos limit))) [
      | inl below ↦
          let lt : length result < limit = omega (arith, ltb→lt _ _ below) in
          rw below (
            recent_from-take i limit name entries (append_match name (get_elem? entries i) result)
              (omega (arith, append_match-length name (get_elem? entries i) result)))
      | inr full ↦
          let e : limit ≡ length result = omega (arith, ltb_false→le _ _ full) in
          rw full (
            sym (
              ap (take limit) (all_from-backwards (suc i) name entries result)
              ∙ ap (λ k. take k (result ++ backwards (suc i) name entries)) e
              ∙ take-length-append result (backwards (suc i) name entries)))
    ]

-- GetRecent returns the first `limit` of them, and nothing at a negative limit.
oneshot_get_recent_lem :
    (process_name : String) (h : OneshotHistory)
    → ((limit : ℕ) → get_recent process_name (pos limit) h ≡ take limit (get_all process_name h))
      × ((n : ℕ) → get_recent process_name (negsuc n) h ≡ [])
unfolding get_recent get_all recent_from
oneshot_get_recent_lem process_name h = (
  λ limit. recent_from-take (length h.entries) limit process_name h.entries [] (omega arith),
  λ n. nothing (length h.entries) n,
)
  where
    leb_never : (n : ℕ) → ltb_ℤ (pos 0) (negsuc n) ≡ false
    leb_never n = ground arith

    nothing : (rounds n : ℕ) → recent_from rounds (negsuc n) process_name h.entries [] ≡ []
    nothing zero n = refl
    nothing (suc r) n = rw (leb_never n) refl

all_newest : (es : List OneshotExecution) → newest_from (length es) 0 es ≡ reverse es
all_newest es =
    newest_from_lem (length es) 0 es (omega arith)
    ∙ take_all (length es) (reverse es) (omega (arith, length-reverse es))

first_newest :
    (n : ℕ) (es : List OneshotExecution)
    → newest_from (if ltb n (length es) then n else length es) 0 es ≡ take n (reverse es)
first_newest n es = elim (Bool-cases (ltb n (length es))) [
  | inl less ↦ rw less (newest_from_lem n 0 es (omega (arith, ltb→lt _ _ less)))
  | inr more ↦ rw more (
      all_newest es
      ∙ sym (take_all n (reverse es) (omega (arith, length-reverse es, ltb_false→le _ _ more))))
]

-- GetAllProcesses reverses the history. GetRecentAll returns the first `limit` of that, and panics
-- at a negative limit.
get_recent_all_lem :
    (h : OneshotHistory)
    → (get_all_processes h ≡ reverse h.entries)
      × ((limit : ℕ) → get_recent_all (pos limit) h ≡ some (take limit (get_all_processes h)))
      × ((n : ℕ) → get_recent_all (negsuc n) h ≡ none)
unfolding get_recent_all get_all_processes
get_recent_all_lem h =
    let all = all_newest h.entries in
    (all, λ n. ap some (first_newest n h.entries ∙ sym (ap (take n) all)), λ n. refl)
