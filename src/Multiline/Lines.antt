-- ===== src/Multiline/Lines.antt =====
-- No line is lost.
use phpeek_pm.Prelude.{
  ℕ, ◌≡◌, refl, sym, ap, ◌∙◌, arith, Bool, true, false, not, ◌&&◌, ◌||◌, if◌then◌else◌, Bool-cases,
  inl, inr, ◌⊎◌, List, [], ◌∷◌, ◌++◌, pos, leb_ℤ, ltb, ◌==◌, length, String, Option, none, some,
  append-nil, append_assoc,
}
use phpeek_pm.Multiline.{
  Event, arrival, time_check, handle, run, should_flush, disabled, MultilineConfig, MultilineBuffer,
  compile_pattern, new_enabled, new_multiline_buffer, append_line, add_matched, add_from, add,
  cleared, flush,
}

-- The lines of an entry that may be missing, of many entries, and of the events.
abbrev pub of_entry : Option (List String) → List String
of_entry none = []
of_entry (some e) = e

abbrev pub of_entries : List (List String) → List String
of_entries [] = []
of_entries (e ∷ es) = e ++ of_entries es

abbrev pub line_of : Event → List String
line_of (arrival now line) = line ∷ []
line_of (time_check now) = []

abbrev pub of_events : List Event → List String
of_events [] = []
of_events (event ∷ events) = line_of event ++ of_events events

append_line-lines :
    (now : ℕ) (line : String) (mb : MultilineBuffer)
    → let (mb', entry) = append_line now line mb in
      of_entry entry ++ mb'.lines ≡ mb.lines ++ line ∷ []
unfolding append_line
append_line-lines now line mb =
    elim (Bool-cases (leb_ℤ mb.max_lines (pos (length (mb.lines ++ line ∷ []))))) [
      | inl full ↦ rw full (append-nil (mb.lines ++ line ∷ []))
      | inr room ↦ rw room refl
    ]

add_matched-lines :
    (now : ℕ) (line : String) (is_start : Bool) (mb : MultilineBuffer)
    → let (mb', entry) = add_matched now line is_start mb in
      of_entry entry ++ mb'.lines ≡ mb.lines ++ line ∷ []
unfolding add_matched
add_matched-lines now line is_start mb = elim (Bool-cases (is_start && ltb 0 (length mb.lines))) [
  | inl starts ↦ rw starts refl
  | inr goes_on ↦ rw goes_on (append_line-lines now line mb)
]

-- Whether lines are put together at all.
abbrev pub can_buffer : Bool → Option (String → Bool) → Bool
can_buffer false pattern = false
can_buffer true none = false
can_buffer true (some matches) = true

-- A buffer that passes its lines on has none of its own.
abbrev pub IsConsistent : MultilineBuffer → Type 0
IsConsistent mb = (can_buffer mb.enabled mb.start_pattern ≡ true) ⊎ (mb.lines ≡ [])

pub append_line-settings :
    (now : ℕ) (line : String) (mb : MultilineBuffer)
    → let mb' = (append_line now line mb).0 in
      (mb'.enabled ≡ mb.enabled)
      × (mb'.start_pattern ≡ mb.start_pattern)
      × (mb'.max_lines ≡ mb.max_lines)
unfolding append_line
append_line-settings now line mb =
    elim (Bool-cases (leb_ℤ mb.max_lines (pos (length (mb.lines ++ line ∷ []))))) [
      | inl full ↦ rw full (refl, refl, refl)
      | inr room ↦ rw room (refl, refl, refl)
    ]

pub add_matched-settings :
    (now : ℕ) (line : String) (is_start : Bool) (mb : MultilineBuffer)
    → let mb' = (add_matched now line is_start mb).0 in
      (mb'.enabled ≡ mb.enabled)
      × (mb'.start_pattern ≡ mb.start_pattern)
      × (mb'.max_lines ≡ mb.max_lines)
unfolding add_matched
add_matched-settings now line is_start mb =
    elim (Bool-cases (is_start && ltb 0 (length mb.lines))) [
      | inl starts ↦ rw starts (refl, refl, refl)
      | inr goes_on ↦ rw goes_on (append_line-settings now line mb)
    ]

pub flush-settings :
    (mb : MultilineBuffer)
    → let mb' = (flush mb).0 in
      (mb'.enabled ≡ mb.enabled)
      × (mb'.start_pattern ≡ mb.start_pattern)
      × (mb'.max_lines ≡ mb.max_lines)
unfolding flush
flush-settings mb = elim (Bool-cases (not mb.enabled || length mb.lines == 0)) [
  | inl nothing ↦ rw nothing (refl, refl, refl)
  | inr something ↦ rw something (refl, refl, refl)
]

-- What comes out, and what is kept, is what was there and the new lines.
record Kept (mb : MultilineBuffer) (lines : List String)
    (r : MultilineBuffer × Option (List String)) : Type 0 where
  all_lines : of_entry r.1 ++ r.0.lines ≡ mb.lines ++ lines
  consistent : IsConsistent r.0

add_from-Kept :
    (enabled : Bool) (pattern : Option (String → Bool)) (now : ℕ) (line : String)
    (mb : MultilineBuffer)
    → mb.enabled ≡ enabled
    → mb.start_pattern ≡ pattern
    → (can_buffer enabled pattern ≡ true) ⊎ (mb.lines ≡ [])
    → Kept mb (line ∷ []) (add_from enabled pattern now line mb)
add_from-Kept false pattern now line mb e p (inl never) = cc
add_from-Kept false pattern now line mb e p (inr empty) = record {
  all_lines = rw empty refl;
  consistent = inr empty;
}
add_from-Kept true none now line mb e p (inl never) = cc
add_from-Kept true none now line mb e p (inr empty) = record {
  all_lines = rw empty refl;
  consistent = inr empty;
}
add_from-Kept true (some matches) now line mb e p c =
    let same = add_matched-settings now line (matches line) mb in
    record {
      all_lines = add_matched-lines now line (matches line) mb;
      consistent = inl (
          ap (λ b. can_buffer b (add_matched now line (matches line) mb).0.start_pattern)
            (same.0 ∙ e)
          ∙ ap (can_buffer true) (same.1 ∙ p));
    }

add-Kept :
    (now : ℕ) (line : String) (mb : MultilineBuffer)
    → IsConsistent mb
    → Kept mb (line ∷ []) (add now line mb)
unfolding add
add-Kept now line mb c = add_from-Kept mb.enabled mb.start_pattern now line mb refl refl c

entries-first :
    (entry : Option (List String)) (entries : List (List String))
    → of_entries (elim entry [ none ↦ entries | some e ↦ e ∷ entries ])
      ≡ of_entry entry ++ of_entries entries
entries-first none entries = refl
entries-first (some e) entries = refl

flush-Kept : (mb : MultilineBuffer) → IsConsistent mb → Kept mb [] (flush mb)
unfolding flush
flush-Kept mb c = elim (Bool-cases (not mb.enabled || length mb.lines == 0)) [
  | inl nothing ↦ rw nothing (record { all_lines = sym (append-nil mb.lines); consistent = c })
  | inr something ↦ rw something (record { all_lines = refl; consistent = inr refl })
]

handle-Kept :
    (event : Event) (mb : MultilineBuffer)
    → IsConsistent mb
    → Kept mb (line_of event) (handle event mb)
unfolding handle
handle-Kept (arrival now line) mb c = add-Kept now line mb c
handle-Kept (time_check now) mb c = elim (Bool-cases (should_flush now mb)) [
  | inl late ↦ rw late (flush-Kept mb c)
  | inr early ↦ rw early (record { all_lines = sym (append-nil mb.lines); consistent = c })
]

-- The lines of the entries, and of what is left, are those that were there and those that arrived.
run-lines :
    (events : List Event) (mb : MultilineBuffer)
    → IsConsistent mb
    → let (last, entries) = run events mb in
      (of_entries entries ++ last.lines ≡ mb.lines ++ of_events events) × IsConsistent last
unfolding run
run-lines [] mb c = (sym (append-nil mb.lines), c)
run-lines (event ∷ events) mb c =
    let (handled, entry) = handle event mb in
    let kept = handle-Kept event mb c in
    let (last, entries) = run events handled in
    let rest = run-lines events handled kept.consistent in
    (
      ap (λ l. l ++ last.lines) (entries-first entry entries)
          ∙ append_assoc (of_entry entry) (of_entries entries) last.lines
          ∙ ap (λ l. of_entry entry ++ l) rest.0
          ∙ sym (append_assoc (of_entry entry) handled.lines (of_events events))
          ∙ ap (λ l. l ++ of_events events) kept.all_lines
          ∙ append_assoc mb.lines (line_of event) (of_events events),
      rest.1,
    )

flush-lines : (mb : MultilineBuffer) → IsConsistent mb → of_entry (flush mb).1 ≡ mb.lines
unfolding flush
flush-lines mb (inr empty) = elim (Bool-cases (not mb.enabled || length mb.lines == 0)) [
  | inl nothing ↦ rw nothing (sym empty)
  | inr something ↦ rw something refl
]
flush-lines mb (inl buffers) = by_case mb.enabled mb.start_pattern mb.lines buffers
  where
    by_case :
        (enabled : Bool) (pattern : Option (String → Bool)) (lines : List String)
        → can_buffer enabled pattern ≡ true
        → let r : MultilineBuffer × Option (List String) =
            if not enabled || length lines == 0 then (mb, none) else (cleared mb, some lines) in
          of_entry r.1 ≡ lines
    by_case false pattern lines h = cc
    by_case true pattern [] h = refl
    by_case true pattern (x ∷ xs) h =
        let e : (length (x ∷ xs) == 0) ≡ false = ground arith in rw e refl

some_inj : {A : Type 0} {a b : A} → some a ≡ some b → a ≡ b
some_inj h = cc

-- What NewMultilineBuffer returns has no lines.
new_multiline_buffer_empty :
    (compile : String → Option (String → Bool)) (cfg : Option MultilineConfig)
    (mb : MultilineBuffer)
    → new_multiline_buffer compile cfg ≡ some mb
    → (mb.lines ≡ [])
unfolding new_multiline_buffer
new_multiline_buffer_empty compile none mb h = ap (λ b. b.lines) (sym (some_inj h))
new_multiline_buffer_empty compile (some cfg) mb h =
    made cfg.enabled (compile_pattern compile cfg.pattern) h
  where
    made :
        (enabled : Bool) (pattern : Option (Option (String → Bool)))
        → (if not enabled
            then some disabled
            else elim pattern [ none ↦ none | some p ↦ some (new_enabled cfg p) ])
          ≡ some mb
        → mb.lines ≡ []
    made false pattern h = ap (λ b. b.lines) (sym (some_inj h))
    made true none h = cc
    made true (some p) h = ap (λ b. b.lines) (sym (some_inj h))

-- Whatever lines arrive at a buffer of NewMultilineBuffer, and however often its time is checked, the
-- entries that come out of it and then out of Flush are, put together, the lines that arrived in
-- their order.
pub run-of_events :
    (compile : String → Option (String → Bool)) (cfg : Option MultilineConfig)
    (mb : MultilineBuffer) (events : List Event)
    → new_multiline_buffer compile cfg ≡ some mb
    → let (last, entries) = run events mb in
      of_entries entries ++ of_entry (flush last).1 ≡ of_events events
run-of_events compile cfg mb events h =
    let (last, entries) = run events mb in
    let empty = new_multiline_buffer_empty compile cfg mb h in
    let (all_lines, consistent) = run-lines events mb (inr empty) in
    ap (λ l. of_entries entries ++ l) (flush-lines last consistent)
    ∙ all_lines
    ∙ ap (λ l. l ++ of_events events) empty
