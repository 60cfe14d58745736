-- ===== src/Multiline/Entries.antt =====
-- What an entry is.
use phpeek_pm.Prelude.{
  ◌||◌, not, ◌==◌, ℕ, ◌+◌, ◌≤◌, ◌<◌, ◌≡◌, refl, sym, ap, ◌∙◌, subst, arith, Bool, true, false, not,
  ◌&&◌, Bool-cases, inl, inr, ◌⊎◌, List, [], ◌∷◌, ◌++◌, ℤ, pos, pos_part, ◌<ℤ◌, leb_ℤ, ltb, ltb→lt,
  max, length, length-append, All, All-append, String, Option, none, some,
}
use phpeek_pm.Multiline.{
  Event, arrival, time_check, handle, run, should_flush, flush, MultilineBuffer, append_line,
  add_matched, add_from, add,
}
use phpeek_pm.Multiline.Lines.{flush-settings, add_matched-settings}

module _ (matches : String → Bool) where
  -- Only the first line can start an entry.
  abbrev pub IsWhole : List String → Type 0
  IsWhole [] = Unit {0}
  IsWhole (first ∷ lines) = All (λ l. matches l ≡ false) lines

  -- An entry has no start but at its first line, and no more than max_lines lines, but one at least.
  abbrev pub IsEntry : ℤ → List String → Type 0
  IsEntry max_lines e = IsWhole e × (length e ≤ max (pos_part max_lines) 1)

  -- The buffer waits with less than max_lines lines, if with any.
  pub record IsWaiting (mb : MultilineBuffer) : Type 0 where
    pub whole : IsWhole mb.lines
    pub room : (length mb.lines ≡ 0) ⊎ (pos (length mb.lines) <ℤ mb.max_lines)

  abbrev AllEntries : ℤ → Option (List String) → Type 0
  AllEntries max_lines none = Unit {0}
  AllEntries max_lines (some e) = IsEntry max_lines e

  IsWhole-snoc :
      (xs : List String) (line : String)
      → IsWhole xs
      → (xs ≡ []) ⊎ (matches line ≡ false)
      → IsWhole (xs ++ line ∷ [])
  IsWhole-snoc [] line w c = tt
  IsWhole-snoc (x ∷ xs) line w (inl e) = cc
  IsWhole-snoc (x ∷ xs) line w (inr no_start) =
      All-append (λ l. matches l ≡ false) xs (line ∷ []) w (no_start, tt)

  append_line-entries :
      (now : ℕ) (line : String) (mb : MultilineBuffer)
      → IsWaiting mb
      → (mb.lines ≡ []) ⊎ (matches line ≡ false)
      → IsWaiting (append_line now line mb).0 × AllEntries mb.max_lines (append_line now line mb).1
  unfolding append_line
  append_line-entries now line mb w c =
      let longer = length-append mb.lines (line ∷ []) in
      let whole = IsWhole-snoc mb.lines line w.whole c in
      elim (Bool-cases (leb_ℤ mb.max_lines (pos (length (mb.lines ++ line ∷ []))))) [
        | inl full ↦ rw full (
          record { whole = tt; room = inl refl },
          (
            whole,
            fits (length mb.lines) (length (mb.lines ++ line ∷ [])) mb.max_lines longer w.room,
          ),
        )
        | inr room ↦ rw room (record { whole = whole; room = inr (below _ mb.max_lines room) }, tt)
      ]
    where
      fits : (n k : ℕ) (m : ℤ) → k ≡ n + 1 → (n ≡ 0) ⊎ (pos n <ℤ m) → k ≤ max (pos_part m) 1
      fits n k m e r = ground arith

      below : (n : ℕ) (m : ℤ) → leb_ℤ m (pos n) ≡ false → pos n <ℤ m
      below n m h = ground arith

  add_matched-entries :
      (now : ℕ) (line : String) (mb : MultilineBuffer)
      → IsWaiting mb
      → IsWaiting (add_matched now line (matches line) mb).0
        × AllEntries mb.max_lines (add_matched now line (matches line) mb).1
  unfolding add_matched
  add_matched-entries now line mb w = elim (Bool-cases (matches line && ltb 0 (length mb.lines))) [
    | inl starts ↦
        let some_there = ltb→lt 0 (length mb.lines) (second_true (matches line) _ starts) in
        rw starts (
          record { whole = tt; room = inr (two (length mb.lines) mb.max_lines some_there w.room) },
          (w.whole, fits (length mb.lines) mb.max_lines some_there w.room),
        )
    | inr goes_on ↦
        rw goes_on (append_line-entries now line mb w (unstarted mb.lines (matches line) goes_on))
  ]
    where
      second_true : (a b : Bool) → (a && b) ≡ true → b ≡ true
      second_true true b h = h
      second_true false b h = cc

      two : (n : ℕ) (m : ℤ) → 0 < n → (n ≡ 0) ⊎ (pos n <ℤ m) → pos 1 <ℤ m
      two n m p r = ground arith

      fits : (n : ℕ) (m : ℤ) → 0 < n → (n ≡ 0) ⊎ (pos n <ℤ m) → n ≤ max (pos_part m) 1
      fits n m p r = ground arith

      unstarted :
          (xs : List String) (b : Bool) → (b && ltb 0 (length xs)) ≡ false → (xs ≡ []) ⊎ (b ≡ false)
      unstarted [] b h = inl refl
      unstarted (x ∷ xs) true h = absurd (ground arith)
      unstarted (x ∷ xs) false h = inr refl

  flush-entries :
      (mb : MultilineBuffer)
      → IsWaiting mb
      → IsWaiting (flush mb).0 × AllEntries mb.max_lines (flush mb).1
  unfolding flush
  flush-entries mb w = elim (Bool-cases (not mb.enabled || length mb.lines == 0)) [
    | inl nothing ↦ rw nothing (w, tt)
    | inr something ↦ rw something (
      record { whole = tt; room = inl refl },
      (w.whole, fits (length mb.lines) mb.max_lines w.room),
    )
  ]
    where
      fits : (n : ℕ) (m : ℤ) → (n ≡ 0) ⊎ (pos n <ℤ m) → n ≤ max (pos_part m) 1
      fits n m r = ground arith

  -- What one event keeps of the buffer.
  record Handled (mb : MultilineBuffer) (r : MultilineBuffer × Option (List String)) : Type 0 where
    enabled : r.0.enabled ≡ mb.enabled
    start_pattern : r.0.start_pattern ≡ mb.start_pattern
    max_lines : r.0.max_lines ≡ mb.max_lines
    entries : IsWaiting r.0 × AllEntries mb.max_lines r.1

  handle-Handled :
      (event : Event) (mb : MultilineBuffer)
      → mb.enabled ≡ true
      → mb.start_pattern ≡ some matches
      → IsWaiting mb
      → Handled mb (handle event mb)
  unfolding handle add
  handle-Handled (arrival now line) mb on p w =
      let same = add_matched-settings now line (matches line) mb in
      let at : add_from mb.enabled mb.start_pattern now line mb
          ≡ add_matched now line (matches line) mb =
        ap (λ b. add_from b mb.start_pattern now line mb) on
        ∙ ap (λ q. add_from true q now line mb) p in
      subst (Handled mb) (sym at) record {
        enabled = same.0;
        start_pattern = same.1;
        max_lines = same.2;
        entries = add_matched-entries now line mb w;
      }
  handle-Handled (time_check now) mb on p w =
      let same = flush-settings mb in
      elim (Bool-cases (should_flush now mb)) [
        | inl late ↦ rw late record {
          enabled = same.0;
          start_pattern = same.1;
          max_lines = same.2;
          entries = flush-entries mb w;
        }
        | inr early ↦
            rw early
              record { enabled = refl; start_pattern = refl; max_lines = refl; entries = (w, tt) }
      ]

  -- With a start pattern, the entries that come out, whatever lines arrive and however often the time
  -- is checked, have a line that matches it nowhere but at their start, and at most max_lines lines
  -- (one, if that is not positive).
  run-entries :
      (events : List Event) (mb : MultilineBuffer)
      → mb.enabled ≡ true
      → mb.start_pattern ≡ some matches
      → IsWaiting mb
      → All (IsEntry mb.max_lines) (run events mb).1
  unfolding run
  run-entries [] mb on p w = tt
  run-entries (event ∷ events) mb on p w =
      let (handled, entry) = handle event mb in
      let h = handle-Handled event mb on p w in
      let (waiting, whole) = h.entries in
      let rest = run-entries events handled (h.enabled ∙ on) (h.start_pattern ∙ p) waiting in
      both entry (run events handled).1 whole
        (subst (λ m. All (IsEntry m) (run events handled).1) h.max_lines rest)
    where
      both :
          (entry : Option (List String)) (entries : List (List String))
          → AllEntries mb.max_lines entry
          → All (IsEntry mb.max_lines) entries
          → All (IsEntry mb.max_lines) (elim entry [ none ↦ entries | some e ↦ e ∷ entries ])
      both none entries h rest = rest
      both (some e) entries h rest = (h, rest)
