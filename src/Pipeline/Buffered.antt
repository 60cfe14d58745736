-- ===== src/Pipeline/Buffered.antt =====
-- What the log buffer holds after a sequence of entries.
use phpeek_pm.Prelude.{
  ◌≡◌, refl, sym, ap, ◌∙◌, List, [], ◌∷◌, String, Option, Option-cases, none, some, ℤ, inl, inr,
}
use phpeek_pm.LogBuffer.{LogEntry, LogBuffer, add}
use phpeek_pm.LogBuffer.Refine.{add_list}
use phpeek_pm.Pipeline.{
  Libraries, CompiledPattern, ProcessWriter, redact, redacted, entry_for, process_entry,
}

module _ {Regex : Type 0} (lib : Libraries Regex) where
  -- The calls of processEntry, with the readings of the clock.
  pub process_entries : ProcessWriter Regex → List (ℤ × String) → ProcessWriter Regex
  process_entries pw [] = pw
  process_entries pw ((now, entry) ∷ l) = process_entries (process_entry lib pw now entry) l

  abbrev onto : Option LogEntry → List LogEntry → List LogEntry
  onto none l = l
  onto (some e) l = e ∷ l

  -- The entries that pass the filters, as they are logged.
  pub logged : ProcessWriter Regex → List (ℤ × String) → List LogEntry
  logged pw [] = []
  logged pw ((now, entry) ∷ l) = onto (entry_for lib pw now (redacted lib pw entry)) (logged pw l)

  -- `logged` does not look at the buffer.
  process_entries_lem :
      (pw : ProcessWriter Regex) (b : LogBuffer) (l : List (ℤ × String))
      → process_entries (record pw { log_buffer = b }) l
        ≡ record pw { log_buffer = add_list b (logged pw l) }
  unfolding process_entries logged process_entry add_list
  process_entries_lem pw b [] = refl
  process_entries_lem pw b ((now, entry) ∷ l) =
      elim (Option-cases (entry_for lib pw now (redacted lib pw entry))) [
        | inl dropped ↦ rw (dropped, process_entry) (process_entries_lem pw b l)
        | inr (e, is) ↦ rw (is, process_entry) (process_entries_lem pw (add b e) l)
      ]

  -- The same entries at the same times, but for what the redaction removes.
  abbrev pub SameRedacted :
      List (CompiledPattern Regex) → List (ℤ × String) → List (ℤ × String) → Type 0
  SameRedacted patterns [] [] = Unit {0}
  SameRedacted patterns [] (y ∷ k) = ⊥
  SameRedacted patterns (x ∷ l) [] = ⊥
  SameRedacted patterns (x ∷ l) (y ∷ k) =
      ((x.0 ≡ y.0) × (redact lib patterns x.1 ≡ redact lib patterns y.1))
      × SameRedacted patterns l k

  -- Where redaction is enabled, the log buffer does not depend on what it removes: entries that are the
  -- same when they are redacted leave the same buffer.
  pub process_entries-redacted :
      (pw : ProcessWriter Regex) (patterns : List (CompiledPattern Regex)) (l k : List (ℤ × String))
      → pw.redactor ≡ some patterns
      → SameRedacted patterns l k
      → (process_entries pw l).log_buffer ≡ (process_entries pw k).log_buffer
  unfolding logged
  process_entries-redacted pw patterns l k on same =
      ap (λ w. w.log_buffer) (process_entries_lem pw pw.log_buffer l)
      ∙ ap (add_list pw.log_buffer) (same_logged l k same)
      ∙ sym (ap (λ w. w.log_buffer) (process_entries_lem pw pw.log_buffer k))
    where
      with_patterns : (a : String) → redacted lib pw a ≡ redact lib patterns a
      with_patterns a = rw on refl

      same_logged :
          (l k : List (ℤ × String)) → SameRedacted patterns l k → logged pw l ≡ logged pw k
      same_logged [] [] same = refl
      same_logged [] (y ∷ k) same = absurd same
      same_logged (x ∷ l) [] same = absurd same
      same_logged ((now, a) ∷ l) ((now', b) ∷ k) ((e, r), same) =
          let equal : redacted lib pw a ≡ redacted lib pw b =
            with_patterns a ∙ r ∙ sym (with_patterns b) in
          ap (λ n. onto (entry_for lib pw n (redacted lib pw a)) (logged pw l)) e
          ∙ ap (λ s. onto (entry_for lib pw now' s) (logged pw l)) equal
          ∙ ap (onto (entry_for lib pw now' (redacted lib pw b))) (same_logged l k same)
