-- ===== src/Config/Names.antt =====
-- The names of processes in environment variables.
use phpeek_pm.Prelude.{
  ℕ, ◌≡◌, refl, sym, ap, ◌∙◌, arith, false, Bool-cases, false_ne_true, inl, inr, [], ◌∷◌, some,
}
use phpeek_pm.Config.Override.{
  Text, text_eq, upper_byte, to_upper, replace_all, Value, Entries, no_entries, entry, get,
  decode_process_name,
}
use phpeek_pm.Config.Nested.{text_eq_iff, text_eq_refl}

-- How a name is written in a variable.
abbrev encoding : Text → Text
encoding name = to_upper (replace_all 45 95 name)

upper_byte_idem : (c : ℕ) → upper_byte (upper_byte c) ≡ upper_byte c
upper_byte_idem c = ground arith

to_upper_idem : (s : Text) → to_upper (to_upper s) ≡ to_upper s
to_upper_idem [] = refl
to_upper_idem (c ∷ s) = cc (upper_byte_idem c, to_upper_idem s)

-- A process whose encoding is another one has another name.
differ :
    (other name n : Text)
    → text_eq (encoding other) (to_upper (encoding name)) ≡ false
    → encoding n ≡ encoding name
    → text_eq other n ≡ false
differ other name n apart same = elim (Bool-cases (text_eq other n)) [
  | inr other_name ↦ other_name
  | inl one_name ↦
      let e : encoding other ≡ to_upper (encoding name) =
        ap encoding ((text_eq_iff other n).0 one_name)
        ∙ same
        ∙ sym (to_upper_idem (replace_all 45 95 name)) in
      absurd (false_ne_true (sym apart ∙ (text_eq_iff _ _).1 e))
]

-- Written in a variable and read back, the name of a process of the configuration is the same again, if no
-- other process has the same encoding.
decode_process_name_lem :
    (name : Text) (v : Value) (processes : Entries)
    → get name processes ≡ some v
    → ((other : Text) (w : Value)
        → get other processes ≡ some w
        → encoding other ≡ encoding name
        → other ≡ name)
    → decode_process_name processes (encoding name) ≡ name
unfolding decode_process_name get
decode_process_name_lem name v no_entries found unique = cc
decode_process_name_lem name v (entry other w processes) found unique =
    elim (Bool-cases (text_eq (encoding other) (to_upper (encoding name)))) [
      | inl same ↦ rw same (
          unique other w (rw (text_eq_refl other) refl)
            ((text_eq_iff _ _).0 same ∙ to_upper_idem (replace_all 45 95 name)))
      | inr apart ↦ rw apart (
          decode_process_name_lem name v processes (rw (differ other name name apart refl) at found)
            (λ third u there same.
              unique third u (rw (differ other name third apart same) there) same))
    ]
