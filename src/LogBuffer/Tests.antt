-- ===== src/LogBuffer/Tests.antt =====
-- The ring buffer at concrete inputs.
use phpeek_pm.Prelude.{◌≡◌, refl, pos, negsuc, List, [], ◌∷◌, some, String}
use phpeek_pm.LogBuffer.{
  LogEntry, zero_entry, LogBuffer, new_log_buffer, add, get_all, size, recent, get_recent, clear,
}
use phpeek_pm.LogBuffer.Refine.{IsValid, new_log_buffer-IsValid, add-IsValid}

runs : Unit {0}
unfolding new_log_buffer add get_all size recent get_recent clear
runs = tt

abbrev line : String → LogEntry
line message = record zero_entry { message = message }

abbrev lines : List LogEntry
lines = line "a" ∷ line "b" ∷ line "c" ∷ []

-- Two slots, three entries.
abbrev small : LogBuffer
small = add (add (add (new_log_buffer (pos 2)) (line "a")) (line "b")) (line "c")

small-IsValid : IsValid small
small-IsValid = add-IsValid _ _ (add-IsValid _ _ (add-IsValid _ _ (new_log_buffer-IsValid (pos 2))))

wrapped :
    (get_all small ≡ line "b" ∷ line "c" ∷ []) × (get_recent small (pos 1) ≡ some (line "c" ∷ []))
unfolding runs
wrapped = (refl, refl)

default_size : (new_log_buffer (negsuc 4)).size ≡ 1000
unfolding runs
default_size = refl
