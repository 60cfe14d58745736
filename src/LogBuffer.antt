-- ===== src/LogBuffer.antt =====
-- internal/logger/log_buffer.go: the ring buffer of recent log entries. The Go mutex makes each
-- method one step. A slice expression is `take` and `drop`; IsValid keeps its bounds in range.
mod Tests
pub mod Refine
pub mod Recent
use phpeek_pm.Prelude.{
  ℕ, zero, suc, ◌+◌, ◌-◌, ◌≤◌, ◌<◌, ◌≡◌, Bool, true, false, List, [], ◌∷◌, ◌++◌, if◌then◌else◌, ℤ,
  pos, negsuc, leb_ℤ, leb, ltb, pos_part, String, length, set, take, drop, replicate, copy, Option,
  none, some,
}

pub record LogEntry : Type 0 where
  pub timestamp : ℤ
  pub process_name : String
  pub instance_id : String
  pub stream : String
  pub message : String
  pub level : String

-- What `make` fills a new slice with.
abbrev pub zero_entry : LogEntry
zero_entry = record {
  timestamp = pos 0;
  process_name = "";
  instance_id = "";
  stream = "";
  message = "";
  level = "";
}

pub record LogBuffer : Type 0 where
  pub entries : List LogEntry
  pub size : ℕ
  pub index : ℕ
  pub full : Bool

unfoldable pub new_log_buffer : ℤ → LogBuffer
new_log_buffer size =
    let n = if leb_ℤ size (pos 0) then 1000 else pos_part size in
    record { entries = replicate n zero_entry; size = n; index = 0; full = false }

unfoldable pub add : LogBuffer → LogEntry → LogBuffer
add lb entry =
    let entries = set lb.entries lb.index entry in
    if leb lb.size (lb.index + 1)
    then record lb { entries = entries; index = 0; full = true }
    else record lb { entries = entries; index = lb.index + 1 }

unfoldable pub get_all : LogBuffer → List LogEntry
get_all lb =
    if lb.full
    then (let result = copy (replicate lb.size zero_entry) (drop lb.index lb.entries) in
        let k = lb.size - lb.index in
        take k result ++ copy (drop k result) (take lb.index lb.entries))
    else copy (replicate lb.index zero_entry) (take lb.index lb.entries)

unfoldable pub size : LogBuffer → ℕ
size lb = if lb.full then lb.size else lb.index

-- The method after `n` has been cut down to the number of entries. `start < 0` cannot hold on ℕ:
-- the source's guard for it never fires, as n is at most the index there.
unfoldable pub recent : LogBuffer → ℕ → List LogEntry
recent lb n =
    if lb.full
    then (if leb n lb.index
        then copy (replicate n zero_entry) (drop (lb.index - n) (take lb.index lb.entries))
        else (let from_end = n - lb.index in
            let result = copy (replicate n zero_entry) (drop (lb.size - from_end) lb.entries) in
            take from_end result ++ copy (drop from_end result) (take lb.index lb.entries)))
    else copy (replicate n zero_entry) (drop (lb.index - n) (take lb.index lb.entries))

-- `none` is the panic of `make` at a negative length.
unfoldable pub get_recent : LogBuffer → ℤ → Option (List LogEntry)
get_recent lb (negsuc n) = none
get_recent lb (pos n) = let count = size lb in some (recent lb (if ltb count n then count else n))

unfoldable pub clear : LogBuffer → LogBuffer
clear lb = record lb { index = 0; full = false }
