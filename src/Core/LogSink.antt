-- ===== src/Core/LogSink.antt =====
-- core/logsink.go: the bounded store of log lines. The time of an entry is an argument.
pub mod History
use multi_threaded_web_serve.Go.Strings.{split, trim_space}
use multi_threaded_web_serve.Base.{
  ℕ, zero, suc, ◌-◌, ◌||◌, true, false, List, [], ◌∷◌, ◌++◌, leb, ltb, ◌==◌, if◌then◌else◌, Bytes,
  is_empty, length, drop, reverse, ℤ, pos, negsuc, not_positive, magnitude,
}

pub record LogEntry : Type 0 where
  pub time : Bytes
  pub message : Bytes

pub record LogStore : Type 0 where
  pub max : ℕ
  pub entries : List LogEntry

unfoldable pub new_log_store : ℤ → LogStore
new_log_store max = record { max = if not_positive max then 200 else magnitude max; entries = [] }

-- `copy(s.entries, s.entries[1:])` and the write of the last entry, where there is one.
unfoldable pub shift : LogEntry → List LogEntry → List LogEntry
shift e [] = []
shift e (first ∷ entries) = entries ++ e ∷ []

unfoldable pub add_entry : LogStore → LogEntry → LogStore
unfolding shift
add_entry s e =
    if leb s.max (length s.entries)
    then record s { entries = shift e s.entries }
    else record s { entries = s.entries ++ e ∷ [] }

unfoldable pub add : LogStore → Bytes → Bytes → LogStore
unfolding add_entry trim_space
add s time message =
    let trimmed = trim_space message in
    if is_empty trimmed then s else add_entry s (record { time = time; message = trimmed })

unfoldable pub snapshot : LogStore → ℤ → List LogEntry
snapshot s limit =
    let n = length s.entries in
    let wanted = (if not_positive limit || ltb n (magnitude limit) then n else magnitude limit) in
    drop (n - wanted) s.entries

-- bytes.TrimRight(p, "\n"), on the bytes in reverse.
unfoldable pub drop_newlines : Bytes → Bytes
drop_newlines [] = []
drop_newlines (b ∷ s) = elim (b == b'\n') [ true ↦ drop_newlines s | false ↦ b ∷ s ]

unfoldable pub add_lines : LogStore → Bytes → List Bytes → LogStore
unfolding add
add_lines s time [] = s
add_lines s time (chunk ∷ chunks) = add_lines (add s time (trim_space chunk)) time chunks

-- `Write` of the log writer.
unfoldable pub write : LogStore → Bytes → Bytes → LogStore
unfolding add_lines drop_newlines split
write s time p = add_lines s time (split b'\n' [] (reverse (drop_newlines (reverse p))))
