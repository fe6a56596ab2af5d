-- ===== src/Logger.antt =====
-- include/Logger.hpp: the queue of log items, and the worker that writes them. Times are in
-- nanoseconds; `local_time` is `localtime_r` with `put_time`.
pub mod Flush
mod Tests
use exchange_server.Prelude.{
  ℕ, zero, suc, ◌+◌, ◌/◌, ◌%◌, Bool, true, false, ◌||◌, List, [], ◌∷◌, ◌++◌, length, ltb,
  if◌then◌else◌,
}
use exchange_server.Prelude.Names.{Name}
use exchange_server.Prelude.Texts.{codes}
use exchange_server.Prelude.Bytes.{take, drop}

pub data LogLevel : Type 0 where
  debug info warn error : LogLevel

pub record LogItem : Type 0 where
  pub level : LogLevel
  pub msg : Name
  pub timestamp : ℕ

-- The lines written to the standard output, and those in the file.
pub record Logger : Type 0 where
  pub queue : List LogItem
  pub running : Bool
  pub is_open : Bool
  pub console : List Name
  pub file : List Name

abbrev pub batch_size : ℕ
batch_size = 500

abbrev pub level_str : LogLevel → Name
level_str debug = codes "[DEBUG]"
level_str info = codes "[INFO ]"
level_str warn = codes "[WARN ]"
level_str error = codes "[ERROR]"

-- `setfill('0') << setw(3)` for a number below 1000
abbrev pub three_digits : ℕ → Name
three_digits n = (48 + n / 100) ∷ (48 + n / 10 % 10) ∷ (48 + n % 10) ∷ []

module _ (local_time : ℕ → Name) where
  abbrev pub line : LogItem → Name
  line item =
      local_time (item.timestamp / 1000000000)
      ++ codes "."
      ++ three_digits (item.timestamp / 1000000 % 1000)
      ++ codes " "
      ++ level_str item.level
      ++ codes " "
      ++ item.msg
      ++ codes "\n"

  abbrev pub write_to_sink : LogItem → Logger → Logger
  write_to_sink item l = record l {
    console = l.console ++ line item ∷ [];
    file = if l.is_open then l.file ++ line item ∷ [] else l.file;
  }

  pub write_all : List LogItem → Logger → Logger
  write_all [] l = l
  write_all (item ∷ items) l = write_all items (write_to_sink item l)

  -- One round of the worker; where the queue is empty it sleeps, and nothing changes.
  abbrev pub round : Logger → Logger
  round l = write_all (take batch_size l.queue) (record l { queue = drop batch_size l.queue })

  -- `while (running_ || queue_.size_approx() > 0)`, for so many rounds at most.
  pub process_logs : ℕ → Logger → Logger
  process_logs zero l = l
  process_logs (suc rounds) l = elim (l.running || ltb 0 (length l.queue)) [
    | true ↦ process_logs rounds (round l)
    | false ↦ l
  ]

  -- The destructor: no more items, the worker is joined, the file is closed.
  pub shut_down : ℕ → Logger → Logger
  shut_down rounds l = record (process_logs rounds (record l { running = false })) {
    is_open = false;
  }

-- `opened` says whether the file could be opened.
pub init : Bool → Logger → Logger
init opened l =
    if l.running then l else if opened then record l { running = true; is_open = true } else l

pub log : LogLevel → Name → ℕ → Logger → Logger
log level msg now l =
    if l.running
    then record l { queue = l.queue ++ record { level = level; msg = msg; timestamp = now } ∷ [] }
    else l
