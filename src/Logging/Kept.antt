-- ===== src/Logging/Kept.antt =====
-- OPC_UA/FileLogger.cpp: what a run of messages leaves in the log.
use hardware_monitor.Prelude.{
  append-nil, append_assoc, arith, if◌then◌else◌, Bytes, List, [], leb, ℕ, ◌++◌, ◌∷◌, ◌≡◌,
}
use hardware_monitor.Logging.{FileLogger, LogCategory, LogLevel, line_of, write_at}

pub record Message : Type 0 where
  pub time : Bytes
  pub level : LogLevel
  pub category : LogCategory
  pub text : Bytes

module _ (rank : LogLevel → ℕ) where
  abbrev pub write_message : Message → FileLogger → FileLogger
  write_message m l = write_at rank m.time m.level m.category m.text l

  -- Messages one after the other, each write a step under the mutex.
  pub write_all : List Message → FileLogger → FileLogger
  write_all [] l = l
  write_all (m ∷ ms) l = write_all ms (write_message m l)

  -- The lines of the messages whose level is at least `lowest`.
  pub kept_lines : LogLevel → List Message → Bytes
  kept_lines lowest [] = []
  kept_lines lowest (m ∷ ms) =
      let rest = kept_lines lowest ms in
      if leb (rank lowest) (rank m.level)
      then line_of m.time m.level m.category m.text ++ rest
      else rest

  -- A run of messages appends to the log, in their order, one line for each message whose level is
  -- not below the lowest level of the log, and nothing else; the file and the lowest level stay.
  pub write_all-kept_lines :
      (ms : List Message) (l : FileLogger)
      → write_all ms l ≡ record l { stream = l.stream ++ kept_lines l.min_level ms }
  unfolding write_at write_all kept_lines
  write_all-kept_lines [] l = rw (append-nil l.stream)
  write_all-kept_lines (m ∷ ms) l = ground (
    arith,
    write_all-kept_lines ms l,
    write_all-kept_lines ms
        (record l { stream = l.stream ++ line_of m.time m.level m.category m.text }),
    append_assoc l.stream (line_of m.time m.level m.category m.text) (kept_lines l.min_level ms),
  )
