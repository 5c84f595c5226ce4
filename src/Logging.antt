-- ===== src/Logging.antt =====
-- OPC_UA/FileLogger.cpp and .h, opcua_logging.cpp: the log files.
pub mod Kept
use hardware_monitor.Files.{◌//◌, FilePath}
use hardware_monitor.Prelude.{Bytes, [], bytes, if◌then◌else◌, ltb, ℕ, ◌++◌, ◌∷◌}

-- opcua::LogLevel and opcua::LogCategory, in their order; `other` is any value that the enum does
-- not name.
pub data LogLevel : Type 0 where
  trace debug info warning error fatal : LogLevel
  other : ℕ → LogLevel

pub data LogCategory : Type 0 where
  network secure_channel session server client userland security_policy : LogCategory
  unnamed : ℕ → LogCategory

unfoldable pub level_to_string : LogLevel → Bytes
level_to_string trace = bytes "trace"
level_to_string debug = bytes "debug"
level_to_string info = bytes "info"
level_to_string warning = bytes "warning"
level_to_string error = bytes "error"
level_to_string fatal = bytes "fatal"
level_to_string (other n) = bytes "unknown"

unfoldable pub category_to_string : LogCategory → Bytes
category_to_string network = bytes "network"
category_to_string secure_channel = bytes "channel"
category_to_string session = bytes "session"
category_to_string server = bytes "server"
category_to_string client = bytes "client"
category_to_string userland = bytes "userland"
category_to_string security_policy = bytes "securitypolicy"
category_to_string (unnamed n) = bytes "unknown"

-- `defaultLogPath`
unfoldable pub default_log_path : FilePath → Bytes → FilePath
default_log_path project_root client_name =
    project_root // bytes "build" // bytes "logs" // (client_name ++ bytes ".log")

pub record FileLogger : Type 0 where
  pub path : FilePath
  pub min_level : LogLevel
  pub stream : Bytes

-- The line of one message, at the time that `timestampNow` prints.
unfoldable pub line_of : Bytes → LogLevel → LogCategory → Bytes → Bytes
unfolding level_to_string category_to_string
line_of timestamp level category msg =
    timestamp
    ++ (bytes " ["
        ++ (level_to_string level
            ++ (bytes "] [" ++ (category_to_string category ++ (bytes "] " ++ (msg ++ 10 ∷ []))))))

-- The line that the server's log gets from `opcua_log::write`, which has no time and no filter.
unfoldable pub session_line : LogLevel → LogCategory → Bytes → Bytes
unfolding level_to_string category_to_string
session_line level category msg =
    bytes "["
    ++ (level_to_string level
        ++ (bytes "] "
            ++ (bytes "[" ++ (category_to_string category ++ (bytes "] " ++ (msg ++ 10 ∷ []))))))

-- `rank` gives the values of the enum's levels, by which `<` compares them.
module _ (rank : LogLevel → ℕ) where
  unfoldable pub write_at : Bytes → LogLevel → LogCategory → Bytes → FileLogger → FileLogger
  unfolding line_of
  write_at timestamp level category msg l =
      if ltb (rank level) (rank l.min_level)
      then l
      else record l { stream = l.stream ++ line_of timestamp level category msg }

  unfoldable pub write : Bytes → Bytes → FileLogger → FileLogger
  unfolding write_at
  write timestamp msg l = write_at timestamp info userland msg l
