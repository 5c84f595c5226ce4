-- ===== src/Perf.antt =====
-- user_space_common/PerformanceLogger.h: the timer that the workers and the client share.
use hardware_monitor.Files.{◌//◌, FilePath}
use hardware_monitor.Prelude.{
  sub_ℕ, ℤ, Bytes, List, [], arith, bytes, if◌then◌else◌, list_eq, nat_eq, ℕ, ◌++◌, ◌==◌, ◌∷◌, ◌≡◌,
  ◌≢◌,
}
use hardware_monitor.Device.{sensor_type_eq}

pub record LogLine : Type 0 where
  pub epoch_ms : ℕ
  pub label : Bytes
  -- In the clock's ticks; the file has it in milliseconds. It is negative where another
  -- thread's `start` comes between the reading of the clock and the lock.
  pub duration : ℤ

pub record PerformanceLogger : Type 0 where
  -- The lines behind the header, oldest first.
  pub written : List LogLine
  pub active_label : Bytes
  pub start_time : ℕ

-- `defaultPerfLogPath`
unfoldable pub default_perf_log_path : FilePath → Bytes → FilePath
default_perf_log_path project_root name =
    project_root // bytes "build" // bytes "performance_logs" // (name ++ bytes ".csv")

unfoldable pub start : ℕ → Bytes → PerformanceLogger → PerformanceLogger
start now label p = record p { active_label = label; start_time = now }

-- `end` is read before the lock is taken.
unfoldable pub stop : (end epoch_ms : ℕ) → PerformanceLogger → PerformanceLogger
stop end epoch_ms p = if p.active_label == [] then p else record p {
  written =
      p.written
      ++ record { epoch_ms = epoch_ms; label = p.active_label; duration = sub_ℕ end p.start_time }
        ∷ [];
  active_label = [];
}

-- One timed stretch logs its label and its duration, and leaves no label behind.
pub stop-start :
    (t u epoch : ℕ) (label : Bytes) (p : PerformanceLogger)
    → label ≢ []
    → stop u epoch (start t label p) ≡ record p {
      written = p.written ++ record { epoch_ms = epoch; label = label; duration = sub_ℕ u t } ∷ [];
      active_label = [];
      start_time = t;
    }
unfolding stop start
stop-start t u epoch label p n = ground arith

-- Two stretches of different threads that overlap leave one line: the second start takes the first
-- one's place, and the second stop finds no label.
pub overlap_loses_line :
    (t t' u u' epoch epoch' : ℕ) (a b : Bytes) (p : PerformanceLogger)
    → b ≢ []
    → stop u' epoch' (stop u epoch (start t' b (start t a p))) ≡ record p {
      written = p.written ++ record { epoch_ms = epoch; label = b; duration = sub_ℕ u t' } ∷ [];
      active_label = [];
      start_time = t';
    }
unfolding stop start
overlap_loses_line t t' u u' epoch epoch' a b p n = ground arith
