-- ===== src/Tests/Machines.antt =====
-- Witnesses of the properties of the driver client and the sensors.
use hardware_monitor.Logging.{
  userland, other, session, FileLogger, LogLevel, debug, default_log_path, error, fatal, info,
  trace, warning,
}
use hardware_monitor.Logging.Kept.{Message}
use hardware_monitor.Cpu.{fetch_entries}
use hardware_monitor.Cpu.Readings.{last_reading, value_of-fetch_entries}
use hardware_monitor.Device.{DeviceSensor, power, temperature}
use hardware_monitor.Device.Sensors.{value_of}
use hardware_monitor.Driver.{
  CpuData, DriverClient, Machine, cpu_vendor_intel, failure, looping, metric_temp, more_data,
  other_error, returned, run_driver, success,
}
use hardware_monitor.Driver.Protocol.{
  Delivers, Returns, run_driver_hangs, run_driver-Returns, run_driver_sound,
}
use hardware_monitor.Floats.{Floats}
use hardware_monitor.Perf.{PerformanceLogger, overlap_loses_line, start, stop}
use hardware_monitor.Prelude.{
  List, [], bytes, leb, ltb, none, refl, some, sub_ℕ, suc, true, zero, ℕ, ◌++◌, ◌∷◌, ◌≡◌, ◌⊎◌,
}

abbrev pub floats : Floats
floats = record {
  Float = ℕ;
  of_nat = λ n. n;
  of_int = λ i. 0;
  div = λ a b. a;
  mul = λ a b. a;
  lt = ltb;
  le = leb;
  lit = λ digits behind. digits;
}

abbrev core : CpuData
core = record { value = 41; name = bytes "core"; type = metric_temp; unit = 0; cpu_id = 0 }

-- Fails for a small buffer once, and then succeeds.
abbrev machine : Machine
machine = record {
  vendor = bytes "GenuineIntel";
  opens = λ name. true;
  control = λ n size. elim n [ zero ↦ failure more_data 56 | suc _ ↦ success 56 1 (core ∷ []) ];
  allocates = λ n. true;
}

-- Fails for a small buffer once, and then for another reason.
abbrev broken : Machine
broken = record {
  vendor = bytes "GenuineIntel";
  opens = λ name. true;
  control = λ n size. elim n [ zero ↦ failure more_data 56 | suc _ ↦ failure other_error 0 ];
  allocates = λ n. true;
}

abbrev client : DriverClient
client = record { vendor = cpu_vendor_intel; h_device = true; ret_data = [] }

returned_core : run_driver 2 machine client ≡ returned (core ∷ []) (core ∷ [])
unfolding run_driver
returned_core = refl

run_driver_sound_example :
    ((core ∷ [] ≡ []) × (core ∷ [] ≡ client.ret_data))
    ⊎ (Delivers machine (core ∷ []) × (core ∷ [] ≡ core ∷ []))
run_driver_sound_example = run_driver_sound machine 2 client (core ∷ []) (core ∷ []) returned_core

run_driver-Returns_example : Returns machine (run_driver 2 machine client)
run_driver-Returns_example = run_driver-Returns machine 1 client (λ s. (56, 1, core ∷ [], refl))

run_driver_hangs_example : run_driver 100 broken client ≡ looping
run_driver_hangs_example =
    run_driver_hangs broken 100 client more_data 56 refl refl refl refl refl (λ n s. (0, refl))

value_of-fetch_entries_example :
    value_of temperature (bytes "core") (fetch_entries floats (core ∷ []) [])
    ≡ elim (last_reading floats temperature (bytes "core") (core ∷ [])) [
      | some v ↦ some v
      | none ↦ value_of temperature (bytes "core") []
    ]
value_of-fetch_entries_example =
    value_of-fetch_entries floats temperature (bytes "core") (core ∷ []) []

abbrev sensors : List (DeviceSensor ℕ)
sensors = record { type = power; name = bytes "core"; value = 5 } ∷ []

abbrev logger : PerformanceLogger
logger = record { written = []; active_label = []; start_time = 0 }

overlap_loses_line_example :
    stop 40 0 (stop 30 0 (start 20 (bytes "b") (start 10 (bytes "a") logger))) ≡ record logger {
      written = [] ++ record { epoch_ms = 0; label = bytes "b"; duration = sub_ℕ 30 20 } ∷ [];
      active_label = [];
      start_time = 20;
    }
overlap_loses_line_example =
    overlap_loses_line 10 20 30 40 0 0 (bytes "a") (bytes "b") logger (λ e. cc e)

abbrev level_rank : LogLevel → ℕ
level_rank trace = 1
level_rank debug = 2
level_rank info = 3
level_rank warning = 4
level_rank error = 5
level_rank fatal = 6
level_rank (other n) = n

abbrev messages : List Message
messages =
    record { time = bytes "10:00"; level = debug; category = userland; text = bytes "no" }
    ∷ record { time = bytes "10:01"; level = warning; category = session; text = bytes "yes" }
    ∷ []

abbrev log : FileLogger
log = record { path = default_log_path [] (bytes "lab"); min_level = info; stream = [] }
