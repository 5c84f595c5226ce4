-- ===== src/Gpu.antt =====
-- System_Info/hardware/GPU: the metrics of graphics cards, their pools and their worker.
pub mod AmdPool
pub mod Dxgi
pub mod Adl
pub mod Adlx
pub mod Nvidia
pub mod NvidiaPool
use hardware_monitor.Device.{
  DeviceSensor, SensorType, add_sensor, clock, fan_speed, memory, power, temperature, usage,
  voltage,
}
use hardware_monitor.Floats.{Floats}
use hardware_monitor.Prelude.{Bool, Bytes, List, Option, if◌then◌else◌, none, some, true, ◌&&◌}

-- A query of a vendor's library: `none` where the function is not there, else its answer, which is
-- `none` where the call fails.
abbrev pub Query : Type 0 → Type 0
Query A = Option (Option A)

-- What an answer is used for.
abbrev pub answered : {A S : Type 0} → Query A → (A → S → S) → S → S
answered none f s = s
answered (some none) f s = s
answered (some (some a)) f s = f a s

module _ (fl : Floats) where
  open fl use {Float, lt, le, lit}

  abbrev pub Sensors : Type 0
  Sensors = List (DeviceSensor Float)

  abbrev above_zero : Float → Float → Bool
  above_zero v limit = lt (lit 0 1) v && lt v limit

  -- The lambdas at the start of fetchADLMetrics, by the sensor type that each is used for.
  unfoldable pub valid_value : SensorType → Float → Bool
  valid_value temperature v = above_zero v (lit 1500 1)
  valid_value clock v = above_zero v (lit 100000 1)
  valid_value usage v = le (lit 0 1) v && le v (lit 1000 1)
  valid_value power v = le (lit 0 1) v && lt v (lit 10000 1)
  valid_value fan_speed v = le (lit 0 1) v && lt v (lit 200000 1)
  valid_value voltage v = le (lit 0 1) v && lt v (lit 30 1)
  valid_value memory v = true

  -- `if (valid…(v)) addSensor<T>(name, v);`
  unfoldable pub add_valid : SensorType → Bytes → Float → Sensors → Sensors
  add_valid t name v sensors = if valid_value t v then add_sensor t name v sensors else sensors
