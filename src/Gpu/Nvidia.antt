-- ===== src/Gpu/Nvidia.antt =====
-- System_Info/hardware/GPU/NVIDIA: NvidiaLiveGPUMetrics.cpp and NvidiaPool.cpp.
pub mod Temperatures
use hardware_monitor.Device.{add_sensor, clock, fan_speed, temperature, usage}
use hardware_monitor.Floats.{Floats}
use hardware_monitor.Gpu.{Sensors}
use hardware_monitor.Prelude.{
  Bool, Bytes, List, Option, [], bytes, gtb, if◌then◌else◌, length, max, none, not, pos, quot, some,
  ℕ, ℤ, ◌+ℤ◌, ◌∷◌,
}

pub data PublicClock : Type 0 where
  graphics memory processor video : PublicClock
  undefined : ℕ → PublicClock

-- What NVAPI answers during one fetch. The temperatures are those of the sensors that it counts,
-- and the clocks those of the first performance state; both are none where the call fails, since
-- the structures start zeroed. A usage or a frequency is `none` where it is not present.
pub record NvApi : Type 0 where
  pub current_temps : List ℤ
  pub clocks : List PublicClock
  pub frequency : PublicClock → Option ℕ
  pub graphics_percentage : Option ℕ
  pub frame_buffer_percentage : Option ℕ
  pub video_percentage : Option ℕ
  pub tach_reading : Option ℕ

unfoldable pub sum_temps : ℤ → List ℤ → ℤ
sum_temps sum [] = sum
sum_temps sum (t ∷ temps) = sum_temps (sum +ℤ t) temps

-- `none` where the code divides by zero.
unfoldable pub avg_temp : List ℤ → Option ℤ
unfolding sum_temps
avg_temp [] = none
avg_temp (t ∷ temps) = some (quot (sum_temps (pos 0) (t ∷ temps)) (length (t ∷ temps)))

unfoldable pub hotspot_from : ℤ → List ℤ → ℤ
hotspot_from max [] = max
hotspot_from max (t ∷ temps) = hotspot_from (if gtb t max then t else max) temps

unfoldable pub hotspot_temp : List ℤ → ℤ
unfolding hotspot_from
hotspot_temp temps = hotspot_from (pos 0) temps

module _ (fl : Floats) where
  open fl use {Float, of_nat, of_int, mul, lit}

  -- The `switch` on the clock's id.
  unfoldable pub clock_name : PublicClock → Option Bytes
  clock_name graphics = some (bytes "GPU Graphics Clock")
  clock_name memory = some (bytes "GPU Memory Clock")
  clock_name processor = some (bytes "GPU Processor Clock")
  clock_name video = some (bytes "GPU Video Clock")
  clock_name (undefined n) = none

  unfoldable pub add_clock : PublicClock → Option ℕ → Sensors fl → Sensors fl
  add_clock id none sensors = sensors
  add_clock id (some frequency) sensors = elim (clock_name id) [
    | none ↦ sensors
    | some name ↦ add_sensor clock name (mul (of_nat frequency) (lit 1 3)) sensors
  ]

  unfoldable pub add_clocks : List PublicClock → (PublicClock → Option ℕ) → Sensors fl → Sensors fl
  add_clocks [] frequency sensors = sensors
  add_clocks (id ∷ ids) frequency sensors =
      add_clocks ids frequency (add_clock id (frequency id) sensors)

  unfoldable pub add_usage : Bytes → Option ℕ → Sensors fl → Sensors fl
  add_usage name none sensors = sensors
  add_usage name (some percentage) sensors = add_sensor usage name (of_nat percentage) sensors

  abbrev pub fan_or_zero : Option ℕ → ℕ
  fan_or_zero none = 0
  fan_or_zero (some rpm) = rpm

  -- The part of `fetchMetrics` behind the temperatures.
  unfoldable pub fetch_rest : NvApi → Sensors fl → Sensors fl
  fetch_rest n sensors =
      add_sensor fan_speed (bytes "GPU Fan Speed") (of_nat (fan_or_zero n.tach_reading)) (
        add_usage (bytes "GPU Video Engine Utilization") n.video_percentage (
          add_usage (bytes "GPU Frame Buffer Utilization") n.frame_buffer_percentage (
            add_usage (bytes "GPU Graphics Utilization") n.graphics_percentage
              (add_clocks n.clocks n.frequency sensors))))

  -- `none` where the code divides by zero; a handle that is null ends the call at once.
  unfoldable pub fetch_metrics : Bool → NvApi → Sensors fl → Option (Sensors fl)
  fetch_metrics handle n sensors =
      if not handle then some sensors else elim (avg_temp n.current_temps) [
        | none ↦ none
        | some avg ↦ some (
            fetch_rest n (
              add_sensor temperature (bytes "GPU Hotspot Temp")
                (of_int (hotspot_temp n.current_temps))
                (add_sensor temperature (bytes "GPU Avg Temp") (of_int avg) sensors)))
      ]
