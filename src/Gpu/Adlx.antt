-- ===== src/Gpu/Adlx.antt =====
-- System_Info/hardware/GPU/AMD/AMDLiveGPUMetrics.cpp: one fetch through ADLX.
use hardware_monitor.Device.{SensorType, add_sensor, clock, fan_speed, temperature, usage}
use hardware_monitor.Floats.{Floats}
use hardware_monitor.Gpu.{Sensors}
use hardware_monitor.Prelude.{
  Bool, Bytes, Option, bytes, false, gtb, if◌then◌else◌, none, not, pos, some, ℤ, ◌&&◌,
}

-- What ADLX answers during one fetch. A test of support is `none` where the call writes no answer,
-- a metric where it fails. Doubles are taken after their conversion to float.
pub record Adlx (F : Type 0) : Type 0 where
  pub metrics_support : Bool
  pub all_metrics : Bool
  pub gpu_metrics : Bool
  pub supports_temperature : Option Bool
  pub gpu_temperature : Option F
  pub supports_hotspot : Option Bool
  pub hotspot_temperature : Option F
  pub supports_clock_speed : Option Bool
  pub clock_speed : Option ℤ
  pub supports_vram_clock_speed : Option Bool
  pub vram_clock_speed : Option ℤ
  pub supports_usage : Option Bool
  pub gpu_usage : Option F
  pub supports_vram : Option Bool
  pub vram_used_mb : Option ℤ
  pub vram_max : Option ℤ
  pub supports_fan_speed : Option Bool
  pub gpu_fan_speed : Option ℤ

module _ (fl : Floats) where
  open fl use {Float, of_int, div, mul, lit}

  -- `supported` and the sensors between two metrics.
  abbrev pub Progress : Type 0
  Progress = Bool × Sensors fl

  abbrev pub keep_or : Bool → Option Bool → Bool
  keep_or old none = old
  keep_or old (some new) = new

  -- A test of support and the metric behind it.
  unfoldable pub add_metric :
      {A : Type 0} → SensorType → Bytes → (A → Float) → Option Bool → Option A → Progress → Progress
  add_metric t name convert test value (supported, sensors) =
      let now = keep_or supported test in
      (
        now,
        if now
            then elim value [ none ↦ sensors | some v ↦ add_sensor t name (convert v) sensors ]
            else sensors,
      )

  abbrev pub or_zero : Option ℤ → ℤ
  or_zero none = pos 0
  or_zero (some n) = n

  unfoldable pub add_vram : Option Bool → ℤ → ℤ → Progress → Progress
  add_vram test vram_used_mb vram_max (supported, sensors) =
      let now = keep_or supported test in
      (
        now,
        if now && gtb vram_max (pos 0)
            then add_sensor usage (bytes "Frame Buffer Utilization")
                (mul (div (of_int vram_used_mb) (of_int vram_max)) (lit 1000 1)) sensors
            else sensors,
      )

  abbrev pub same : Float → Float
  same v = v

  unfoldable pub fetch_supported : Adlx Float → Sensors fl → Progress
  fetch_supported a sensors =
      add_metric fan_speed (bytes "Fan Speed") of_int a.supports_fan_speed a.gpu_fan_speed (
        add_vram a.supports_vram (or_zero a.vram_used_mb) (or_zero a.vram_max) (
          add_metric usage (bytes "GPU Utilization") same a.supports_usage a.gpu_usage (
            add_metric clock (bytes "Memory Clock Speed") of_int a.supports_vram_clock_speed
              a.vram_clock_speed
              (add_metric clock (bytes "Core Clock Speed") of_int a.supports_clock_speed
                a.clock_speed
                (add_metric temperature (bytes "GPU Hotspot Temperature") same a.supports_hotspot
                  a.hotspot_temperature
                  (add_metric temperature (bytes "GPU Edge Temperature") same a.supports_temperature
                    a.gpu_temperature (false, sensors)))))))

  unfoldable pub fetch_adlx_metrics : Adlx Float → Sensors fl → Sensors fl
  fetch_adlx_metrics a sensors =
      if not a.metrics_support
      then sensors
      else if not a.all_metrics
      then sensors
      else if not a.gpu_metrics
      then sensors
      else (fetch_supported a sensors).1
