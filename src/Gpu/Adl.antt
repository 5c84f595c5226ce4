-- ===== src/Gpu/Adl.antt =====
-- System_Info/hardware/GPU/AMD/AMDLiveGPUMetrics.cpp: one fetch through ADL.
pub mod Ranges
pub mod Faults
pub mod Released
use hardware_monitor.Prelude.{
  false, ltb, negsuc, true, ◌++◌, Bool, Bytes, List, Option, [], bytes, gtb, if◌then◌else◌, none,
  pos, some, ℕ, ℤ, ◌&&◌, ◌∷◌,
}
use hardware_monitor.Device.{SensorType, clock, fan_speed, power, temperature, usage, voltage}
use hardware_monitor.Floats.{Floats}
use hardware_monitor.Gpu.{Query, Sensors, add_valid, answered}

pub record Activity : Type 0 where
  pub engine_clock : ℤ
  pub memory_clock : ℤ
  pub activity_percent : ℤ

-- The fields that the code reads of a fan's answer; `is_rpm` is the flag of its type.
pub record FanSpeed : Type 0 where
  pub is_rpm : Bool
  pub rpm : ℤ

-- The sensors of the log that the code names.
pub data LogSensor : Type 0 where
  clk_gfxclk clk_memclk clk_socclk clk_uvdclk1 clk_uvdclk2 : LogSensor
  clk_vceclk clk_vcnclk clk_vcn1clk1 clk_vcn1clk2 clk_fclk clk_cpuclk bus_speed : LogSensor
  temperature_edge temperature_mem temperature_liquid temperature_hotspot : LogSensor
  temperature_gfx temperature_soc temperature_cpu : LogSensor
  temperature_hotspot_gcd temperature_hotspot_mcd : LogSensor
  fan_rpm info_activity_gfx info_activity_mem : LogSensor
  soc_voltage gfx_voltage mem_voltage : LogSensor
  asic_power soc_power gfx_power cpu_power board_power : LogSensor
  sstotal_powerlimit ssapu_powerlimit ssdgpu_powerlimit : LogSensor
  throttle_temp_gfx throttle_temp_mem throttle_temp_vr : LogSensor
  throttle_power throttle_tdc throttle_vmax : LogSensor
  other_sensor : ℤ → LogSensor

pub record LogEntry : Type 0 where
  pub supported : Bool
  pub value : ℤ

-- What ADL answers during one fetch for one adapter: `none` where the function is not there, and
-- `some none` where the call fails.
pub record Adl : Type 0 where
  -- The version that each of the two caps calls gives.
  pub overdrive2_caps : Query ℤ
  pub overdrive_caps : Query ℤ
  pub od5_temperature : Query ℤ
  pub od5_currentactivity : Query Activity
  pub od5_fanspeed : Query ℤ
  pub od6_temperature : Query ℤ
  pub od6_currentstatus : Query Activity
  pub od6_currentpower : Query ℤ
  pub od6_fanspeed : Query FanSpeed
  pub odn_temperature : Query ℤ
  pub odn_performancestatus : Query Activity
  -- Whether all seven functions of the log are there.
  pub pmlog_loaded : Bool
  -- Whether the support call succeeds with a value other than ADL_ERR_NOT_SUPPORTED.
  pub pmlog_supported : Bool
  pub device_create : Bool
  pub sharememory_start : Bool
  pub sensor_list : Option (List LogSensor)
  pub sharememory_read : Option (LogSensor → LogEntry)
  -- The length of the array `data.sensors`, which is greater than every id that the code names.
  pub max_sensors : ℕ

-- The calls that take and give back resources of ADL.
pub data Resource : Type 0 where
  creates destroys starts stops : Resource

-- `od_version` after the two calls, which are made without a test that the functions are there;
-- `none` where one that is called is not.
unfoldable pub od_version : (overdrive2_caps overdrive_caps : Query ℤ) → Option ℤ
od_version none second = none
od_version (some (some version)) second = some version
od_version (some none) none = none
od_version (some none) (some none) = some (pos 0)
od_version (some none) (some (some version)) = some version

-- Whether `data.sensors[sensor_id]` is inside the array.
unfoldable pub is_indexed : (max_sensors : ℕ) → LogSensor → Bool
is_indexed max_sensors (other_sensor (pos n)) = ltb n max_sensors
is_indexed max_sensors (other_sensor (negsuc n)) = false
is_indexed max_sensors _ = true

module _ (fl : Floats) where
  open fl use {Float, of_int, div, mul, lit}

  abbrev pub thousandth : ℤ → Float
  thousandth n = div (of_int n) (lit 10000 1)

  unfoldable pub add_temperature : ℤ → Sensors fl → Sensors fl
  add_temperature milli =
      add_valid fl temperature (bytes "Average Core Temperature") (thousandth milli)

  unfoldable pub add_activity : Activity → Sensors fl → Sensors fl
  add_activity a sensors =
      add_valid fl usage (bytes "Core / Graphics Utilization") (of_int a.activity_percent) (
        add_valid fl clock (bytes "Memory Clock Speed") (mul (of_int a.memory_clock) (lit 1 2)) (
          add_valid fl clock (bytes "Core / Graphics Clock Speed")
            (mul (of_int a.engine_clock) (lit 1 2)) sensors))

  unfoldable pub add_fan : ℤ → Sensors fl → Sensors fl
  add_fan rpm = add_valid fl fan_speed (bytes "Fan Speed") (of_int rpm)

  unfoldable pub add_power : ℤ → Sensors fl → Sensors fl
  add_power mw = add_valid fl power (bytes "GPU Power Draw") (thousandth mw)

  unfoldable pub add_fan_info : FanSpeed → Sensors fl → Sensors fl
  add_fan_info fan sensors = if fan.is_rpm then add_fan fan.rpm sensors else sensors

  unfoldable pub fetch_od5 : Adl → Sensors fl → Sensors fl
  fetch_od5 a sensors = answered a.od5_fanspeed add_fan (
      answered a.od5_currentactivity add_activity
        (answered a.od5_temperature add_temperature sensors))

  unfoldable pub fetch_od6 : Adl → Sensors fl → Sensors fl
  fetch_od6 a sensors = answered a.od6_fanspeed add_fan_info (
      answered a.od6_currentpower add_power (
        answered a.od6_currentstatus add_activity
          (answered a.od6_temperature add_temperature sensors)))

  unfoldable pub fetch_odn : Adl → Sensors fl → Sensors fl
  fetch_odn a sensors =
      answered a.odn_performancestatus add_activity
        (answered a.odn_temperature add_temperature sensors)

  -- The `switch` on the sensor's id.
  unfoldable pub log_sensor : LogSensor → Option (SensorType × Bytes)
  log_sensor clk_gfxclk = some (clock, bytes "Core Clock Speed")
  log_sensor clk_memclk = some (clock, bytes "Memory Clock Speed")
  log_sensor clk_socclk = some (clock, bytes "SoC Clock Speed")
  log_sensor clk_uvdclk1 = some (clock, bytes "UVD Clock 1")
  log_sensor clk_uvdclk2 = some (clock, bytes "UVD Clock 2")
  log_sensor clk_vceclk = some (clock, bytes "VCE Clock Speed")
  log_sensor clk_vcnclk = some (clock, bytes "VCN Clock Speed")
  log_sensor clk_vcn1clk1 = some (clock, bytes "VCN1 Clock 1")
  log_sensor clk_vcn1clk2 = some (clock, bytes "VCN1 Clock 2")
  log_sensor clk_fclk = some (clock, bytes "Fabric Clock Speed")
  log_sensor clk_cpuclk = some (clock, bytes "CPU Clock Speed")
  log_sensor bus_speed = some (clock, bytes "PCIe Bus Speed")
  log_sensor temperature_edge = some (temperature, bytes "GPU Edge Temperature")
  log_sensor temperature_mem = some (temperature, bytes "Memory Temperature")
  log_sensor temperature_liquid = some (temperature, bytes "Liquid Cooling Temperature")
  log_sensor temperature_hotspot = some (temperature, bytes "GPU Hotspot Temperature")
  log_sensor temperature_gfx = some (temperature, bytes "GFX Temperature")
  log_sensor temperature_soc = some (temperature, bytes "SoC Temperature")
  log_sensor temperature_cpu = some (temperature, bytes "CPU Temperature")
  log_sensor temperature_hotspot_gcd = some (temperature, bytes "Hotspot GCD Temperature")
  log_sensor temperature_hotspot_mcd = some (temperature, bytes "Hotspot MCD Temperature")
  log_sensor fan_rpm = some (fan_speed, bytes "Fan Speed")
  log_sensor info_activity_gfx = some (usage, bytes "GPU Utilization")
  log_sensor info_activity_mem = some (usage, bytes "Memory Utilization")
  log_sensor soc_voltage = some (voltage, bytes "SoC Voltage")
  log_sensor gfx_voltage = some (voltage, bytes "GFX Voltage")
  log_sensor mem_voltage = some (voltage, bytes "Memory Voltage")
  log_sensor asic_power = some (power, bytes "ASIC Power")
  log_sensor soc_power = some (power, bytes "SoC Power")
  log_sensor gfx_power = some (power, bytes "GFX Power")
  log_sensor cpu_power = some (power, bytes "CPU Power")
  log_sensor board_power = some (power, bytes "Board Power")
  log_sensor sstotal_powerlimit = some (power, bytes "Total Power Limit")
  log_sensor ssapu_powerlimit = some (power, bytes "APU Power Limit")
  log_sensor ssdgpu_powerlimit = some (power, bytes "dGPU Power Limit")
  log_sensor throttle_temp_gfx = some (usage, bytes "Throttle % (GFX Temp)")
  log_sensor throttle_temp_mem = some (usage, bytes "Throttle % (Mem Temp)")
  log_sensor throttle_temp_vr = some (usage, bytes "Throttle % (VR Temp)")
  log_sensor throttle_power = some (usage, bytes "Throttle % (Power)")
  log_sensor throttle_tdc = some (usage, bytes "Throttle % (TDC)")
  log_sensor throttle_vmax = some (usage, bytes "Throttle % (Vmax)")
  log_sensor (other_sensor n) = none

  unfoldable pub add_entry : LogSensor → LogEntry → Sensors fl → Sensors fl
  add_entry id entry sensors =
      if entry.supported
      then elim (log_sensor id) [
        | none ↦ sensors
        | some (t, name) ↦ add_valid fl t name (of_int entry.value) sensors
      ]
      else sensors

  -- `none` where the code reads outside the array.
  unfoldable pub add_entries :
      (max_sensors : ℕ) → List LogSensor → (LogSensor → LogEntry) → Sensors fl → Option (Sensors fl)
  add_entries max_sensors [] entries sensors = some sensors
  add_entries max_sensors (id ∷ ids) entries sensors =
      let rest = add_entries max_sensors ids entries (add_entry id (entries id) sensors) in
      if is_indexed max_sensors id then rest else none

  -- The two calls inside the started log.
  unfoldable pub read_log :
      (max_sensors : ℕ)
      → Option (List LogSensor)
      → Option (LogSensor → LogEntry)
      → Sensors fl
      → Option (Sensors fl)
  read_log max_sensors none entries sensors = some sensors
  read_log max_sensors (some ids) none sensors = some sensors
  read_log max_sensors (some ids) (some entries) sensors =
      add_entries max_sensors ids entries sensors

  -- `inside` between the start of the log, if it starts, and its stop.
  unfoldable pub with_log :
      (started : Bool)
      → (inside : Sensors fl → Option (Sensors fl)) → Sensors fl
      → Option (Sensors fl × List Resource)
  with_log false inside sensors = some (sensors, [])
  with_log true inside sensors = elim (inside sensors) [
    | none ↦ none
    | some sensors' ↦ some (sensors', starts ∷ stops ∷ [])
  ]

  -- `inside` between the creation of the device, if it is created, and its destruction.
  unfoldable pub with_device :
      (created : Bool)
      → (inside : Sensors fl → Option (Sensors fl × List Resource)) → Sensors fl
      → Option (Sensors fl × List Resource)
  with_device false inside sensors = some (sensors, [])
  with_device true inside sensors = elim (inside sensors) [
    | none ↦ none
    | some (sensors', calls) ↦ some (sensors', creates ∷ (calls ++ destroys ∷ []))
  ]

  -- The last block, with the calls that take and give back resources.
  unfoldable pub fetch_od8 : Adl → (version : ℤ) → Sensors fl → Option (Sensors fl × List Resource)
  fetch_od8 a version sensors =
      if gtb version (pos 7) && (a.pmlog_loaded && a.pmlog_supported)
      then with_device a.device_create
          (with_log a.sharememory_start (read_log a.max_sensors a.sensor_list a.sharememory_read))
          sensors
      else some (sensors, [])

  -- `none` where the code calls a function that is not there, or reads outside the array.
  unfoldable pub fetch_adl_metrics : Adl → Sensors fl → Option (Sensors fl × List Resource)
  fetch_adl_metrics a sensors = elim (od_version a.overdrive2_caps a.overdrive_caps) [
    | none ↦ none
    | some version ↦ fetch_od8 a version (fetch_odn a (fetch_od6 a (fetch_od5 a sensors)))
  ]
