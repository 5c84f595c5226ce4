-- ===== src/Cpu.antt =====
-- System_Info/hardware/CPU/CPULiveMetrics.cpp and pipeline_workers/CPUPipelineWorker.cpp: the
-- CPU's device, fed by the driver client.
pub mod Readings
use hardware_monitor.Device.{
  DeviceSensor, HardwareDevice, SensorType, add_sensor, clock, cpu, intel, power, sensor_type_eq,
  snapshot, temperature, usage, voltage,
}
use hardware_monitor.Driver.{
  CpuData, DriverClient, Machine, is_valid, looping, metric_clock_speed, metric_load, metric_power,
  metric_temp, metric_voltage, returned, run_driver, unit_millivolts, unit_milliwatts,
}
use hardware_monitor.Floats.{Floats}
use hardware_monitor.Prelude.{
  Bytes, List, Option, [], bytes, if◌then◌else◌, list_eq, nat_eq, none, some, ℕ, ◌==◌, ◌∷◌,
}
use hardware_monitor.Queue.{ClientQueue, push}

-- `std::string name(entry.name)`: the chars up to the first NUL.
unfoldable pub c_string : Bytes → Bytes
c_string [] = []
c_string (c ∷ s) = if c == 0 then [] else c ∷ c_string s

module _ (fl : Floats) where
  open fl use {Float, of_nat, div, lit}

  -- The constructor of CPULiveMetrics.
  abbrev pub cpu_live_metrics : HardwareDevice Float
  cpu_live_metrics = record { vendor = intel; hw_type = cpu; name = bytes "CPU"; dev_sensors = [] }

  -- The value of an entry: milliwatts and millivolts are scaled to watts and volts.
  unfoldable pub entry_value : CpuData → Float
  entry_value entry =
      if entry.unit == unit_milliwatts
      then div (of_nat entry.value) (lit 1000 0)
      else if entry.unit == unit_millivolts
      then div (of_nat entry.value) (lit 1000 0)
      else of_nat entry.value

  -- The `switch` on `entry.type`; `none` is its default.
  unfoldable pub entry_type : ℕ → Option SensorType
  entry_type t =
      if t == metric_temp
      then some temperature
      else if t == metric_voltage
      then some voltage
      else if t == metric_clock_speed
      then some clock
      else if t == metric_load
      then some usage
      else if t == metric_power
      then some power
      else none

  -- One round of the loop of `fetchMetrics`.
  unfoldable pub fetch_entry : CpuData → List (DeviceSensor Float) → List (DeviceSensor Float)
  fetch_entry entry sensors = elim (entry_type entry.type) [
    | none ↦ sensors
    | some t ↦ add_sensor t (c_string entry.name) (entry_value entry) sensors
  ]

  unfoldable pub fetch_entries :
      List CpuData → List (DeviceSensor Float) → List (DeviceSensor Float)
  unfolding fetch_entry
  fetch_entries [] sensors = sensors
  fetch_entries (entry ∷ entries) sensors = fetch_entries entries (fetch_entry entry sensors)

  pub record CpuPipelineWorker : Type 0 where
    pub driver_client : DriverClient
    pub device : Option (HardwareDevice Float)
    pub queue : ClientQueue Float

  -- `fetchMetrics`, once `runDriver` has returned these entries and stored data.
  abbrev pub fetch_metrics : List CpuData → HardwareDevice Float → HardwareDevice Float
  fetch_metrics entries device = record device {
    dev_sensors = fetch_entries entries device.dev_sensors;
  }

  abbrev pub store_data : List CpuData → DriverClient → DriverClient
  store_data kept c = record c { ret_data = kept }

  -- `initialize` and `execute` on a machine; `none` where `runDriver` is still looping.
  unfoldable pub initialize : ℕ → Machine → CpuPipelineWorker → Option CpuPipelineWorker
  initialize fuel m w =
      if is_valid w.driver_client
      then elim (run_driver fuel m w.driver_client) [
        | looping ↦ none
        | returned entries kept ↦ some (record w {
          driver_client = store_data kept w.driver_client;
          device = some (fetch_metrics entries cpu_live_metrics);
        })
      ]
      else some w

  unfoldable pub execute : ℕ → Machine → CpuPipelineWorker → Option CpuPipelineWorker
  execute fuel m w = elim w.device [
    | none ↦ some w
    | some device ↦ elim (run_driver fuel m w.driver_client) [
      | looping ↦ none
      | returned entries kept ↦
          let device' = fetch_metrics entries device in
          some (record w {
            driver_client = store_data kept w.driver_client;
            device = some device';
            queue = push (snapshot device') w.queue;
          })
    ]
  ]
