-- ===== src/Tests/Cards.antt =====
-- Witnesses of the properties of graphics cards and workers: an AMD card on two adapters.
use hardware_monitor.Gpu.NvidiaPool.{NvLibrary}
use hardware_monitor.Gpu.NvidiaPool.Divides.{IsBlind, enumerate_devices-none_iff}
use hardware_monitor.Prelude.{
  ◌⊎◌, ◌<◌, Bool, List, Option, [], bytes, false, if◌then◌else◌, negsuc, none, not, pos, some, true,
  ℕ, ℤ, ◌&&◌, ◌++◌, ◌↔◌, ◌∷◌, ◌≡◌,
}
use hardware_monitor.Gpu.NvidiaPool
use hardware_monitor.Device.{HardwareDevice, amd, gpu, power}
use hardware_monitor.Gpu.{Sensors}
use hardware_monitor.Gpu.Adl.{Activity, Adl, Resource, clk_gfxclk, fetch_adl_metrics, other_sensor}
use hardware_monitor.Gpu.Adl.Ranges.{InRange}
use hardware_monitor.Gpu.Adl.Faults.{LacksCaps, ReadsOutside}
use hardware_monitor.Gpu.Adl.Released.{fetch_adl_metrics_lem, open_after}
use hardware_monitor.Gpu.AmdPool.{AdapterInfo, is_seen, select}
use hardware_monitor.Gpu.AmdPool.Buses.{HasActive, NoRepeat, buses, select-NoRepeat_iff}
use hardware_monitor.Gpu.Dxgi.{
  Adapter, amd_card, amd_pool, create_gpu_devices, enumerate_adapters, nvidia_card, nvidia_pool,
}
use hardware_monitor.Gpu.Dxgi.Pools.{create-enumerate, has_card, one_if}
use hardware_monitor.Workers.{GpuPipelineWorker}
use hardware_monitor.Workers.Polling.{Command, starts_polling, stops_polling}
use hardware_monitor.Tests.Machines.{floats}

abbrev load : Activity
load = record { engine_clock = pos 120000; memory_clock = negsuc 4; activity_percent = pos 30 }

abbrev answers : Adl
answers = record {
  overdrive2_caps = some none;
  overdrive_caps = some (some (pos 8));
  od5_temperature = some (some (pos 41000));
  od5_currentactivity = some none;
  od5_fanspeed = none;
  od6_temperature = some (some (pos 500000));
  od6_currentstatus = some (some load);
  od6_currentpower = some (some (pos 90000));
  od6_fanspeed = some (some (record { is_rpm = true; rpm = pos 1200 }));
  odn_temperature = none;
  odn_performancestatus = none;
  pmlog_loaded = true;
  pmlog_supported = true;
  device_create = true;
  sharememory_start = true;
  sensor_list = some (clk_gfxclk ∷ other_sensor (pos 9) ∷ []);
  sharememory_read = some (λ id. record { supported = true; value = pos 1500 });
  max_sensors = 256;
}

fetch_adl_metrics_lem_example :
    ((fetch_adl_metrics floats answers [] ≡ none)
      ↔ (LacksCaps floats answers ⊎ ReadsOutside floats answers))
    × ((ss' : Sensors floats) (calls : List Resource)
        → fetch_adl_metrics floats answers [] ≡ some (ss', calls)
        → InRange floats ss' × (open_after floats calls (0, 0) ≡ some (0, 0)))
fetch_adl_metrics_lem_example = fetch_adl_metrics_lem floats answers [] tt

abbrev temps : List ℤ
temps = pos 40 ∷ negsuc 3 ∷ pos 70 ∷ []

abbrev infos : List AdapterInfo
infos =
    record { bus_number = 3; adapter_name = bytes "first" }
    ∷ record { bus_number = 3; adapter_name = bytes "second" }
    ∷ []

abbrev active : ℕ → Option Bool
active i = some true

select-NoRepeat_iff_example :
    NoRepeat (buses (select active 0 infos []))
    × ((b : ℕ) → (is_seen b (buses (select active 0 infos [])) ≡ true) ↔ HasActive b active 0 infos)
select-NoRepeat_iff_example = select-NoRepeat_iff active infos

abbrev adapters : List Adapter
adapters =
    record { software = true; vendor_id = 0x10DE }
    ∷ record { software = false; vendor_id = 0x1002 }
    ∷ record { software = false; vendor_id = 0x1002 }
    ∷ []

create-enumerate_example : create_gpu_devices false (enumerate_adapters adapters []) [] ≡ (
    if has_card nvidia_card adapters && not false then ([], false) else (
      one_if (has_card nvidia_card adapters) nvidia_pool
          ++ one_if (has_card amd_card adapters) amd_pool,
      true,
    ))
create-enumerate_example = create-enumerate false adapters

abbrev device : HardwareDevice ℕ
device = record { vendor = amd; hw_type = gpu; name = bytes "card"; dev_sensors = [] }

abbrev fetch : HardwareDevice ℕ → HardwareDevice ℕ
fetch d = record d { dev_sensors = record { type = power; name = bytes "load"; value = 3 } ∷ [] }

abbrev worker : GpuPipelineWorker ℕ
worker = record { devices = device ∷ []; queue = record { queue = []; shutting_down = false } }

abbrev commands : List Command
commands = starts_polling ∷ starts_polling ∷ stops_polling ∷ starts_polling ∷ []

abbrev blind_card : NvLibrary
blind_card = record {
  gpu_cnt = 1;
  handle = λ i. true;
  full_name = λ i. some (bytes "RTX");
  metrics = λ i. record {
    current_temps = [];
    clocks = [];
    frequency = λ c. none;
    graphics_percentage = some 40;
    frame_buffer_percentage = none;
    video_percentage = none;
    tach_reading = some 900;
  };
}

enumerate_devices-none_iff_example :
    (NvidiaPool.enumerate_devices floats blind_card [] ≡ none)
    ↔ ((k : ℕ) × (k < blind_card.gpu_cnt) × IsBlind floats blind_card k)
enumerate_devices-none_iff_example = enumerate_devices-none_iff floats blind_card []
