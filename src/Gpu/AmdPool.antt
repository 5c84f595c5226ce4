-- ===== src/Gpu/AmdPool.antt =====
-- System_Info/hardware/GPU/AMD/AMDPool.cpp: the cards found by ADL or else by ADLX.
pub mod Buses
use hardware_monitor.Gpu.{Query}
use hardware_monitor.Device.{HardwareDevice, amd, gpu, sensor_type_eq}
use hardware_monitor.Floats.{Floats}
use hardware_monitor.Gpu.Adl.{Adl, fetch_adl_metrics}
use hardware_monitor.Gpu.Adlx.{Adlx, fetch_adlx_metrics}
use hardware_monitor.Prelude.{
  Bool, Bytes, List, Option, [], bytes, false, gtb, if◌then◌else◌, list_eq, map, nat_eq, none, not,
  pos, some, true, ℕ, ℤ, ◌++◌, ◌+◌, ◌==◌, ◌∷◌,
}

pub data Backend : Type 0 where
  adl adlx : Backend

pub record AdapterInfo : Type 0 where
  pub bus_number : ℕ
  pub adapter_name : Bytes

-- What the two libraries answer while the pool looks for cards. A `Float` stands for the type of
-- the values; the metrics of an adapter, or of a card of ADLX, are answered as in a fetch.
pub record AmdLibraries (F : Type 0) : Type 0 where
  -- Whether loading and initialising does not throw.
  pub adl_init : Bool
  -- These two calls and the next one are made without a test that their functions are there.
  pub number_of_adapters : Query ℤ
  pub adapter_info : Query (List AdapterInfo)
  pub adapter_active_loaded : Bool
  -- By the adapter's index; `none` where the call fails.
  pub adapter_active : ℕ → Option Bool
  pub adl_metrics : ℕ → Adl
  pub adlx_init : Bool
  -- The list of cards, `none` where it is not there; an element is `none` where it cannot be read,
  -- else its name, if there is one, and its metrics.
  pub gpus : Option (List (Option (Option Bytes × Adlx F)))

-- AMDLiveGPUMetrics. `adapter` is the index for ADL, and the place in the list for ADLX.
pub record AmdDevice (F : Type 0) : Type 0 where
  pub backend : Backend
  pub adapter : ℕ
  pub device : HardwareDevice F

pub record AmdPool (F : Type 0) : Type 0 where
  pub has_adl : Bool
  pub has_adlx : Bool
  pub devices : List (AmdDevice F)

-- `std::find(…) != end()`
abbrev pub is_seen : ℕ → List ℕ → Bool
is_seen bus [] = false
is_seen bus (b ∷ buses) = if b == bus then true else is_seen bus buses

-- The count stays 0 where the call fails.
abbrev pub count_or_zero : Option ℤ → ℤ
count_or_zero none = pos 0
count_or_zero (some adapter_cnt) = adapter_cnt

abbrev pub is_active : Option Bool → Bool
is_active none = false
is_active (some active) = active

-- The loop of `enumerateADL`: index and name of each adapter that becomes a device.
unfoldable pub select : (ℕ → Option Bool) → ℕ → List AdapterInfo → List ℕ → List (ℕ × AdapterInfo)
select active i [] seen_bus_numbers = []
select active i (info ∷ infos) seen_bus_numbers =
    let skipped = select active (i + 1) infos seen_bus_numbers in
    let taken = select active (i + 1) infos (seen_bus_numbers ++ info.bus_number ∷ []) in
    if not (is_active (active i))
    then skipped
    else if is_seen info.bus_number seen_bus_numbers
    then skipped
    else (i, info) ∷ taken

module _ (fl : Floats) where
  open fl use {Float}

  -- The two constructors of AMDLiveGPUMetrics, each followed by a fetch; `none` where the fetch
  -- through ADL faults.
  unfoldable pub adl_device : AmdLibraries Float → ℕ × AdapterInfo → Option (AmdDevice Float)
  adl_device l (i, info) = elim (fetch_adl_metrics fl (l.adl_metrics i) []) [
    | none ↦ none
    | some (sensors, calls) ↦ some (record {
      backend = adl;
      adapter = i;
      device = record {
        vendor = amd;
        hw_type = gpu;
        name = info.adapter_name;
        dev_sensors = sensors;
      };
    })
  ]

  unfoldable pub adl_devices :
      AmdLibraries Float → List (ℕ × AdapterInfo) → Option (List (AmdDevice Float))
  adl_devices l [] = some []
  adl_devices l (adapter ∷ adapters) = elim (adl_device l adapter) [
    | none ↦ none
    | some first ↦ elim (adl_devices l adapters) [ none ↦ none | some rest ↦ some (first ∷ rest) ]
  ]

  unfoldable pub adlx_device : ℕ → Option Bytes → Adlx Float → AmdDevice Float
  adlx_device i gpu_name metrics = record {
    backend = adlx;
    adapter = i;
    device = record {
      vendor = amd;
      hw_type = gpu;
      name = elim gpu_name [ none ↦ bytes "AMD GPU" | some name ↦ name ];
      dev_sensors = fetch_adlx_metrics fl metrics [];
    };
  }

  -- From the answer to the query of the adapters on, of which there is at least one.
  unfoldable pub register_adapters :
      AmdLibraries Float → Option (List AdapterInfo) → Option (List (AmdDevice Float))
  register_adapters l none = some []
  register_adapters l (some infos) =
      if not l.adapter_active_loaded
      then none
      else adl_devices l (select l.adapter_active 0 infos [])

  unfoldable pub enumerate_adl : AmdLibraries Float → Option (List (AmdDevice Float))
  enumerate_adl l = elim l.number_of_adapters [
    | none ↦ none
    | some answer ↦
        if not (gtb (count_or_zero answer) (pos 0))
        then some []
        else elim l.adapter_info [ none ↦ none | some info ↦ register_adapters l info ]
  ]

  unfoldable pub adlx_devices :
      ℕ → List (Option (Option Bytes × Adlx Float)) → List (AmdDevice Float)
  adlx_devices i [] = []
  adlx_devices i (none ∷ gpus) = adlx_devices (i + 1) gpus
  adlx_devices i (some (name, metrics) ∷ gpus) =
      adlx_device i name metrics ∷ adlx_devices (i + 1) gpus

  unfoldable pub enumerate_adlx : AmdLibraries Float → List (AmdDevice Float)
  enumerate_adlx l = elim l.gpus [ none ↦ [] | some gpus ↦ adlx_devices 0 gpus ]

  -- `enumerateDevices` of a new pool: an exception of ADL's init leads to ADLX; `none` where a
  -- fetch through ADL faults.
  unfoldable pub enumerate_devices : AmdLibraries Float → Option (AmdPool Float)
  enumerate_devices l =
      if l.adl_init
      then elim (enumerate_adl l) [
        | none ↦ none
        | some found ↦ some (record { has_adl = true; has_adlx = false; devices = found })
      ]
      else if l.adlx_init
      then some (record { has_adl = false; has_adlx = true; devices = enumerate_adlx l })
      else some (record { has_adl = false; has_adlx = false; devices = [] })
