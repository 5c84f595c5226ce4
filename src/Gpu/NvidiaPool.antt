-- ===== src/Gpu/NvidiaPool.antt =====
-- System_Info/hardware/GPU/NVIDIA/NvidiaPool.cpp: the cards found by NVAPI.
pub mod Divides
use hardware_monitor.Device.{HardwareDevice, gpu, nvidia}
use hardware_monitor.Floats.{Floats}
use hardware_monitor.Gpu.Nvidia.{fetch_metrics, NvApi}
use hardware_monitor.Prelude.{
  Bool, Bytes, List, Option, [], bytes, none, some, suc, zero, ℕ, ◌++◌, ◌+◌, ◌∷◌,
}

-- What NVAPI answers while the pool looks for cards; a card is named by its place in the array.
pub record NvLibrary : Type 0 where
  pub gpu_cnt : ℕ
  -- Whether the handle is not null.
  pub handle : ℕ → Bool
  -- `none` where `NvAPI_GPU_GetFullName` fails.
  pub full_name : ℕ → Option Bytes
  pub metrics : ℕ → NvApi

unfoldable pub device_name : Option Bytes → Bytes
device_name none = bytes "NVIDIA GPU"
device_name (some gpu_name) = bytes "NVIDIA " ++ gpu_name

module _ (fl : Floats) where
  open fl use {Float}

  -- The constructor of NvidiaLiveGPUMetrics, followed by a fetch; `none` where that divides by zero.
  unfoldable pub nvidia_device : NvLibrary → ℕ → Option (HardwareDevice Float)
  unfolding device_name
  nvidia_device l i = elim (fetch_metrics fl (l.handle i) (l.metrics i) []) [
    | none ↦ none
    | some sensors ↦ some (record {
      vendor = nvidia;
      hw_type = gpu;
      name = device_name (l.full_name i);
      dev_sensors = sensors;
    })
  ]

  -- The loop of `enumerateDevices`, with `left` cards to go from card `i` on.
  unfoldable pub enumerate_from :
      NvLibrary → (left i : ℕ) → List (HardwareDevice Float) → Option (List (HardwareDevice Float))
  unfolding nvidia_device
  enumerate_from l zero i devices = some devices
  enumerate_from l (suc left) i devices = elim (nvidia_device l i) [
    | none ↦ none
    | some dev ↦ enumerate_from l left (i + 1) (devices ++ dev ∷ [])
  ]

  unfoldable pub enumerate_devices :
      NvLibrary → List (HardwareDevice Float) → Option (List (HardwareDevice Float))
  unfolding enumerate_from
  enumerate_devices l devices = enumerate_from l l.gpu_cnt 0 devices
