-- ===== src/Gpu/Dxgi.antt =====
-- System_Info/hardware/GPU/DxgiHandler.cpp: one pool for each vendor of the adapters.
pub mod Pools
use hardware_monitor.Device.{sensor_type_eq}
use hardware_monitor.Prelude.{
  Bool, List, [], false, if◌then◌else◌, list_eq, ltb, nat_eq, true, ℕ, ◌++◌, ◌==◌, ◌∷◌,
}

pub data AdapterVendor : Type 0 where
  nvidia_card amd_card intel_card unknown_card : AdapterVendor

pub record Adapter : Type 0 where
  -- Whether DXGI_ADAPTER_FLAG_SOFTWARE is set.
  pub software : Bool
  pub vendor_id : ℕ

unfoldable pub vendor_of_id : ℕ → AdapterVendor
vendor_of_id id =
    if id == 0x10DE
    then nvidia_card
    else if id == 0x1002
    then amd_card
    else if id == 0x8086
    then intel_card
    else unknown_card

-- The order of the enum, by which std::set keeps its elements.
abbrev pub order_of : AdapterVendor → ℕ
order_of nvidia_card = 0
order_of amd_card = 1
order_of intel_card = 2
order_of unknown_card = 3

unfoldable pub insert_vendor : AdapterVendor → List AdapterVendor → List AdapterVendor
insert_vendor v [] = v ∷ []
insert_vendor v (w ∷ ws) =
    if order_of v == order_of w
    then w ∷ ws
    else if ltb (order_of v) (order_of w)
    then v ∷ w ∷ ws
    else w ∷ insert_vendor v ws

unfoldable pub enumerate_adapters : List Adapter → List AdapterVendor → List AdapterVendor
enumerate_adapters [] detected_vendors = detected_vendors
enumerate_adapters (a ∷ adapters) detected_vendors = enumerate_adapters adapters (
    if a.software
    then detected_vendors
    else insert_vendor (vendor_of_id a.vendor_id) detected_vendors)

pub data PoolKind : Type 0 where
  amd_pool nvidia_pool : PoolKind

-- The pools made, and whether all could be: `nvapi_init` is false where the constructor of
-- NvidiaPool throws, which ends the loop.
unfoldable pub create_gpu_devices : Bool → List AdapterVendor → List PoolKind → List PoolKind × Bool
create_gpu_devices nvapi_init [] pools = (pools, true)
create_gpu_devices nvapi_init (amd_card ∷ vendors) pools =
    create_gpu_devices nvapi_init vendors (pools ++ amd_pool ∷ [])
create_gpu_devices nvapi_init (nvidia_card ∷ vendors) pools =
    if nvapi_init
    then create_gpu_devices nvapi_init vendors (pools ++ nvidia_pool ∷ [])
    else (pools, false)
create_gpu_devices nvapi_init (intel_card ∷ vendors) pools =
    create_gpu_devices nvapi_init vendors pools
create_gpu_devices nvapi_init (unknown_card ∷ vendors) pools =
    create_gpu_devices nvapi_init vendors pools
