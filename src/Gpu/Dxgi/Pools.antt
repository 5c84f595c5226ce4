-- ===== src/Gpu/Dxgi/Pools.antt =====
-- System_Info/hardware/GPU/DxgiHandler.cpp: which pools are made.
use hardware_monitor.Gpu.Dxgi.{
  PoolKind, amd_pool, create_gpu_devices, nvidia_pool, Adapter, AdapterVendor, amd_card,
  enumerate_adapters, insert_vendor, intel_card, nvidia_card, order_of, unknown_card, vendor_of_id,
}
use hardware_monitor.Prelude.{
  Bool-cases, inl, inr, true, Bool, List, [], arith, false, if◌then◌else◌, list_eq, nat_eq, not,
  refl, ◌&&◌, ◌++◌, ◌==◌, ◌||◌, ◌∷◌, ◌≡◌,
}
use hardware_monitor.Device.{sensor_type_eq}

-- Some hardware adapter is of this vendor.
abbrev pub has_card : AdapterVendor → List Adapter → Bool
has_card v [] = false
has_card v (a ∷ adapters) =
    (not a.software && (order_of (vendor_of_id a.vendor_id) == order_of v)) || has_card v adapters

abbrev when : Bool → AdapterVendor → List AdapterVendor
when b v = if b then v ∷ [] else []

abbrev vendors : Bool → Bool → Bool → Bool → List AdapterVendor
vendors n a i u =
    when n nvidia_card ++ (when a amd_card ++ (when i intel_card ++ when u unknown_card))

insert-vendors :
    (v : AdapterVendor) (n a i u : Bool)
    → insert_vendor v (vendors n a i u)
      ≡ vendors
          ((order_of v == 0) || n)
          ((order_of v == 1) || a)
          ((order_of v == 2) || i)
          ((order_of v == 3) || u)
unfolding insert_vendor
insert-vendors v n a i u = ground arith

or_swap : (a b c : Bool) → b || (a || c) ≡ (a || b) || c
or_swap a b c = ground arith

enumerate-vendors :
    (adapters : List Adapter) (n a i u : Bool)
    → enumerate_adapters adapters (vendors n a i u)
      ≡ vendors
          (has_card nvidia_card adapters || n)
          (has_card amd_card adapters || a)
          (has_card intel_card adapters || i)
          (has_card unknown_card adapters || u)
unfolding enumerate_adapters
enumerate-vendors [] n a i u = refl
enumerate-vendors (x ∷ adapters) n a i u = elim (Bool-cases x.software) [
  | inl soft ↦ rw soft (enumerate-vendors adapters n a i u)
  | inr hard ↦
      let v = vendor_of_id x.vendor_id in
      let is : AdapterVendor → Bool = λ w. order_of v == order_of w in
      rw (
        hard,
        insert-vendors v n a i u,
        enumerate-vendors adapters (is nvidia_card || n) (is amd_card || a) (is intel_card || i)
            (is unknown_card || u),
        or_swap (is nvidia_card) (has_card nvidia_card adapters) n,
        or_swap (is amd_card) (has_card amd_card adapters) a,
        or_swap (is intel_card) (has_card intel_card adapters) i,
        or_swap (is unknown_card) (has_card unknown_card adapters) u,
      )
]

abbrev pub one_if : Bool → PoolKind → List PoolKind
one_if b k = if b then k ∷ [] else []

create-vendors :
    (nvapi_init n a i u : Bool)
    → create_gpu_devices nvapi_init (vendors n a i u) [] ≡ (
        if n && not nvapi_init
        then ([], false)
        else (one_if n nvidia_pool ++ one_if a amd_pool, true))
unfolding create_gpu_devices
create-vendors nvapi_init n a i u = ground arith

or_false : (b : Bool) → b || false ≡ b
or_false b = ground arith

-- Each vendor with a hardware adapter and a library gets one pool, however many adapters it has and
-- in whatever order they are listed, NVIDIA's first; if NVAPI does not start where an NVIDIA card
-- is present, no pool is made.
pub create-enumerate :
    (nvapi_init : Bool) (adapters : List Adapter)
    → create_gpu_devices nvapi_init (enumerate_adapters adapters []) [] ≡ (
        if has_card nvidia_card adapters && not nvapi_init then ([], false) else (
          one_if (has_card nvidia_card adapters) nvidia_pool
              ++ one_if (has_card amd_card adapters) amd_pool,
          true,
        ))
create-enumerate nvapi_init adapters =
    rw
      (
        enumerate-vendors adapters false false false false,
        or_false (has_card nvidia_card adapters),
        or_false (has_card amd_card adapters),
      )
      (create-vendors nvapi_init (has_card nvidia_card adapters) (has_card amd_card adapters)
        (has_card intel_card adapters || false) (has_card unknown_card adapters || false))
