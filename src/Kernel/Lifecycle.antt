-- ===== src/Kernel/Lifecycle.antt =====
-- drivers/windows/CPU: NonPnpDeviceAdd and the end of DriverEntry, which both drivers have in the same
-- words.
use hardware_monitor.Prelude.{
  ◌≢◌, Bool, Option, arith, false, if◌then◌else◌, none, not, some, true, ℕ, ◌↔◌, ◌≡◌,
}
use hardware_monitor.Kernel.Ioctl.{NtStatus, other_status, status_success}

-- How the calls of the framework end while the driver is loaded: `none` is a success, else the
-- status.
pub record WdfAnswers : Type 0 where
  pub driver_create : Option ℕ
  pub init_allocates : Bool
  pub assign_sddl : Option ℕ
  pub assign_name : Option ℕ
  pub device_create : Option ℕ
  pub symbolic_link : Option ℕ
  pub queue_create : Option ℕ

-- What has become of the init structure. WdfDeviceCreate takes it over where it succeeds, and clears
-- the pointer to it.
pub data InitStructure : Type 0 where
  not_allocated allocated freed taken_over : InitStructure

-- What is left of the attempt: whether `dev` is set, and whether the device can be used.
pub record Attempt : Type 0 where
  pub status : NtStatus
  pub dev_set : Bool
  pub device_init : InitStructure
  pub initialized : Bool

-- `if (device_init != NULL) WdfDeviceInitFree(device_init);`, where only an allocated structure that
-- was not taken over is pointed to.
abbrev pub free_init : InitStructure → InitStructure
free_init not_allocated = not_allocated
free_init allocated = freed
free_init freed = freed
free_init taken_over = taken_over

-- From the label END on.
abbrev pub end_with : NtStatus → InitStructure → (dev_set initialized : Bool) → Attempt
end_with status device_init dev_set initialized = record {
  status = status;
  dev_set = dev_set;
  device_init = free_init device_init;
  initialized = initialized;
}

unfoldable pub non_pnp_device_add : InitStructure → WdfAnswers → Attempt
non_pnp_device_add device_init w = elim w.assign_sddl [
  | some e ↦ end_with (other_status e) device_init false false
  | none ↦ elim w.assign_name [
    | some e ↦ end_with (other_status e) device_init false false
    | none ↦ elim w.device_create [
      | some e ↦ end_with (other_status e) device_init false false
      | none ↦ elim w.symbolic_link [
        | some e ↦ end_with (other_status e) taken_over false false
        | none ↦ elim w.queue_create [
          | some e ↦ end_with (other_status e) taken_over true false
          | none ↦ end_with status_success taken_over true true
        ]
      ]
    ]
  ]
]

-- STATUS_INSUFFICIENT_RESOURCES
abbrev pub status_insufficient_resources : NtStatus
status_insufficient_resources = other_status 0xC000009A

-- DriverEntry from WdfDriverCreate on.
unfoldable pub create_driver : WdfAnswers → Attempt
unfolding non_pnp_device_add
create_driver w = elim w.driver_create [
  | some e ↦ record {
    status = other_status e;
    dev_set = false;
    device_init = not_allocated;
    initialized = false;
  }
  | none ↦
      if not w.init_allocates
      then record {
        status = status_insufficient_resources;
        dev_set = false;
        device_init = not_allocated;
        initialized = false;
      }
      else non_pnp_device_add allocated w
]

-- Every call of the framework succeeds.
abbrev pub AllSucceed : WdfAnswers → Type 0
AllSucceed w =
    (w.driver_create ≡ none)
    × (w.init_allocates ≡ true)
    × (w.assign_sddl ≡ none)
    × (w.assign_name ≡ none)
    × (w.device_create ≡ none)
    × (w.symbolic_link ≡ none)
    × (w.queue_create ≡ none)

pub create_driver_iff :
    (w : WdfAnswers) → ((create_driver w).status ≡ status_success) ↔ AllSucceed w
unfolding create_driver non_pnp_device_add
create_driver_iff w = ground arith

-- Only a successful load leaves a device that can be used.
pub initialized_iff : (w : WdfAnswers) → ((create_driver w).initialized ≡ true) ↔ AllSucceed w
unfolding create_driver non_pnp_device_add
initialized_iff w = ground arith

-- The framework gets as far as a device object.
abbrev pub CreatesDevice : WdfAnswers → Type 0
CreatesDevice w =
    (w.driver_create ≡ none)
    × (w.init_allocates ≡ true)
    × (w.assign_sddl ≡ none)
    × (w.assign_name ≡ none)
    × (w.device_create ≡ none)

-- The init structure is not left allocated, and it is the framework's exactly if there is a device.
pub init_settled : (w : WdfAnswers) → (create_driver w).device_init ≢ allocated
unfolding create_driver non_pnp_device_add
init_settled w = ground arith

pub taken_over_iff :
    (w : WdfAnswers) → ((create_driver w).device_init ≡ taken_over) ↔ CreatesDevice w
unfolding create_driver non_pnp_device_add
taken_over_iff w = ground arith
