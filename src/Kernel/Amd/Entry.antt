-- ===== src/Kernel/Amd/Entry.antt =====
-- drivers/windows/CPU/AMDCPUDriver/amd_cpudriver.c: loading and unloading of the AMD driver.
use hardware_monitor.Kernel.Amd.Power.{NoSample}
use hardware_monitor.Prelude.{
  refl, suc, zero, ◌≢◌, arith, length-replicate, true, ◌↔◌, ◌≡◌, Bool, false, if◌then◌else◌, leb,
  none, replicate, some, ℕ, ◌^◌,
}
use hardware_monitor.Kernel.Lifecycle.{
  CreatesDevice, allocated, init_settled, taken_over, taken_over_iff, AllSucceed, create_driver_iff,
  initialized_iff, Attempt, WdfAnswers, create_driver,
}
use hardware_monitor.Kernel.{IsFull, field, u32}
use hardware_monitor.Kernel.Ioctl.{status_success}
use hardware_monitor.Kernel.Amd.Lawful.{IsWellFormed}
use hardware_monitor.Kernel.Amd.{Globals, CoreDeltaState, detect_features, amd_family_zen}

-- What the processor and the kernel answer to DriverEntry. `pool` is whether ExAllocatePool2 gives
-- memory.
pub record Boot : Type 0 where
  pub version_eax : ℕ
  pub therm_ecx : ℕ
  pub rapl_unit : ℕ
  pub qpc_freq : ℕ
  pub procs : ℕ
  pub pool : Bool
  pub wdf : WdfAnswers

abbrev zeroed : CoreDeltaState
zeroed = record {
  prev_mperf = 0;
  prev_tsc = 0;
  prev_core_energy = 0;
  prev_core_qpc = 0;
  valid = false;
}

-- The static variables before the driver is loaded.
abbrev pub zeroed_globals : Globals
zeroed_globals = record {
  has_mperf = false;
  family = 0;
  model = 0;
  svi2_core_addr = 0;
  svi2_soc_addr = 0;
  core_state = none;
  pkg_state = record {
    prev_pkg_energy = 0;
    prev_pkg_qpc = 0;
    pkg_valid = false;
    energy_unit_divisor = 0;
  };
  max_procs = 0;
  qpc_freq = 0;
}

-- DriverEntry up to WdfDriverCreate.
unfoldable pub prepare : Boot → Globals
unfolding detect_features
prepare b =
    let g = detect_features b.version_eax b.therm_ecx zeroed_globals in
    let shift = field 12 8 b.rapl_unit in
    record g {
      qpc_freq = b.qpc_freq;
      pkg_state =
          if leb amd_family_zen g.family
          then record g.pkg_state { energy_unit_divisor = u32 (2 ^ shift) }
          else g.pkg_state;
      max_procs = b.procs;
      core_state = if b.pool then some (replicate b.procs zeroed) else none;
    }

unfoldable pub driver_entry : Boot → Globals × Attempt
unfolding prepare create_driver
driver_entry b = (prepare b, create_driver b.wdf)

-- EvtDriverUnload: the globals and whether `dev` is still set.
unfoldable pub evt_driver_unload : Globals × Bool → Globals × Bool
evt_driver_unload (g, dev_set) = (record g { core_state = none }, false)

allocated_full :
    (procs : ℕ) (pool : Bool) → IsFull procs (if pool then some (replicate procs zeroed) else none)
allocated_full procs true = length-replicate procs zeroed
allocated_full procs false = tt

replicate-NoSample : (procs : ℕ) → NoSample (some (replicate procs zeroed))
replicate-NoSample zero = tt
replicate-NoSample (suc procs) = (refl, replicate-NoSample procs)

-- A load leaves no core with a sample.
pub prepare-NoSample : (b : Boot) → NoSample (driver_entry b).0.core_state
unfolding driver_entry prepare
prepare-NoSample b = by_pool b.pool
  where
    by_pool : (pool : Bool) → NoSample (if pool then some (replicate b.procs zeroed) else none)
    by_pool true = replicate-NoSample b.procs
    by_pool false = tt

left_allocated :
    (procs : ℕ) (pool : Bool)
    → ((if pool then some (replicate procs zeroed) else none) ≡ none) ↔ (pool ≡ false)
left_allocated procs pool = ground arith

-- A load of the AMD driver leaves globals that the handler is safe with. The init structure is not left
-- allocated: it is the framework's exactly if the device object was created, and otherwise freed or
-- never allocated. The load succeeds, with a device that can be used, exactly if every call of the
-- framework succeeds. The array of core states is allocated whenever the pool has memory, also by
-- a load that fails.
pub driver_entry_lem :
    (b : Boot)
    → let (g, attempt) = driver_entry b in
      IsWellFormed g
      × (attempt.device_init ≢ allocated)
      × ((attempt.device_init ≡ taken_over) ↔ CreatesDevice b.wdf)
      × ((attempt.status ≡ status_success) ↔ AllSucceed b.wdf)
      × ((attempt.initialized ≡ true) ↔ AllSucceed b.wdf)
      × ((g.core_state ≡ none) ↔ (b.pool ≡ false))
unfolding driver_entry prepare
driver_entry_lem b = (
  allocated_full b.procs b.pool,
  init_settled b.wdf,
  taken_over_iff b.wdf,
  create_driver_iff b.wdf,
  initialized_iff b.wdf,
  left_allocated b.procs b.pool,
)
