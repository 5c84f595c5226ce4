-- ===== src/Kernel/Intel/Entry.antt =====
-- drivers/windows/CPU/IntelCPUDriver/intel_cpudriver.c: loading and unloading of the Intel driver.
use hardware_monitor.Kernel.{IsFull, has_bit, field, u32}
use hardware_monitor.Kernel.Lifecycle.{Attempt, WdfAnswers, create_driver}
use hardware_monitor.Prelude.{
  Bool, false, if◌then◌else◌, length-replicate, none, replicate, some, true, ℕ, ◌&&◌, ◌^◌,
}
use hardware_monitor.Kernel.Intel.Lawful.{IsWellFormed}
use hardware_monitor.Kernel.Intel.{Globals, CoreDeltaState, detect_features}

-- What the processor and the kernel answer to DriverEntry. `pool` is whether ExAllocatePool2 gives
-- memory.
pub record Boot : Type 0 where
  pub therm_eax : ℕ
  pub therm_ecx : ℕ
  pub version_eax : ℕ
  pub platform_info : ℕ
  pub rapl_unit : ℕ
  pub qpc_freq : ℕ
  pub procs : ℕ
  pub pool : Bool
  pub wdf : WdfAnswers

abbrev zeroed : CoreDeltaState
zeroed = record { prev_mperf = 0; prev_tsc = 0; valid = false }

-- The static variables before the driver is loaded.
abbrev pub zeroed_globals : Globals
zeroed_globals = record {
  has_mperf = false;
  has_pkg_therm = false;
  has_rapl = false;
  base_freq_mhz = 0;
  core_state = none;
  pkg_state = record {
    prev_pkg_energy = 0;
    prev_pkg_qpc = 0;
    pkg_valid = false;
    prev_pp0_energy = 0;
    prev_pp0_qpc = 0;
    pp0_valid = false;
    energy_unit_divisor = 0;
  };
  max_procs = 0;
  qpc_freq = 0;
}

-- DriverEntry up to WdfDriverCreate.
unfoldable pub prepare : Boot → Globals
unfolding detect_features
prepare b =
    let g = detect_features b.therm_eax b.therm_ecx b.version_eax b.platform_info zeroed_globals in
    let shift = field 12 8 b.rapl_unit in
    record g {
      qpc_freq = b.qpc_freq;
      pkg_state =
          if g.has_rapl
          then record g.pkg_state { energy_unit_divisor = u32 (2 ^ shift) }
          else g.pkg_state;
      max_procs = b.procs;
      core_state = if g.has_mperf && b.pool then some (replicate b.procs zeroed) else none;
    }

unfoldable pub driver_entry : Boot → Globals × Attempt
unfolding prepare create_driver
driver_entry b = (prepare b, create_driver b.wdf)

-- EvtDriverUnload: the globals and whether `dev` is still set.
unfoldable pub evt_driver_unload : Globals × Bool → Globals × Bool
evt_driver_unload (g, dev_set) = (record g { core_state = none }, false)

allocated :
    (procs : ℕ) (pool : Bool) → IsFull procs (if pool then some (replicate procs zeroed) else none)
allocated procs true = length-replicate procs zeroed
allocated procs false = tt

-- A load of the Intel driver leaves well-formed globals.
pub driver_entry-IsWellFormed : (b : Boot) → IsWellFormed (driver_entry b).0
unfolding driver_entry prepare
driver_entry-IsWellFormed b = allocated b.procs (has_bit 0 b.therm_ecx && b.pool)
