-- ===== src/Kernel/Intel.antt =====
-- drivers/windows/CPU/IntelCPUDriver/intel_cpudriver.c and .h: the metrics of the Intel driver.
pub mod Lawful
pub mod Entry
use hardware_monitor.Kernel.{
  on_core, Readings, core_data, field, has_bit, load_percent, milliwatts, package_data, u32,
  unit_degrees_c, unit_mhz, unit_percent, with_value,
}
use hardware_monitor.Device.{sensor_type_eq}
use hardware_monitor.Driver.{
  CpuData, cpu_vendor_intel, metric_clock_speed, metric_load, metric_power, metric_temp,
  metric_voltage, unit_millivolts, unit_milliwatts, cpu_vendor_eq,
}
use hardware_monitor.Kernel.Ioctl.{CpuDriver, Metric}
use hardware_monitor.Prelude.{
  Bool, List, Option, [], bytes, get_elem?, if◌then◌else◌, leb, list_eq, nat_eq, none, not, set,
  some, true, ℕ, ◌&&◌, ◌*◌, ◌++◌, ◌+◌, ◌-◌, ◌/◌, ◌==◌, ◌^◌, ◌∷◌,
}

abbrev pub ia32_therm_status : ℕ
ia32_therm_status = 0x19C

abbrev pub ia32_therm_target : ℕ
ia32_therm_target = 0x1A2

abbrev pub ia32_package_therm_status : ℕ
ia32_package_therm_status = 0x1B1

abbrev pub msr_perf_status : ℕ
msr_perf_status = 0x198

abbrev pub ia32_platform_info : ℕ
ia32_platform_info = 0xCE

abbrev pub ia32_mperf : ℕ
ia32_mperf = 0xE7

abbrev pub msr_rapl_power_unit : ℕ
msr_rapl_power_unit = 0x606

abbrev pub msr_pkg_energy_status : ℕ
msr_pkg_energy_status = 0x611

abbrev pub msr_pp0_energy_status : ℕ
msr_pp0_energy_status = 0x639

abbrev pub cpuid_therm_power_leaf : ℕ
cpuid_therm_power_leaf = 0x06

abbrev pub intel_bus_clock_mhz : ℕ
intel_bus_clock_mhz = 100

abbrev pub rapl_min_model : ℕ
rapl_min_model = 0x2A

-- CORE_DELTA_STATE and PKG_DELTA_STATE; values of the performance counter are not negative.
pub record CoreDeltaState : Type 0 where
  pub prev_mperf : ℕ
  pub prev_tsc : ℕ
  pub valid : Bool

pub record PkgDeltaState : Type 0 where
  pub prev_pkg_energy : ℕ
  pub prev_pkg_qpc : ℕ
  pub pkg_valid : Bool
  pub prev_pp0_energy : ℕ
  pub prev_pp0_qpc : ℕ
  pub pp0_valid : Bool
  pub energy_unit_divisor : ℕ

-- The static variables of the driver. `core_state` is none where the pointer is NULL.
pub record Globals : Type 0 where
  pub has_mperf : Bool
  pub has_pkg_therm : Bool
  pub has_rapl : Bool
  pub base_freq_mhz : ℕ
  pub core_state : Option (List CoreDeltaState)
  pub pkg_state : PkgDeltaState
  pub max_procs : ℕ
  pub qpc_freq : ℕ

-- DetectFeatures, from EAX and ECX of leaf 6, EAX of leaf 1 and IA32_PLATFORM_INFO.
unfoldable pub detect_features :
    (therm_eax therm_ecx version_eax platform_info : ℕ) → Globals → Globals
detect_features therm_eax therm_ecx version_eax platform_info g =
    let family = field 11 8 version_eax in
    let model = field 19 16 version_eax * 2 ^ 4 + field 7 4 version_eax in
    record g {
      has_mperf = has_bit 0 therm_ecx;
      has_pkg_therm = has_bit 6 therm_eax;
      has_rapl = family == 6 && leb rapl_min_model model;
      base_freq_mhz = u32 (field 15 8 platform_info * intel_bus_clock_mhz);
    }

-- A procedure that changes no globals.
abbrev pub reads : CpuData → Metric Globals
reads d g = some (g, d)

-- Degrees from a thermal status and the target register: the offset below the maximum.
unfoldable pub degrees_below_max : (therm_status therm_target : ℕ) → ℕ
degrees_below_max therm_status therm_target =
    let temp_max = field 23 16 therm_target in
    let temp_offset = field 22 16 therm_status in
    if not (has_bit 31 therm_status)
    then 0
    else if leb temp_offset temp_max
    then temp_max - temp_offset
    else 0

unfoldable pub ret_core_temp : (cpu_idx : ℕ) → Readings → CpuData
unfolding core_data degrees_below_max
ret_core_temp cpu_idx r =
    let d = core_data metric_temp unit_degrees_c cpu_idx (bytes "Temp") in
    if not (has_bit 0 (r.cpuid_eax cpuid_therm_power_leaf))
    then d
    else with_value d
        (degrees_below_max (r.readmsr ia32_therm_status) (r.readmsr ia32_therm_target))

unfoldable pub ret_core_vid : (cpu_idx : ℕ) → Readings → CpuData
unfolding core_data
ret_core_vid cpu_idx r =
    let d = core_data metric_voltage unit_millivolts cpu_idx (bytes "VID") in
    let vid_bits = field 47 32 (r.readmsr msr_perf_status) in
    with_value d (u32 (vid_bits * 1000 + 2 ^ 12) / 2 ^ 13)

unfoldable pub ret_core_clock_speed : (cpu_idx : ℕ) → Readings → CpuData
unfolding core_data
ret_core_clock_speed cpu_idx r =
    let d = core_data metric_clock_speed unit_mhz cpu_idx (bytes "Clock") in
    let pstate_ratio = field 15 8 (r.readmsr msr_perf_status) in
    with_value d (u32 (pstate_ratio * intel_bus_clock_mhz))

unfoldable pub ret_core_load : (cpu_idx : ℕ) → Readings → Metric Globals
unfolding core_data load_percent on_core
ret_core_load cpu_idx r g =
    let d = core_data metric_load unit_percent cpu_idx (bytes "Load") in
    let curr_mperf = r.readmsr ia32_mperf in
    if not g.has_mperf
    then some (g, d)
    else elim (on_core g.max_procs cpu_idx d
        (λ state. (
          record { prev_mperf = curr_mperf; prev_tsc = r.rdtsc; valid = true },
          (if state.valid
              then with_value d (load_percent curr_mperf state.prev_mperf r.rdtsc state.prev_tsc)
              else d),
        ))
        g.core_state) [
          | none ↦ none
          | some (cores, d') ↦ some (record g { core_state = cores }, d')
        ]

unfoldable pub ret_tdie_temp : Readings → CpuData
unfolding package_data degrees_below_max
ret_tdie_temp r =
    with_value (package_data metric_temp unit_degrees_c (bytes "Package Temp"))
      (degrees_below_max (r.readmsr ia32_package_therm_status) (r.readmsr ia32_therm_target))

unfoldable pub ret_package_power : Readings → Metric Globals
unfolding package_data milliwatts
ret_package_power r g =
    let d = package_data metric_power unit_milliwatts (bytes "Package Power") in
    let curr_energy = u32 (r.readmsr msr_pkg_energy_status) in
    let pkg = g.pkg_state in
    some (
      record g {
        pkg_state = record pkg {
          prev_pkg_energy = curr_energy;
          prev_pkg_qpc = r.qpc;
          pkg_valid = true;
        };
      },
      with_value d (
          milliwatts curr_energy pkg.prev_pkg_energy r.qpc pkg.prev_pkg_qpc pkg.energy_unit_divisor
            g.qpc_freq pkg.pkg_valid),
    )

unfoldable pub ret_core_domain_power : Readings → Metric Globals
unfolding package_data milliwatts
ret_core_domain_power r g =
    let d = package_data metric_power unit_milliwatts (bytes "Core Domain Power") in
    let curr_energy = u32 (r.readmsr msr_pp0_energy_status) in
    let pkg = g.pkg_state in
    some (
      record g {
        pkg_state = record pkg {
          prev_pp0_energy = curr_energy;
          prev_pp0_qpc = r.qpc;
          pp0_valid = true;
        };
      },
      with_value d (
          milliwatts curr_energy pkg.prev_pp0_energy r.qpc pkg.prev_pp0_qpc pkg.energy_unit_divisor
            g.qpc_freq pkg.pp0_valid),
    )

-- ReadPerCoreIntelMetrics and ReadIntelAggregateMetrics, by the order of their metrics.
abbrev pub read_per_core_intel_metrics : (cpu_idx : ℕ) → (ℕ → Readings) → List (Metric Globals)
read_per_core_intel_metrics cpu_idx r =
    reads (ret_core_temp cpu_idx (r 0))
    ∷ reads (ret_core_vid cpu_idx (r 1))
    ∷ reads (ret_core_clock_speed cpu_idx (r 2))
    ∷ ret_core_load cpu_idx (r 3)
    ∷ []

abbrev pub read_intel_aggregate_metrics : Globals → (ℕ → Readings) → List (Metric Globals)
read_intel_aggregate_metrics g r =
    (if g.has_pkg_therm then reads (ret_tdie_temp (r 0)) ∷ [] else [])
    ++ (if g.has_rapl then ret_package_power (r 1) ∷ ret_core_domain_power (r 2) ∷ [] else [])

-- EvtIoDeviceControl of this driver is `evt_io_device_control intel_driver`.
abbrev pub intel_driver : CpuDriver Globals
intel_driver = record {
  vendor = cpu_vendor_intel;
  metrics_per_core = 4;
  metrics_aggregate = 3;
  per_core = read_per_core_intel_metrics;
  aggregate = read_intel_aggregate_metrics;
}
