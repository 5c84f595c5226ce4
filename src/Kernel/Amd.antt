-- ===== src/Kernel/Amd.antt =====
-- drivers/windows/CPU/AMDCPUDriver/amd_cpudriver.c and .h: the metrics of the AMD driver.
pub mod Lawful
pub mod Registers
pub mod Power
pub mod Entry
pub mod Unsampled
use hardware_monitor.Kernel.{
  on_core, Readings, core_data, field, has_bit, load_percent, milliwatts, package_data, u32,
  unit_degrees_c, unit_mhz, unit_percent, with_value,
}
use hardware_monitor.Device.{sensor_type_eq}
use hardware_monitor.Driver.{
  CpuData, cpu_vendor_amd, metric_clock_speed, metric_load, metric_power, metric_temp,
  metric_voltage, unit_millivolts, unit_milliwatts, cpu_vendor_eq,
}
use hardware_monitor.Kernel.Ioctl.{CpuDriver, Metric}
use hardware_monitor.Prelude.{
  Bool, List, Option, [], bytes, get_elem?, gtb, if◌then◌else◌, leb, list_eq, ltb, nat_eq, negsuc,
  none, not, pos, pos_part, quot, set, some, sub_ℕ, true, ℕ, ℤ, ◌*◌, ◌+◌, ◌-◌, ◌/◌, ◌==◌, ◌^◌, ◌||◌,
  ◌∷◌,
}

abbrev pub amd_family_zen : ℕ
amd_family_zen = 0x17

abbrev pub amd_family_zen3 : ℕ
amd_family_zen3 = 0x19

abbrev pub amd_svi2_plane0_addr : ℕ
amd_svi2_plane0_addr = 0x0005A00C

abbrev pub amd_svi2_plane1_addr : ℕ
amd_svi2_plane1_addr = 0x0005A010

abbrev pub amd_thm_tcon_cur_temp_addr : ℕ
amd_thm_tcon_cur_temp_addr = 0x00059800

abbrev pub ia32_mperf : ℕ
ia32_mperf = 0xE7

abbrev pub amd_msr_pstate_status : ℕ
amd_msr_pstate_status = 0xC0010063

abbrev pub amd_msr_pstate_def_base : ℕ
amd_msr_pstate_def_base = 0xC0010064

abbrev pub amd_msr_rapl_power_unit : ℕ
amd_msr_rapl_power_unit = 0xC0010299

abbrev pub amd_msr_core_energy_status : ℕ
amd_msr_core_energy_status = 0xC001029A

abbrev pub amd_msr_pkg_energy_status : ℕ
amd_msr_pkg_energy_status = 0xC001029B

-- AMD_CORE_DELTA_STATE and AMD_PKG_DELTA_STATE; values of the performance counter are not negative.
pub record CoreDeltaState : Type 0 where
  pub prev_mperf : ℕ
  pub prev_tsc : ℕ
  pub prev_core_energy : ℕ
  pub prev_core_qpc : ℕ
  pub valid : Bool

pub record PkgDeltaState : Type 0 where
  pub prev_pkg_energy : ℕ
  pub prev_pkg_qpc : ℕ
  pub pkg_valid : Bool
  pub energy_unit_divisor : ℕ

-- The static variables of the driver. `core_state` is none where the pointer is NULL.
pub record Globals : Type 0 where
  pub has_mperf : Bool
  pub family : ℕ
  pub model : ℕ
  pub svi2_core_addr : ℕ
  pub svi2_soc_addr : ℕ
  pub core_state : Option (List CoreDeltaState)
  pub pkg_state : PkgDeltaState
  pub max_procs : ℕ
  pub qpc_freq : ℕ

-- DetectAMDModelAndFamily, from EAX of CPUID leaf 1: the family and the model.
unfoldable pub detect_amd_model_and_family : (eax : ℕ) → ℕ × ℕ
detect_amd_model_and_family eax =
    (field 11 8 eax + field 27 20 eax, field 19 16 eax * 2 ^ 4 + field 7 4 eax)

-- DetectFeatures, from EAX of leaf 1 and ECX of leaf 6.
unfoldable pub detect_features : (eax ecx : ℕ) → Globals → Globals
unfolding detect_amd_model_and_family
detect_features eax ecx g =
    let (family, model) = detect_amd_model_and_family eax in
    let swapped = leb amd_family_zen3 family in
    record g {
      family = family;
      model = model;
      has_mperf = has_bit 0 ecx;
      svi2_core_addr = if swapped then amd_svi2_plane1_addr else amd_svi2_plane0_addr;
      svi2_soc_addr = if swapped then amd_svi2_plane0_addr else amd_svi2_plane1_addr;
    }

-- ReadSmn: a transfer of other than four bytes fails.
unfoldable pub read_smn : Readings → (address : ℕ) → Option ℕ
read_smn r address =
    if not (r.smn_written == 4)
    then none
    else if not (r.smn_read == 4)
    then none
    else some (u32 (r.smn_data address))

-- A procedure that changes no globals.
abbrev pub reads : (Globals → CpuData) → Metric Globals
reads f g = some (g, f g)

unfoldable pub ret_core_clock_speed : (cpu_idx : ℕ) → Readings → CpuData
unfolding core_data
ret_core_clock_speed cpu_idx r =
    let d = core_data metric_clock_speed unit_mhz cpu_idx (bytes "Clock") in
    let cur_pstate = field 2 0 (r.readmsr amd_msr_pstate_status) in
    let pstate_def = r.readmsr (amd_msr_pstate_def_base + cur_pstate) in
    let fid = field 7 0 pstate_def in
    let dfs_id = field 13 8 pstate_def in
    if ltb 0 dfs_id then with_value d (u32 (200 * fid) / dfs_id) else d

-- A procedure that uses the state of its core.
abbrev pub with_core :
    (cpu_idx : ℕ) → CpuData → (CoreDeltaState → CoreDeltaState × CpuData) → Metric Globals
with_core cpu_idx d use_state g = elim (on_core g.max_procs cpu_idx d use_state g.core_state) [
  | none ↦ none
  | some (cores, d') ↦ some (record g { core_state = cores }, d')
]

unfoldable pub ret_core_load : (cpu_idx : ℕ) → Readings → Metric Globals
unfolding core_data load_percent on_core
ret_core_load cpu_idx r g =
    let d = core_data metric_load unit_percent cpu_idx (bytes "Load") in
    let curr_mperf = r.readmsr ia32_mperf in
    if not g.has_mperf
    then some (g, d)
    else with_core cpu_idx d
        (λ state. (
          record state { prev_mperf = curr_mperf; prev_tsc = r.rdtsc; valid = true },
          (if state.valid
              then with_value d (load_percent curr_mperf state.prev_mperf r.rdtsc state.prev_tsc)
              else d),
        ))
        g

unfoldable pub ret_core_power : (cpu_idx : ℕ) → Readings → Metric Globals
unfolding core_data milliwatts on_core
ret_core_power cpu_idx r g =
    let d = core_data metric_power unit_milliwatts cpu_idx (bytes "Power") in
    let curr_energy = u32 (r.readmsr amd_msr_core_energy_status) in
    if ltb g.family amd_family_zen
    then some (g, d)
    else with_core cpu_idx d
        (λ state. (
          record state { prev_core_energy = curr_energy; prev_core_qpc = r.qpc },
          with_value d (
              milliwatts curr_energy state.prev_core_energy r.qpc state.prev_core_qpc
                g.pkg_state.energy_unit_divisor g.qpc_freq state.valid),
        ))
        g

-- Degrees from the register: eighths of a degree, 49 lower where a flag says so, and 0 outside 0 to
-- 150 degrees.
unfoldable pub tdie_degrees : (raw : ℕ) → ℕ
tdie_degrees raw =
    let offset_flag = has_bit 19 raw || field 17 16 raw == 3 in
    let temp_mdeg = sub_ℕ (field 31 21 raw * 125) (if offset_flag then 49000 else 0) in
    elim temp_mdeg [ negsuc n ↦ 0 | pos n ↦ if leb n 150000 then n / 1000 else 0 ]

unfoldable pub ret_tdie_temp : Readings → CpuData
unfolding package_data read_smn tdie_degrees
ret_tdie_temp r =
    let d = package_data metric_temp unit_degrees_c (bytes "Tdie Temp") in
    elim (read_smn r amd_thm_tcon_cur_temp_addr) [
      | none ↦ d
      | some raw ↦ with_value d (tdie_degrees raw)
    ]

-- The LONG that a ULONG becomes.
abbrev pub signed32 : ℕ → ℤ
signed32 w = if ltb w (2 ^ 31) then pos w else negsuc (2 ^ 32 - w - 1)

-- Millivolts from the register; the sum is one of ULONGs, so it wraps.
unfoldable pub svi2_millivolts : (raw : ℕ) → ℕ
svi2_millivolts raw =
    let vid = field 23 16 raw in
    let mv = quot (signed32 (u32 (6200 + 2 ^ 32 - vid * 25 + 2))) 4 in
    if gtb mv (pos 0) then pos_part mv else 0

unfoldable pub ret_core_voltage : Readings → Globals → CpuData
unfolding package_data read_smn svi2_millivolts
ret_core_voltage r g =
    let d = package_data metric_voltage unit_millivolts (bytes "Core Voltage") in
    elim (read_smn r g.svi2_core_addr) [ none ↦ d | some raw ↦ with_value d (svi2_millivolts raw) ]

unfoldable pub ret_soc_voltage : Readings → Globals → CpuData
unfolding package_data read_smn svi2_millivolts
ret_soc_voltage r g =
    let d = package_data metric_voltage unit_millivolts (bytes "SoC Voltage") in
    elim (read_smn r g.svi2_soc_addr) [ none ↦ d | some raw ↦ with_value d (svi2_millivolts raw) ]

unfoldable pub ret_package_power : Readings → Metric Globals
unfolding package_data milliwatts
ret_package_power r g =
    let d = package_data metric_power unit_milliwatts (bytes "Package Power") in
    let curr_energy = u32 (r.readmsr amd_msr_pkg_energy_status) in
    let pkg = g.pkg_state in
    if ltb g.family amd_family_zen
    then some (g, d)
    else some (
      record g {
        pkg_state = record pkg {
          prev_pkg_energy = curr_energy;
          prev_pkg_qpc = r.qpc;
          pkg_valid = true;
        };
      },
      with_value d (
          milliwatts curr_energy pkg.prev_pkg_energy r.qpc pkg.prev_pkg_qpc pkg.energy_unit_divisor
            g.qpc_freq pkg.pkg_valid),
    )

-- ReadPerCoreAmdMetrics and ReadAmdAggregateMetrics, by the order of their metrics.
abbrev pub read_per_core_amd_metrics : (cpu_idx : ℕ) → (ℕ → Readings) → List (Metric Globals)
read_per_core_amd_metrics cpu_idx r =
    reads (λ g. ret_core_clock_speed cpu_idx (r 0))
    ∷ ret_core_load cpu_idx (r 1)
    ∷ ret_core_power cpu_idx (r 2)
    ∷ []

abbrev pub read_amd_aggregate_metrics : Globals → (ℕ → Readings) → List (Metric Globals)
read_amd_aggregate_metrics g r =
    reads (λ g'. ret_tdie_temp (r 0))
    ∷ reads (ret_core_voltage (r 1))
    ∷ reads (ret_soc_voltage (r 2))
    ∷ ret_package_power (r 3)
    ∷ []

-- EvtIoDeviceControl of this driver is `evt_io_device_control amd_driver`.
abbrev pub amd_driver : CpuDriver Globals
amd_driver = record {
  vendor = cpu_vendor_amd;
  metrics_per_core = 3;
  metrics_aggregate = 4;
  per_core = read_per_core_amd_metrics;
  aggregate = read_amd_aggregate_metrics;
}
