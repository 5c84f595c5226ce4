-- ===== src/Tests/Kernels.antt =====
-- Witnesses of the properties of the CPU drivers: a processor of AMD with one core.
use hardware_monitor.Device.{sensor_type_eq}
use hardware_monitor.Kernel.Ioctl.{
  CpuDataBuffer, NtStatus, other_status, status_buffer_too_small, status_invalid_device_request,
  Request, Affinities, Completed, status_success, status_buffer_overflow, ioctl_get_data,
  evt_io_device_control,
}
use hardware_monitor.Kernel.Lifecycle.{CreatesDevice, allocated, taken_over, AllSucceed}
use hardware_monitor.Prelude.{
  All, take, ◌≢◌, List, ap, if◌then◌else◌, list_eq, nat_eq, ◌++◌, ◌==◌, ◌∙◌, ◌∷◌, Option, [], arith,
  bytes, false, length, list_discrete, none, refl, replicate, some, true, ℕ, ℕ_discrete, ◌*◌, ◌+◌,
  ◌-◌, ◌/◌, ◌<◌, ◌^◌, ◌↔◌, ◌≡◌,
}
use hardware_monitor.Kernel.Amd.{
  read_amd_aggregate_metrics, Globals, amd_driver, ret_core_load, ret_core_power, svi2_millivolts,
}
use hardware_monitor.Kernel.Amd.Lawful.{IsWellFormed, amd_driver-IsLawful}
use hardware_monitor.Kernel.Intel.{intel_driver}
use hardware_monitor.Kernel.Loaded.{loaded_drivers_are_safe}
use hardware_monitor.Driver.{
  CpuData, Machine, Response, success, failure, more_data, other_error, returned, run_driver,
  DriverClient, cpu_vendor_amd, detect_cpu_vendor, cpu_vendor_eq,
}
use hardware_monitor.Kernel.Names.{build_core_name_unique}
use hardware_monitor.Kernel.Values.{load_percent_lem, milliwatts_lem}
use hardware_monitor.Kernel.Amd
use hardware_monitor.Kernel.Intel
use hardware_monitor.Kernel.{
  u32, u64, field, Readings, load_percent, milliwatts, build_core_name, name_size,
}
use hardware_monitor.Kernel.Ioctl.Safe.{IsRestoring}
use hardware_monitor.Kernel.Ioctl.Complete.{collect}
use hardware_monitor.Kernel.Ioctl.Delivery.{evt_io_device_control-Delivers, Delivers}
use hardware_monitor.Kernel.Ioctl.Answerable.{core_metrics, IsAnswerable}
use hardware_monitor.Kernel.Ioctl.Sequence.{serve}
use hardware_monitor.Kernel.Client.{IsHandedOver, IsServed, run_driver-delivers}
use hardware_monitor.Kernel.Amd.Registers.{svi2_millivolts_lem}
use hardware_monitor.Kernel.Amd.Unsampled.{HasNoCorePower, core_power_without_mperf}
use hardware_monitor.Kernel.Amd.Entry.{driver_entry, driver_entry_lem, Boot}

load_percent_lem_example :
    load_percent (u64 (2 ^ 64 - 10 + 50)) (2 ^ 64 - 10) (u64 (3 + 200)) 3 ≡ 50 * 100 / 200
load_percent_lem_example =
    load_percent_lem (2 ^ 64 - 10) 3 50 200 (omega arith) (omega arith) (omega arith) (omega arith)
      (omega arith)

milliwatts_lem_example :
    milliwatts (u32 (2 ^ 32 - 1 + 65536)) (2 ^ 32 - 1) (5 + 10000000) 5 65536 10000000 true
    ≡ 65536 * 1000 / 65536 * 1000 / (10000000 * 1000 / 10000000)
milliwatts_lem_example =
    milliwatts_lem (2 ^ 32 - 1) 65536 5 10000000 65536 10000000 (omega arith) (omega arith)
      (omega arith) (omega arith) (omega arith) (omega arith) (omega arith) (omega arith)

build_core_name_unique_example :
    ((build_core_name name_size 3 (bytes "Clock") ≡ build_core_name name_size 12 (bytes "Clock"))
      ↔ (◌≡◌ {A = ℕ} 3 12))
    × (length (build_core_name name_size 3 (bytes "Clock")) < name_size)
build_core_name_unique_example =
    build_core_name_unique 3 12 (bytes "Clock") (omega arith) (omega arith) (omega arith)

svi2_millivolts_lem_example :
    Amd.svi2_millivolts 0x00480000 ≡ (6200 - field 23 16 0x00480000 * 25 + 2) / 4
svi2_millivolts_lem_example = svi2_millivolts_lem 0x00480000

abbrev readings : Readings
readings = record {
  readmsr = λ address. 0x0828;
  cpuid_eax = λ leaf. 1;
  rdtsc = 4000;
  qpc = 20000000;
  smn_written = 4;
  smn_read = 4;
  smn_data = λ address. 0x44480000;
}

abbrev boot : Boot
boot = record {
  version_eax = 0x00870F10;
  therm_ecx = 0;
  rapl_unit = 0x1000;
  qpc_freq = 10000000;
  procs = 1;
  pool = true;
  wdf = record {
    driver_create = none;
    init_allocates = true;
    assign_sddl = none;
    assign_name = none;
    device_create = none;
    symbolic_link = some 5;
    queue_create = none;
  };
}

abbrev intel_boot : Intel.Entry.Boot
intel_boot = record {
  therm_eax = 0x41;
  therm_ecx = 1;
  version_eax = 0x000906EA;
  platform_info = 0x2400;
  rapl_unit = 0xE00;
  qpc_freq = 10000000;
  procs = 1;
  pool = true;
  wdf = boot.wdf;
}

driver_entry_lem_example :
    let (g, attempt) = driver_entry boot in
    Amd.Lawful.IsWellFormed g
    × (attempt.device_init ≢ allocated)
    × ((attempt.device_init ≡ taken_over) ↔ CreatesDevice boot.wdf)
    × ((attempt.status ≡ status_success) ↔ AllSucceed boot.wdf)
    × ((attempt.initialized ≡ true) ↔ AllSucceed boot.wdf)
    × ((g.core_state ≡ none) ↔ (boot.pool ≡ false))
driver_entry_lem_example = driver_entry_lem boot

abbrev loaded : Amd.Globals
unfolding driver_entry
loaded = (driver_entry boot).0

loaded-IsWellFormed : Amd.Lawful.IsWellFormed loaded
unfolding driver_entry
loaded-IsWellFormed = refl

-- A thread runs where it was put last, or where its process lets it.
abbrev affinities : Affinities
affinities = record {
  Thread = Option (ℕ × ℕ);
  Saved = Option (ℕ × ℕ);
  set_affinity = λ group mask thread. (some (group, mask), thread);
  revert = λ saved now. saved;
}

affinities-IsRestoring : IsRestoring affinities
affinities-IsRestoring = record { reverts = λ group mask before now. refl }

abbrev no_data : CpuData
no_data = record { value = 0; name = []; type = 0; unit = 0; cpu_id = 0 }

abbrev request : (output_buffer_length slots : ℕ) → Request affinities
request output_buffer_length slots = record {
  io_control_code = ioctl_get_data;
  output_buffer_length = output_buffer_length;
  retrieve_error = none;
  memory = replicate slots no_data;
  total_procs = 1;
  processor_number = λ i. some (0, i);
  vendor = bytes "AuthenticAMD";
  readings = λ thread metric. readings;
}

fetch-IsAnswerable : IsAnswerable Amd.amd_driver affinities (request 320 7)
unfolding detect_cpu_vendor list_discrete ℕ_discrete
fetch-IsAnswerable = record {
  asks = refl;
  retrieved = refl;
  ours = refl;
  is_buffer = λ h. omega arith;
  is_dword = omega arith;
  few = omega arith;
  enough = omega arith;
}

loaded_drivers_are_safe_example :
    ((g : Amd.Globals) × (serve Amd.amd_driver affinities
          (request 12 0 ∷ request 320 7 ∷ [])
          (Amd.Entry.driver_entry boot).0
          none
        ≡ some (g, none)))
    × ((g : Intel.Globals) × (serve Intel.intel_driver affinities
            (request 12 0 ∷ request 320 7 ∷ [])
            (Intel.Entry.driver_entry intel_boot).0
            none
          ≡ some (g, none)))
loaded_drivers_are_safe_example =
    loaded_drivers_are_safe affinities affinities-IsRestoring (request 12 0 ∷ request 320 7 ∷ [])
      none ((λ h. (omega arith, omega arith)), ((λ h. (omega arith, omega arith)), tt)) boot
      intel_boot

evt_io_device_control-Delivers_example :
    Delivers Amd.Lawful.IsWellFormed Amd.amd_driver affinities Amd.Lawful.amd_driver-IsLawful
      affinities-IsRestoring
      (request 320 7)
      loaded
      none
evt_io_device_control-Delivers_example =
    evt_io_device_control-Delivers Amd.Lawful.IsWellFormed Amd.amd_driver affinities
      Amd.Lawful.amd_driver-IsLawful affinities-IsRestoring (request 320 7) loaded none
      loaded-IsWellFormed fetch-IsAnswerable

-- What the caller of DeviceIoControl sees.
abbrev hand_over : CpuDataBuffer → NtStatus → ℕ → Response
hand_over b status_success n = success n b.entry_count b.data_entries
hand_over b status_invalid_device_request n = failure other_error 0
hand_over b status_buffer_too_small n = failure other_error 0
hand_over b status_buffer_overflow n = failure more_data b.required_size
hand_over b (other_status e) n = failure other_error 0

abbrev respond : Completed Amd.Globals (Option (ℕ × ℕ)) → Response
respond done = elim done.buffer [
  | none ↦ failure other_error 0
  | some b ↦ hand_over b done.status done.information
]

respond-IsHandedOver : IsHandedOver respond
respond-IsHandedOver = record {
  overflow = λ done b e e' e''. rw (e'', e);
  written = λ done b e fits e'. (b.data_entries, rw (e', e), refl);
}

abbrev answer : Option (Completed Amd.Globals (Option (ℕ × ℕ))) → Response
answer none = failure other_error 0
answer (some done) = respond done

abbrev second_answer : Option (Completed Amd.Globals (Option (ℕ × ℕ))) → Response
second_answer none = failure other_error 0
second_answer (some done) =
    answer
      (evt_io_device_control Amd.amd_driver affinities (request 320 7) done.globals done.thread)

abbrev machine : Machine
machine = record {
  vendor = bytes "AuthenticAMD";
  opens = λ path. true;
  allocates = λ i. true;
  control = λ i size.
      if i == 0
      then answer (evt_io_device_control Amd.amd_driver affinities (request 12 0) loaded none)
      else second_answer
          (evt_io_device_control Amd.amd_driver affinities (request 12 0) loaded none);
}

abbrev client : DriverClient
client = record { vendor = cpu_vendor_amd; h_device = true; ret_data = [] }

calls-IsServed :
    IsServed Amd.Lawful.IsWellFormed Amd.amd_driver affinities Amd.Lawful.amd_driver-IsLawful
      affinities-IsRestoring respond respond-IsHandedOver machine
      (request 12 0)
      (request 320 7)
      loaded
      none
unfolding ℕ_discrete
calls-IsServed = record {
  asks = refl;
  header_only = refl;
  retrieved = refl;
  same_procs = refl;
  as_required = refl;
  fetches = refl;
  fetch_retrieved = refl;
  ours = fetch-IsAnswerable.ours;
  is_buffer = λ h. (omega arith, omega arith);
  few = omega arith;
  some_metric = omega arith;
  first_call = λ done e. ap answer e;
  second_call = λ done done' e e'. ap second_answer e ∙ ap answer e';
}

run_driver-delivers_example :
    (s' s'' : Amd.Globals) × (ds es : List CpuData) × (collect
        (core_metrics Amd.amd_driver affinities (request 320 7) 1 0 none)
        loaded
      ≡ some (s', ds))
    × (collect (Amd.read_amd_aggregate_metrics s' (λ metric. readings)) s' ≡ some (s'', es))
    × (run_driver 2 machine client ≡ returned (ds ++ es) (ds ++ es))
run_driver-delivers_example =
    run_driver-delivers Amd.Lawful.IsWellFormed Amd.amd_driver affinities
      Amd.Lawful.amd_driver-IsLawful affinities-IsRestoring respond respond-IsHandedOver machine
      (request 12 0) (request 320 7) loaded none calls-IsServed client 0 loaded-IsWellFormed refl
      refl refl

core_power_without_mperf_example :
    (g : Amd.Globals) × (done : Completed Amd.Globals affinities.Thread) × (buffer : CpuDataBuffer)
    × (serve Amd.amd_driver affinities (request 12 0 ∷ []) (driver_entry boot).0 none
        ≡ some (g, none))
    × (evt_io_device_control Amd.amd_driver affinities (request 320 7) g none ≡ some done)
    × (done.status ≡ status_success)
    × (done.buffer ≡ some buffer)
    × All HasNoCorePower (take buffer.entry_count buffer.data_entries)
unfolding ℕ_discrete
core_power_without_mperf_example =
    core_power_without_mperf boot refl affinities affinities-IsRestoring (request 12 0 ∷ [])
      (request 320 7) none ((λ h. (omega arith, omega arith)), tt) fetch-IsAnswerable
