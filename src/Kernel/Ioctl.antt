-- ===== src/Kernel/Ioctl.antt =====
-- drivers/windows/CPU/AMDCPUDriver/amd_cpudriver.c and IntelCPUDriver/intel_cpudriver.c: the handler of
-- IOCTL_GET_DATA, which both drivers have in the same words but for their metrics.
pub mod Metrics
pub mod Safe
pub mod Answerable
pub mod Complete
pub mod Sequence
pub mod Delivery
use hardware_monitor.Device.{sensor_type_eq}
use hardware_monitor.Driver.{
  cpu_vendor_eq, CpuData, CpuVendor, data_size, detect_cpu_vendor, header_size,
}
use hardware_monitor.Kernel.{Readings, u16, u32, u64}
use hardware_monitor.Prelude.{
  Bytes, List, Option, [], if◌then◌else◌, length, list_eq, ltb, nat_eq, none, not, set, some, suc,
  zero, ℕ, ◌*◌, ◌+◌, ◌==◌, ◌^◌, ◌∷◌,
}

-- CTL_CODE(FILE_DEVICE_UNKNOWN, 0x800, METHOD_BUFFERED, FILE_ANY_ACCESS)
abbrev pub ioctl_get_data : ℕ
ioctl_get_data = 0x222000

pub data NtStatus : Type 0 where
  status_success status_invalid_device_request status_buffer_too_small status_buffer_overflow :
      NtStatus
  other_status : ℕ → NtStatus

-- CPU_DATA_BUFFER: the header, and the entries for which the memory behind it has room.
pub record CpuDataBuffer : Type 0 where
  pub required_size : ℕ
  pub processor_count : ℕ
  pub entry_count : ℕ
  pub data_entries : List CpuData

-- A metric procedure reads and changes the driver's globals; `none` is an access outside an array.
abbrev pub Metric : Type 0 → Type 0
Metric S = S → Option (S × CpuData)

-- Buffer, globals and `buf_idx` while metrics are collected.
pub record Collecting (S : Type 0) : Type 0 where
  pub globals : S
  pub buffer : CpuDataBuffer
  pub buf_idx : ℕ

-- `full` is a result of FALSE; `fault` an access outside an array.
pub data Step (S : Type 0) : Type 0 where
  added : Collecting S → Step S
  full : Collecting S → Step S
  fault : Step S

-- A driver: what EvtIoDeviceControl uses of it. `per_core` and `aggregate` are the metrics in the
-- order in which ReadPerCore… and Read…AggregateMetrics add them.
pub record CpuDriver (S : Type 0) : Type 0 where
  pub vendor : CpuVendor
  pub metrics_per_core : ℕ
  pub metrics_aggregate : ℕ
  pub per_core : (cpu_idx : ℕ) → (ℕ → Readings) → List (Metric S)
  pub aggregate : S → (ℕ → Readings) → List (Metric S)

-- The affinity of a thread: `set_affinity` is KeSetSystemGroupAffinityThread with a group and a
-- mask, and gives what it saves; `revert` is KeRevertToUserGroupAffinityThread.
pub record Affinities : Type 1 where
  pub Thread : Type 0
  pub Saved : Type 0
  pub set_affinity : (group mask : ℕ) → Thread → Thread × Saved
  pub revert : Saved → Thread → Thread

-- What a request carries and what the system answers while it is handled. The readings depend on
-- the affinity of the thread; a procedure is named by its place among those of its core.
pub record Request (af : Affinities) : Type 0 where
  pub io_control_code : ℕ
  pub output_buffer_length : ℕ
  -- The status of WdfRequestRetrieveOutputBuffer where it fails.
  pub retrieve_error : Option ℕ
  -- The entries that the buffer has room for, as they are before the call.
  pub memory : List CpuData
  pub total_procs : ℕ
  -- Group and number of a processor, `none` where KeGetProcessorNumberFromIndex fails.
  pub processor_number : ℕ → Option (ℕ × ℕ)
  pub vendor : Bytes
  pub readings : af.Thread → ℕ → Readings

pub record Completed (S : Type 0) (Thread : Type 0) : Type 0 where
  pub globals : S
  pub thread : Thread
  pub status : NtStatus
  pub information : ℕ
  -- `none` where the handler has not taken the buffer.
  pub buffer : Option CpuDataBuffer

module _ {S : Type 0} where
  -- tryAddTelemetryData, the globals and the index left to the caller.
  unfoldable pub try_add_telemetry_data : (buffer_capacity : ℕ) → CpuData → Collecting S → Step S
  try_add_telemetry_data buffer_capacity d c =
      let needed = u32 (header_size + (c.buf_idx + 1) * data_size) in
      if ltb buffer_capacity needed
      then full (record c { buffer = record c.buffer { required_size = needed } })
      else if ltb c.buf_idx (length c.buffer.data_entries)
      then added (record c {
        buffer = record c.buffer { data_entries = set c.buffer.data_entries c.buf_idx d };
      })
      else fault

  -- `(*buffer_idx)++` on a USHORT.
  unfoldable pub count_entry : Step S → Step S
  count_entry (added c) = added (record c { buf_idx = u16 (c.buf_idx + 1) })
  count_entry (full c) = full c
  count_entry fault = fault

  -- `CPU_DATA x = ret…(); if (!tryAddTelemetryData(…)) return FALSE; (*buffer_idx)++;`
  unfoldable pub add_metric : (buffer_capacity : ℕ) → Metric S → Collecting S → Step S
  unfolding try_add_telemetry_data count_entry
  add_metric buffer_capacity metric c = elim (metric c.globals) [
    | none ↦ fault
    | some (globals, d) ↦
        count_entry (try_add_telemetry_data buffer_capacity d (record c { globals = globals }))
  ]

  infixl 5 ◌>>=◌
  abbrev pub ◌>>=◌ : Step S → (Collecting S → Step S) → Step S
  added c >>= k = k c
  full c >>= k = full c
  fault >>= k = fault

  -- ReadPerCore… or Read…AggregateMetrics: one metric after the other.
  unfoldable pub add_metrics : (buffer_capacity : ℕ) → List (Metric S) → Collecting S → Step S
  unfolding add_metric
  add_metrics buffer_capacity [] c = added c
  add_metrics buffer_capacity (metric ∷ metrics) c =
      add_metric buffer_capacity metric c >>= add_metrics buffer_capacity metrics

module _ {S : Type 0} (drv : CpuDriver S) (af : Affinities) where
  open af use {Thread, Saved, set_affinity, revert}

  abbrev pub Done : Type 0
  Done = Completed S Thread

  -- `affinity_saved ? NULL : &old_affinity`
  abbrev pub keep_first : Option Saved → Saved → Option Saved
  keep_first none saved = some saved
  keep_first (some old) saved = some old

  module _ (r : Request af) where
    abbrev pub capacity : ℕ
    capacity = u32 r.output_buffer_length

    -- The loop over the processors from `i` on, `left` to go: the affinity, what was saved of it, and
    -- how the last round ended.
    unfoldable pub read_cores :
        (left i : ℕ) → Thread → Option Saved → Step S → Thread × Option Saved × Step S
    unfolding add_metrics
    read_cores zero i thread old step = (thread, old, step)
    read_cores (suc left) i thread old (full c) = (thread, old, full c)
    read_cores (suc left) i thread old fault = (thread, old, fault)
    read_cores (suc left) i thread old (added c) = elim (r.processor_number i) [
      | none ↦ read_cores left (i + 1) thread old (added c)
      | some (group, number) ↦
          let (thread', saved) = set_affinity group (u64 (2 ^ number)) thread in
          read_cores left (i + 1) thread' (keep_first old saved)
            (add_metrics capacity (drv.per_core i (r.readings thread')) c)
    ]

    -- `if (affinity_saved) KeRevertToUserGroupAffinityThread(&old_affinity)`
    abbrev pub restored : Thread → Option Saved → Thread
    restored thread none = thread
    restored thread (some saved) = revert saved thread

    -- The end of the handler: after all metrics, or where one did not fit.
    unfoldable pub finish : Thread → Step S → Option Done
    finish thread fault = none
    finish thread (full c) = some (record {
      globals = c.globals;
      thread = thread;
      status = status_buffer_overflow;
      information = header_size;
      buffer = some (record c.buffer {
        required_size =
            u32 (
              header_size + (c.buf_idx + drv.metrics_per_core + drv.metrics_aggregate) * data_size);
      });
    })
    finish thread (added c) = some (record {
      globals = c.globals;
      thread = thread;
      status = status_success;
      information = u32 (header_size + c.buf_idx * data_size);
      buffer = some (record c.buffer { entry_count = c.buf_idx });
    })

    -- From the first core to the end.
    unfoldable pub read_all : S → Thread → CpuDataBuffer → Option Done
    unfolding read_cores finish add_metrics
    read_all globals thread buffer =
        let (thread', old, step) =
          read_cores r.total_procs 0 thread none
            (added (record { globals = globals; buffer = buffer; buf_idx = 0 })) in
        let thread'' = restored thread' old in
        finish thread''
          (step >>= λ c. add_metrics capacity (drv.aggregate c.globals (r.readings thread'')) c)

    abbrev pub required_size : ℕ
    required_size = u32 (
        header_size
        + u32 (drv.metrics_per_core * r.total_procs + drv.metrics_aggregate) * data_size)

    abbrev pub completes : S → Thread → NtStatus → ℕ → Option CpuDataBuffer → Option Done
    completes globals thread status information buffer = some (record {
      globals = globals;
      thread = thread;
      status = status;
      information = information;
      buffer = buffer;
    })

    -- EvtIoDeviceControl; `none` is an access outside the output buffer or an array.
    unfoldable pub evt_io_device_control : S → Thread → Option Done
    unfolding read_all detect_cpu_vendor
    evt_io_device_control globals thread =
        let buffer : CpuDataBuffer = record {
          required_size = required_size;
          processor_count = r.total_procs;
          entry_count = 0;
          data_entries = r.memory;
        } in
        if not (r.io_control_code == ioctl_get_data)
        then completes globals thread status_invalid_device_request 0 none
        else if ltb r.output_buffer_length header_size
        then completes globals thread status_buffer_too_small 0 none
        else elim r.retrieve_error [
          | some status ↦ completes globals thread (other_status status) 0 none
          | none ↦
              if ltb r.output_buffer_length required_size
              then completes globals thread status_buffer_overflow header_size (some buffer)
              else if not (detect_cpu_vendor r.vendor == drv.vendor)
              then completes globals thread status_invalid_device_request 0 (some buffer)
              else read_all globals thread buffer
        ]
