-- ===== src/Kernel/Client.antt =====
-- System_Info/driver_client/DriverClient.cpp on top of the CPU drivers: what a call of `runDriver`
-- gets from a driver that is loaded on its processor.
use hardware_monitor.Driver.{
  detect_cpu_vendor, CpuData, Machine, DriverClient, Response, failure, success, more_data,
  is_valid, run_driver, returned, run_loop, pass, header_size, data_size, cpu_vendor_eq,
}
use hardware_monitor.Kernel.{u32}
use hardware_monitor.Kernel.Ioctl.Safe.{IsBuffer, IsRestoring}
use hardware_monitor.Kernel.Ioctl.Metrics.{IsLawful}
use hardware_monitor.Prelude.{
  ◌^◌, length, ◌++◌, ==_iff, List, ap, arith, false, list_eq, ltb, nat_eq, none, refl, some, suc,
  sym, take, true, ℕ, ◌*◌, ◌+◌, ◌<◌, ◌==◌, ◌∙◌, ◌≡◌, ◌≤◌,
}
use hardware_monitor.Kernel.Ioctl.Delivery.{evt_io_device_control-Delivers}
use hardware_monitor.Kernel.Ioctl.Answerable.{core_metrics, IsAnswerable, prepared}
use hardware_monitor.Device.{sensor_type_eq}
use hardware_monitor.Kernel.Ioctl.Complete.{collect}
use hardware_monitor.Kernel.Ioctl.{
  CpuDataBuffer, Request, Affinities, CpuDriver, Completed, evt_io_device_control,
  status_buffer_overflow, status_success, required_size, ioctl_get_data,
}

-- How DeviceIoControl hands a completed request to the caller, as documented: an overflow of the
-- buffer is ERROR_MORE_DATA with the header filled in, and a success fills in what was written.
pub record IsHandedOver {S : Type 0} {Thread : Type 0} (respond : Completed S Thread → Response)
    : Type 0 where
  pub overflow :
      (done : Completed S Thread) (b : CpuDataBuffer)
      → done.status ≡ status_buffer_overflow
      → done.information ≡ header_size
      → done.buffer ≡ some b
      → respond done ≡ failure more_data b.required_size
  pub written :
      (done : Completed S Thread) (b : CpuDataBuffer)
      → done.status ≡ status_success
      → header_size + b.entry_count * data_size ≤ done.information
      → done.buffer ≡ some b
      → (all : List CpuData) × (respond done ≡ success done.information b.entry_count all)
        × (take b.entry_count all ≡ take b.entry_count b.data_entries)

module _ {S : Type 0} (Wf : S → Type 0) (drv : CpuDriver S) (af : Affinities)
    (lawful : IsLawful Wf drv) (restoring : IsRestoring af)
    (respond : Completed S af.Thread → Response) (handed : IsHandedOver respond) where
  -- The first two calls of DeviceIoControl are requests to the driver, one after the other. The
  -- first has a buffer for the header only, and no processor is added in between.
  pub record IsServed (m : Machine) (ask fetch : Request af) (s : S) (thread : af.Thread)
      : Type 0 where
    pub asks : ask.io_control_code ≡ ioctl_get_data
    pub header_only : ask.output_buffer_length ≡ header_size
    pub retrieved : ask.retrieve_error ≡ none
    pub same_procs : ask.total_procs ≡ fetch.total_procs
    pub as_required : fetch.output_buffer_length ≡ required_size drv af ask
    pub fetches : fetch.io_control_code ≡ ioctl_get_data
    pub fetch_retrieved : fetch.retrieve_error ≡ none
    pub ours : detect_cpu_vendor fetch.vendor ≡ drv.vendor
    pub is_buffer : IsBuffer fetch
    pub few : drv.metrics_per_core * fetch.total_procs + drv.metrics_aggregate < 2 ^ 16
    pub some_metric : 0 < drv.metrics_aggregate
    pub first_call :
        (done : Completed S af.Thread)
        → evt_io_device_control drv af ask s thread ≡ some done
        → m.control 0 header_size ≡ respond done
    pub second_call :
        (done done' : Completed S af.Thread)
        → evt_io_device_control drv af ask s thread ≡ some done
        → evt_io_device_control drv af fetch done.globals done.thread ≡ some done'
        → m.control 1 fetch.output_buffer_length ≡ respond done'

  module _ (m : Machine) (ask fetch : Request af) (s : S) (thread : af.Thread)
      (served : IsServed m ask fetch s thread) where
    -- The size that the first call asks for is enough for the second.
    fetch-IsAnswerable : IsAnswerable drv af fetch
    fetch-IsAnswerable =
        let procs = served.same_procs in
        let asked : required_size drv af ask ≡ required_size drv af fetch =
          ap
            (λ n.
              u32
                (header_size + u32 (drv.metrics_per_core * n + drv.metrics_aggregate) * data_size))
            procs in
        let exact : required_size drv af fetch
            ≡ header_size
              + (drv.metrics_per_core * fetch.total_procs + drv.metrics_aggregate) * data_size =
          omega (arith, served.few) in
        record {
          asks = served.fetches;
          retrieved = served.fetch_retrieved;
          ours = served.ours;
          is_buffer = served.is_buffer;
          is_dword = omega (arith, served.as_required, asked, exact, served.few);
          few = served.few;
          enough = omega (arith, served.as_required, asked, exact);
        }

    abbrev asked_back : Completed S af.Thread
    asked_back = record {
      globals = s;
      thread = thread;
      status = status_buffer_overflow;
      information = header_size;
      buffer = some (prepared drv af ask);
    }

    asks_back : evt_io_device_control drv af ask s thread ≡ some asked_back
    unfolding evt_io_device_control
    asks_back =
        let few = served.few in
        let asked : (ask.io_control_code == ioctl_get_data) ≡ true =
          (==_iff ask.io_control_code ioctl_get_data).1 served.asks in
        let long : ltb ask.output_buffer_length header_size ≡ false =
          ground (arith, served.header_only) in
        let short : ltb ask.output_buffer_length (required_size drv af ask) ≡ true =
          ground (arith, served.header_only, served.some_metric, few, served.same_procs) in
        rw (asked, long, served.retrieved, short)

    first_response : m.control 0 header_size ≡ failure more_data fetch.output_buffer_length
    first_response =
        served.first_call asked_back asks_back
        ∙ handed.overflow asked_back (prepared drv af ask) refl refl refl
        ∙ ap (failure more_data) (sym served.as_required)

    run_two :
        (c : DriverClient) (fuel bytes_ret count : ℕ) (all : List CpuData)
        → is_valid c ≡ true
        → m.allocates 0 ≡ true
        → m.allocates 1 ≡ true
        → m.control 1 fetch.output_buffer_length ≡ success bytes_ret count all
        → header_size + count * data_size ≤ bytes_ret
        → run_driver (suc (suc fuel)) m c ≡ returned (take count all) (take count all)
    unfolding run_driver run_loop pass
    run_two c fuel bytes_ret count all valid first second answered fits =
        let enough : ltb bytes_ret (header_size + count * data_size) ≡ false = ground arith in
        rw (valid, first, run_loop, pass, first_response, second, answered, enough)

    -- A client of a driver that is loaded on its own processor: `runDriver` asks once for the size and
    -- once for the data, with a buffer of that size, and then returns. It returns and stores what
    -- the driver's procedures give one after the other, those of the cores in order and then those
    -- of the package. This is where both requests reach the driver, with the same processors and
    -- less than 2 ^ 16 metrics, and the memory for the two buffers is there.
    pub run_driver-delivers :
        (c : DriverClient) (fuel : ℕ)
        → Wf s
        → is_valid c ≡ true
        → m.allocates 0 ≡ true
        → m.allocates 1 ≡ true
        → (s' s'' : S) × (ds es : List CpuData) × (collect
              (core_metrics drv af fetch fetch.total_procs 0 thread)
              s
            ≡ some (s', ds))
          × (collect (drv.aggregate s' (fetch.readings thread)) s' ≡ some (s'', es))
          × (run_driver (suc (suc fuel)) m c ≡ returned (ds ++ es) (ds ++ es))
    run_driver-delivers c fuel wf valid first second =
        let (s', s'', ds, es, buffer, cores, package_run, completed, count, holds, _) =
          evt_io_device_control-Delivers Wf drv af lawful restoring fetch s thread wf
            fetch-IsAnswerable in
        let done : Completed S af.Thread = record {
          globals = s'';
          thread = thread;
          status = status_success;
          information = header_size + length (ds ++ es) * data_size;
          buffer = some buffer;
        } in
        let fits : header_size + buffer.entry_count * data_size ≤ done.information =
          omega (arith, count) in
        let (all, answer, same) = handed.written done buffer refl fits refl in
        let got : take buffer.entry_count all ≡ ds ++ es = same ∙ holds in
        (
          s',
          s'',
          ds,
          es,
          cores,
          package_run,
          run_two c fuel done.information buffer.entry_count all valid first second
                (served.second_call asked_back done asks_back completed ∙ answer) fits
              ∙ ap (λ xs. returned xs xs) got,
        )
