-- ===== src/Kernel/Ioctl/Delivery.antt =====
-- The handler of IOCTL_GET_DATA of both CPU drivers: what a request with a large enough buffer gets.
use hardware_monitor.Device.{sensor_type_eq}
use hardware_monitor.Kernel.Ioctl.Answerable.{
  core_metrics-All, core_metrics, read_cores-step, prepared, IsAnswerable, enters, ends_at,
  finish-added,
}
use hardware_monitor.Kernel.Ioctl.{
  restored, status_success, CpuDataBuffer, evt_io_device_control, finish, read_all, Request,
  Affinities, added, Collecting, CpuDriver, read_cores, capacity,
}
use hardware_monitor.Kernel.{u64}
use hardware_monitor.Prelude.{
  subst, take, list_eq, nat_eq, ◌<◌, ◌∙◌, All, List, Option-cases, arith, inl, inr, length,
  length-append, none, refl, some, suc, sym, zero, ℕ, ◌*◌, ◌++◌, ◌+◌, ◌^◌, ◌≡◌, ◌≤◌,
}
use hardware_monitor.Kernel.Ioctl.Complete.{collect, Agrees, add_metrics-Agrees, Fills-trans}
use hardware_monitor.Driver.{CpuData, data_size, header_size, cpu_vendor_eq}
use hardware_monitor.Kernel.Ioctl.Safe.{restored-IsKept, read_cores-EndsSafe, IsRestoring}
use hardware_monitor.Kernel.Ioctl.Metrics.{IsLawful, Runs}

module _ {S : Type 0} (Wf : S → Type 0) (drv : CpuDriver S) (af : Affinities)
    (lawful : IsLawful Wf drv) (restoring : IsRestoring af) (r : Request af) where
  core_metrics-Runs :
      (left i : ℕ) (thread : af.Thread) → All (Runs Wf) (core_metrics drv af r left i thread)
  core_metrics-Runs left i thread =
      core_metrics-All drv af r (Runs Wf) lawful.per_core_runs left i thread

  length-core_metrics :
      (left i : ℕ) (thread : af.Thread)
      → length (core_metrics drv af r left i thread) ≤ drv.metrics_per_core * left
  unfolding core_metrics
  length-core_metrics zero i thread = omega arith
  length-core_metrics (suc left) i thread = elim (Option-cases (r.processor_number i)) [
    | inl e ↦ rw (core_metrics, e) (grind (arith, length-core_metrics left (i + 1) thread))
    | inr ((group, number), e) ↦
        let thread' = (af.set_affinity group (u64 (2 ^ number)) thread).0 in
        rw (core_metrics, e)
          (grind (
            arith,
            length-append (drv.per_core i (r.readings thread'))
                (core_metrics drv af r left (i + 1) thread'),
            length-core_metrics left (i + 1) thread',
            lawful.per_core_count i (r.readings thread'),
          ))
  ]

  abbrev pub Delivers : S → af.Thread → Type 0
  Delivers s thread =
      (s' s'' : S) × (ds es : List CpuData) × (buffer : CpuDataBuffer) × (collect
          (core_metrics drv af r r.total_procs 0 thread) s
        ≡ some (s', ds))
      × (collect (drv.aggregate s' (r.readings thread)) s' ≡ some (s'', es))
      × (evt_io_device_control drv af r s thread
          ≡ some (record {
            globals = s'';
            thread = thread;
            status = status_success;
            information = header_size + length (ds ++ es) * data_size;
            buffer = some buffer;
          }))
      × (buffer.entry_count ≡ length (ds ++ es))
      × (take buffer.entry_count buffer.data_entries ≡ ds ++ es)
      × Wf s''

  unchanged :
      (s : S) (thread : af.Thread)
      → Wf s
      → IsAnswerable drv af r
      → let start : Collecting S = record {
        globals = s;
        buffer = prepared drv af r;
        buf_idx = 0;
      } in
        let cores = read_cores drv af r r.total_procs 0 thread none (added start) in
        restored drv af r cores.0 cores.1 ≡ thread
  unchanged s thread wf h =
      let start : Collecting S = record { globals = s; buffer = prepared drv af r; buf_idx = 0 } in
      let cores = read_cores drv af r r.total_procs 0 thread none (added start) in
      let (fits, tight) = h.is_buffer (omega (arith, h.enough)) in
      restored-IsKept Wf drv af lawful restoring r thread cores.0 cores.1
        (read_cores-EndsSafe Wf drv af lawful restoring r (omega (arith, tight)) r.total_procs 0
          thread thread none (added start) refl (wf, refl, omega arith)).0

  -- The two runs of procedures, put together.
  delivers :
      (s : S) (thread : af.Thread)
      → Wf s
      → IsAnswerable drv af r
      → (first : Agrees
          (capacity drv af r)
          (core_metrics drv af r r.total_procs 0 thread)
          (record { globals = s; buffer = prepared drv af r; buf_idx = 0 })
          Wf)
      → (second : Agrees
          (capacity drv af r)
          (drv.aggregate first.filled.globals (r.readings thread))
          first.filled
          Wf)
      → length first.gives + length second.gives < 2 ^ 16
      → Delivers s thread
  unfolding read_all
  delivers s thread wf h first second few =
      let start : Collecting S = record { globals = s; buffer = prepared drv af r; buf_idx = 0 } in
      let both = Fills-trans first.fills second.fills in
      let counted : second.filled.buf_idx ≡ length (first.gives ++ second.gives) =
        omega (arith, both.counted) in
      let count = length-append first.gives second.gives in
      let cores = read_cores drv af r r.total_procs 0 thread none (added start) in
      let after = restored drv af r cores.0 cores.1 in
      let back : after ≡ thread = unchanged s thread wf h in
      let steps : cores.2 ≡ added first.filled =
        read_cores-step drv af r r.total_procs 0 thread none (added start) ∙ first.adds_so in
      (
        first.filled.globals,
        second.filled.globals,
        first.gives,
        second.gives,
        record second.filled.buffer { entry_count = second.filled.buf_idx },
        subst
            (λ g. collect (core_metrics drv af r r.total_procs 0 thread) s ≡ some (g, first.gives))
            (sym first.fills.globals_are) first.runs_so,
        subst
            (λ g.
              collect (drv.aggregate first.filled.globals (r.readings thread)) first.filled.globals
              ≡ some (g, second.gives))
            (sym second.fills.globals_are) second.runs_so,
        enters drv af r s thread h
            ∙ ends_at drv af r after thread cores.2 first.filled second.filled back steps
                second.adds_so
            ∙ finish-added drv af r thread second.filled (length (first.gives ++ second.gives))
                counted (omega (arith, count, few)),
        counted,
        both.holds,
        subst Wf (sym second.fills.globals_are) second.keeps,
      )

  -- A request that the driver can answer is completed with success. Of the output buffer the entries
  -- that are counted are exactly those that the procedures give, one after the other with no buffer
  -- between them: those of the cores in order, each read while the thread runs on its core, and
  -- then those of the package. The bytes reported are those of the header and these entries, the
  -- globals are those that the procedures leave, and the thread's affinity is as before.
  pub evt_io_device_control-Delivers :
      (s : S) (thread : af.Thread) → Wf s → IsAnswerable drv af r → Delivers s thread
  unfolding read_all finish
  evt_io_device_control-Delivers s thread wf h =
      let size = capacity drv af r in
      let total = drv.metrics_per_core * r.total_procs + drv.metrics_aggregate in
      let (fits, tight) = h.is_buffer (omega (arith, h.enough)) in
      let room : header_size + length r.memory * data_size ≤ size =
        omega (arith, h.is_dword, fits) in
      let slots : total ≤ length r.memory = omega (arith, h.enough, tight) in
      let few : total < 2 ^ 16 = h.few in
      let cores = core_metrics drv af r r.total_procs 0 thread in
      let n = length-core_metrics r.total_procs 0 thread in
      let first =
        add_metrics-Agrees size (length r.memory) room Wf cores
          (record { globals = s; buffer = prepared drv af r; buf_idx = 0 })
          (core_metrics-Runs r.total_procs 0 thread) wf refl (omega (arith, n, slots))
          (omega (arith, n, few)) in
      let counted : first.filled.buf_idx ≡ length cores =
        omega (arith, first.fills.counted, first.as_many) in
      let s' = first.filled.globals in
      let aggregate = drv.aggregate s' (r.readings thread) in
      let m = lawful.aggregate_count s' (r.readings thread) in
      let second =
        add_metrics-Agrees size (length r.memory) room Wf aggregate first.filled
          (lawful.aggregate_runs s' (r.readings thread))
          (subst Wf (sym first.fills.globals_are) first.keeps) first.fills.same_room
          (omega (arith, n, m, counted, slots)) (omega (arith, n, m, counted, few)) in
      delivers s thread wf h first second (omega (arith, n, m, few, first.as_many, second.as_many))
