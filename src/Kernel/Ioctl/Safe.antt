-- ===== src/Kernel/Ioctl/Safe.antt =====
-- The handler of IOCTL_GET_DATA of both CPU drivers: it stays inside its arrays and leaves the
-- thread's affinity as it was.
use hardware_monitor.Device.{sensor_type_eq}
use hardware_monitor.Driver.{detect_cpu_vendor, data_size, header_size, cpu_vendor_eq}
use hardware_monitor.Kernel.Ioctl.{
  completes, other_status, required_size, status_buffer_overflow, status_invalid_device_request,
  evt_io_device_control, finish, ioctl_get_data, CpuDataBuffer, Done, read_all, Request, Affinities,
  capacity, keep_first, read_cores, restored, Step, added, full, fault, ◌>>=◌, Collecting,
  CpuDriver, add_metrics,
}
use hardware_monitor.Prelude.{
  Bool, false, if◌then◌else◌, not, true, list_eq, nat_eq, refl, ◌==◌, Option-cases, Option, arith,
  inl, inr, ltb, none, suc, zero, ◌∙◌, length, some, ℕ, ◌*◌, ◌+◌, ◌<◌, ◌^◌, ◌≡◌, ◌≤◌,
}
use hardware_monitor.Kernel.{u64}
use hardware_monitor.Kernel.Ioctl.Metrics.{IsLawful, IsSafe, add_metrics-IsSafe}

-- What the kernel documents of the two calls: what a call of the first saves takes the thread back
-- to where it was before that call.
pub record IsRestoring (af : Affinities) : Type 0 where
  pub reverts :
      (group mask : ℕ) (before now : af.Thread)
      → af.revert (af.set_affinity group mask before).1 now ≡ before

-- The memory of the request is as large as its length says.
abbrev pub IsBuffer : {af : Affinities} → Request af → Type 0
IsBuffer r =
    header_size ≤ r.output_buffer_length
    → (header_size + length r.memory * data_size ≤ r.output_buffer_length)
      × (r.output_buffer_length < header_size + (length r.memory + 1) * data_size)

module _ {S : Type 0} (Wf : S → Type 0) (drv : CpuDriver S) (af : Affinities)
    (lawful : IsLawful Wf drv) (restoring : IsRestoring af) (r : Request af) where
  -- The affinity before the loop can still be had.
  abbrev pub IsKept : af.Thread → af.Thread → Option af.Saved → Type 0
  IsKept before thread none = thread ≡ before
  IsKept before thread (some saved) = (now : af.Thread) → af.revert saved now ≡ before

  set-IsKept :
      (before thread : af.Thread) (old : Option af.Saved) (group mask : ℕ)
      → IsKept before thread old
      → IsKept before
          (af.set_affinity group mask thread).0
          (keep_first drv af old (af.set_affinity group mask thread).1)
  set-IsKept before thread none group mask e = λ now. restoring.reverts group mask thread now ∙ e
  set-IsKept before thread (some saved) group mask kept = kept

  pub restored-IsKept :
      (before thread : af.Thread) (old : Option af.Saved)
      → IsKept before thread old
      → restored drv af r thread old ≡ before
  restored-IsKept before thread none e = e
  restored-IsKept before thread (some saved) kept = kept thread

  module _ (room : capacity drv af r < header_size + (length r.memory + 1) * data_size) where
    abbrev pub EndsSafe : af.Thread → af.Thread × Option af.Saved × Step S → Type 0
    EndsSafe before (thread, old, step) =
        IsKept before thread old × IsSafe Wf (length r.memory) (capacity drv af r) step

    pub read_cores-EndsSafe :
        (left i : ℕ) (before thread : af.Thread) (old : Option af.Saved) (step : Step S)
        → IsKept before thread old
        → IsSafe Wf (length r.memory) (capacity drv af r) step
        → EndsSafe before (read_cores drv af r left i thread old step)
    unfolding read_cores
    read_cores-EndsSafe zero i before thread old step kept safe = (kept, safe)
    read_cores-EndsSafe (suc left) i before thread old (full c) kept safe = (kept, safe)
    read_cores-EndsSafe (suc left) i before thread old (added c) kept safe =
        elim (Option-cases (r.processor_number i)) [
          | inl e ↦
              rw (read_cores, e)
                (read_cores-EndsSafe left (i + 1) before thread old (added c) kept safe)
          | inr ((group, number), e) ↦
              let mask = u64 (2 ^ number) in
              let next = af.set_affinity group mask thread in
              let metrics = drv.per_core i (r.readings next.0) in
              rw (read_cores, e)
                (read_cores-EndsSafe left (i + 1) before next.0 (keep_first drv af old next.1)
                  (add_metrics (capacity drv af r) metrics c)
                  (set-IsKept before thread old group mask kept)
                  (add_metrics-IsSafe Wf (length r.memory) (capacity drv af r) room metrics c
                    (lawful.per_core_runs i (r.readings next.0)) safe))
        ]
    read_cores-EndsSafe (suc left) i before thread old fault kept safe = elim safe [ ]

    aggregate-IsSafe :
        (thread : af.Thread) (step : Step S)
        → IsSafe Wf (length r.memory) (capacity drv af r) step
        → IsSafe Wf (length r.memory) (capacity drv af r) (
            step >>= λ c.
            add_metrics (capacity drv af r) (drv.aggregate c.globals (r.readings thread)) c)
    aggregate-IsSafe thread (added c) safe =
        add_metrics-IsSafe Wf (length r.memory) (capacity drv af r) room
          (drv.aggregate c.globals (r.readings thread)) c
          (lawful.aggregate_runs c.globals (r.readings thread)) safe
    aggregate-IsSafe thread (full c) safe = safe
    aggregate-IsSafe thread fault safe = safe

    finish-IsSafe :
        (before thread : af.Thread) (step : Step S)
        → thread ≡ before
        → IsSafe Wf (length r.memory) (capacity drv af r) step
        → (done : Done drv af) × (finish drv af r thread step ≡ some done)
          × (done.thread ≡ before)
          × Wf done.globals
    unfolding finish
    finish-IsSafe before thread (added c) e (wf, _, _) = (_, refl, e, wf)
    finish-IsSafe before thread (full c) e (wf, _, _) = (_, refl, e, wf)
    finish-IsSafe before thread fault e safe = elim safe [ ]

    read_all-IsSafe :
        (s : S) (thread : af.Thread) (buffer : CpuDataBuffer)
        → Wf s
        → length buffer.data_entries ≡ length r.memory
        → (done : Done drv af) × (read_all drv af r s thread buffer ≡ some done)
          × (done.thread ≡ thread)
          × Wf done.globals
    unfolding read_all
    read_all-IsSafe s thread buffer wf same =
        let start : Collecting S = record { globals = s; buffer = buffer; buf_idx = 0 } in
        let cores = read_cores drv af r r.total_procs 0 thread none (added start) in
        let (kept, safe) =
          read_cores-EndsSafe r.total_procs 0 thread thread none (added start) refl
            (wf, same, omega arith) in
        let after = restored drv af r cores.0 cores.1 in
        finish-IsSafe thread after
          (cores.2 >>= λ c.
            add_metrics (capacity drv af r) (drv.aggregate c.globals (r.readings after)) c)
          (restored-IsKept thread cores.0 cores.1 kept) (aggregate-IsSafe after cores.2 safe)

  abbrev Ends : S → af.Thread → Option (Done drv af) → Type 0
  Ends s thread o =
      (done : Done drv af) × (o ≡ some done) × (done.thread ≡ thread) × Wf done.globals

  branch :
      (s : S) (thread : af.Thread) (b : Bool) (x y : Option (Done drv af))
      → Ends s thread x
      → (b ≡ false → Ends s thread y)
      → Ends s thread (if b then x else y)
  branch s thread true x y hx hy = hx
  branch s thread false x y hx hy = hy refl

  -- For a driver whose procedures run on well-formed globals: whatever a request asks for and
  -- whatever the processor answers, the handler of IOCTL_GET_DATA completes it without touching
  -- memory outside the output buffer and the driver's arrays, leaves the affinity of the thread as
  -- it was, and keeps the globals well-formed. The memory is as large as the length of the request
  -- says, and reverting an affinity takes back what the first change of it saved.
  pub evt_io_device_control-IsSafe :
      (s : S) (thread : af.Thread)
      → Wf s
      → IsBuffer r
      → (done : Done drv af) × (evt_io_device_control drv af r s thread ≡ some done)
        × (done.thread ≡ thread)
        × Wf done.globals
  unfolding evt_io_device_control
  evt_io_device_control-IsSafe s thread wf fits =
      branch s thread (not (r.io_control_code == ioctl_get_data)) _ _ (_, refl, refl, wf)
        λ asked.
          branch s thread (ltb r.output_buffer_length header_size) _ _ (_, refl, refl, wf)
            λ long. by_retrieve r.retrieve_error long
    where
      start : CpuDataBuffer
      start = record {
        required_size = required_size drv af r;
        processor_count = r.total_procs;
        entry_count = 0;
        data_entries = r.memory;
      }

      by_retrieve :
          (error : Option ℕ)
          → ltb r.output_buffer_length header_size ≡ false
          → Ends s thread (elim error [
            | some status ↦ completes drv af r s thread (other_status status) 0 none
            | none ↦
                if ltb r.output_buffer_length (required_size drv af r)
                then completes drv af r s thread status_buffer_overflow header_size (some start)
                else if not (detect_cpu_vendor r.vendor == drv.vendor)
                then completes drv af r s thread status_invalid_device_request 0 (some start)
                else read_all drv af r s thread start
          ])
      by_retrieve (some status) long = (_, refl, refl, wf)
      by_retrieve none long =
          branch s thread (ltb r.output_buffer_length (required_size drv af r)) _ _
            (_, refl, refl, wf)
            λ enough.
              branch s thread (not (detect_cpu_vendor r.vendor == drv.vendor)) _ _
                (_, refl, refl, wf)
                λ ours. read_all-IsSafe (ground (arith, fits)) s thread start wf refl
