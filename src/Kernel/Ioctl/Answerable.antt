-- ===== src/Kernel/Ioctl/Answerable.antt =====
-- The handler of IOCTL_GET_DATA of both CPU drivers: requests that the driver can answer, and the
-- procedures that such a request runs.
use hardware_monitor.Device.{sensor_type_eq}
use hardware_monitor.Kernel.{Readings, u32, u64}
use hardware_monitor.Prelude.{
  All, ==_iff, false, list_eq, ltb, nat_eq, true, ◌<◌, ◌==◌, ◌∙◌, List, Option, Option-cases, [],
  arith, inl, inr, none, refl, some, suc, sym, zero, ℕ, ◌*◌, ◌++◌, ◌+◌, ◌^◌, ◌∷◌, ◌≡◌, ◌≤◌,
}
use hardware_monitor.Kernel.Ioctl.{
  status_success, CpuDataBuffer, evt_io_device_control, finish, ioctl_get_data, read_all,
  required_size, Request, Affinities, Step, added, full, fault, ◌>>=◌, add_metrics, add_metric,
  Metric, Collecting, CpuDriver, read_cores, keep_first, capacity,
}
use hardware_monitor.Driver.{data_size, detect_cpu_vendor, header_size, cpu_vendor_eq}
use hardware_monitor.Kernel.Ioctl.Safe.{IsBuffer}
use mathlib.Core.Path.{fun_ext}

>>=_assoc :
    {S : Type 0} (step : Step S) (k l : Collecting S → Step S)
    → ((step >>= k) >>= l) ≡ (step >>= λ c. k c >>= l)
>>=_assoc (added c) k l = refl
>>=_assoc (full c) k l = refl
>>=_assoc fault k l = refl

add_metrics-append :
    {S : Type 0} (size : ℕ) (xs ys : List (Metric S)) (c : Collecting S)
    → add_metrics size (xs ++ ys) c ≡ (add_metrics size xs c >>= add_metrics size ys)
unfolding add_metrics
add_metrics-append size [] ys c = refl
add_metrics-append size (x ∷ xs) ys c =
    rw (fun_ext (add_metrics-append size xs ys))
      (sym (>>=_assoc (add_metric size x c) (add_metrics size xs) (add_metrics size ys)))

pub All-append :
    {A : Type 0} (P : A → Type 0) (xs ys : List A) → All P xs → All P ys → All P (xs ++ ys)
All-append P [] ys p q = q
All-append P (x ∷ xs) ys (h, p) q = (h, All-append P xs ys p q)

module _ {S : Type 0} (drv : CpuDriver S) (af : Affinities) (r : Request af) where
  -- The procedures for the cores from `i` on that have a group and a number, in order, each reading
  -- where the thread then runs.
  unfoldable pub core_metrics : (left i : ℕ) → af.Thread → List (Metric S)
  core_metrics zero i thread = []
  core_metrics (suc left) i thread = elim (r.processor_number i) [
    | none ↦ core_metrics left (i + 1) thread
    | some (group, number) ↦
        let thread' = (af.set_affinity group (u64 (2 ^ number)) thread).0 in
        drv.per_core i (r.readings thread') ++ core_metrics left (i + 1) thread'
  ]

  -- What holds of the procedures for each core holds of those that a request runs.
  pub core_metrics-All :
      (P : Metric S → Type 0)
      → ((i : ℕ) (readings : ℕ → Readings) → All P (drv.per_core i readings))
      → (left i : ℕ) (thread : af.Thread) → All P (core_metrics left i thread)
  unfolding core_metrics
  core_metrics-All P each zero i thread = tt
  core_metrics-All P each (suc left) i thread = elim (Option-cases (r.processor_number i)) [
    | inl e ↦ rw (core_metrics, e) (core_metrics-All P each left (i + 1) thread)
    | inr ((group, number), e) ↦
        let thread' = (af.set_affinity group (u64 (2 ^ number)) thread).0 in
        rw (core_metrics, e)
          (All-append P (drv.per_core i (r.readings thread')) (core_metrics left (i + 1) thread')
            (each i (r.readings thread')) (core_metrics-All P each left (i + 1) thread'))
  ]

  pub read_cores-step :
      (left i : ℕ) (thread : af.Thread) (old : Option af.Saved) (step : Step S)
      → (read_cores drv af r left i thread old step).2
        ≡ (step >>= add_metrics (capacity drv af r) (core_metrics left i thread))
  unfolding read_cores core_metrics add_metrics
  read_cores-step zero i thread old (added c) = refl
  read_cores-step zero i thread old (full c) = refl
  read_cores-step zero i thread old fault = refl
  read_cores-step (suc left) i thread old (full c) = refl
  read_cores-step (suc left) i thread old fault = refl
  read_cores-step (suc left) i thread old (added c) = elim (Option-cases (r.processor_number i)) [
    | inl e ↦ rw (read_cores, core_metrics, e) (read_cores-step left (i + 1) thread old (added c))
    | inr ((group, number), e) ↦
        let next = af.set_affinity group (u64 (2 ^ number)) thread in
        let metrics = drv.per_core i (r.readings next.0) in
        rw (read_cores, core_metrics, e)
          (read_cores-step left (i + 1) next.0 (keep_first drv af old next.1)
              (add_metrics (capacity drv af r) metrics c)
            ∙ sym (
                add_metrics-append (capacity drv af r) metrics (core_metrics left (i + 1) next.0)
                  c))
  ]

  -- The buffer as the handler has prepared it.
  abbrev pub prepared : CpuDataBuffer
  prepared = record {
    required_size = required_size drv af r;
    processor_count = r.total_procs;
    entry_count = 0;
    data_entries = r.memory;
  }

  -- A request for the data that the driver can answer: its own processor, and a buffer that is as
  -- large as it asks for.
  pub record IsAnswerable : Type 0 where
    pub asks : r.io_control_code ≡ ioctl_get_data
    pub retrieved : r.retrieve_error ≡ none
    pub ours : detect_cpu_vendor r.vendor ≡ drv.vendor
    pub is_buffer : IsBuffer r
    pub is_dword : r.output_buffer_length < 2 ^ 32
    pub few : drv.metrics_per_core * r.total_procs + drv.metrics_aggregate < 2 ^ 16
    pub enough :
        header_size + (drv.metrics_per_core * r.total_procs + drv.metrics_aggregate) * data_size
        ≤ r.output_buffer_length

  pub enters :
      (s : S) (thread : af.Thread)
      → IsAnswerable
      → evt_io_device_control drv af r s thread ≡ read_all drv af r s thread prepared
  unfolding evt_io_device_control
  enters s thread h =
      let asked : (r.io_control_code == ioctl_get_data) ≡ true =
        (==_iff r.io_control_code ioctl_get_data).1 h.asks in
      let ours : (detect_cpu_vendor r.vendor == drv.vendor) ≡ true =
        (==_iff (detect_cpu_vendor r.vendor) drv.vendor).1 h.ours in
      let long : ltb r.output_buffer_length header_size ≡ false = ground (arith, h.enough) in
      let enough : ltb r.output_buffer_length (required_size drv af r) ≡ false =
        ground (arith, h.enough, h.few) in
      rw (asked, long, h.retrieved, enough, ours)

  pub ends_at :
      (after thread : af.Thread) (step : Step S) (c c' : Collecting S)
      → after ≡ thread
      → step ≡ added c
      → add_metrics (capacity drv af r) (drv.aggregate c.globals (r.readings thread)) c ≡ added c'
      → finish drv af r after (
          step >>= λ c.
          add_metrics (capacity drv af r) (drv.aggregate c.globals (r.readings after)) c)
        ≡ finish drv af r thread (added c')
  ends_at after thread step c c' e e' e'' = rw (e, e', e'')

  pub finish-added :
      (thread : af.Thread) (c : Collecting S) (n : ℕ)
      → c.buf_idx ≡ n
      → n < 2 ^ 16
      → finish drv af r thread (added c)
        ≡ some (record {
          globals = c.globals;
          thread = thread;
          status = status_success;
          information = header_size + n * data_size;
          buffer = some (record c.buffer { entry_count = c.buf_idx });
        })
  unfolding finish
  finish-added thread c n e small =
      let fits : u32 (header_size + c.buf_idx * data_size) ≡ header_size + n * data_size =
        omega arith in
      rw (finish, fits)
