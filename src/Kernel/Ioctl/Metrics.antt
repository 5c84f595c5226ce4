-- ===== src/Kernel/Ioctl/Metrics.antt =====
-- The handler of IOCTL_GET_DATA of both CPU drivers: what it relies on of the metric procedures, and
-- that adding metrics stays inside the buffer.
use hardware_monitor.Driver.{CpuData, data_size, header_size, cpu_vendor_eq}
use hardware_monitor.Kernel.Ioctl.{
  Step, added, full, fault, add_metric, ◌>>=◌, Collecting, CpuDriver, Metric, add_metrics,
  count_entry, try_add_telemetry_data,
}
use hardware_monitor.Prelude.{
  Bool, false, if◌then◌else◌, true, list_eq, nat_eq, Bool-cases, Option, arith, inl, inr,
  length-set, ltb, ◌∙◌, All, List, [], length, some, ℕ, ◌*◌, ◌+◌, ◌<◌, ◌^◌, ◌∷◌, ◌≡◌, ◌≤◌,
}
use hardware_monitor.Device.{sensor_type_eq}
use hardware_monitor.Kernel.{u32, Readings}

-- A procedure has run and left well-formed globals.
abbrev pub Keeps : {S : Type 0} → (S → Type 0) → Option (S × CpuData) → Type 0
Keeps {S} Wf result = (s : S) × (d : CpuData) × (result ≡ some (s, d)) × Wf s

pub branch-Keeps :
    {S : Type 0} (Wf : S → Type 0) (b : Bool) (x y : Option (S × CpuData))
    → Keeps Wf x
    → Keeps Wf y
    → Keeps Wf (if b then x else y)
branch-Keeps Wf true x y hx hy = hx
branch-Keeps Wf false x y hx hy = hy

-- A procedure that runs on well-formed globals and keeps them well-formed.
abbrev pub Runs : {S : Type 0} → (S → Type 0) → Metric S → Type 0
Runs {S} Wf metric = (s : S) → Wf s → Keeps Wf (metric s)

-- What a driver's metrics rely on: `Wf` holds of the globals, and then each procedure runs and keeps
-- it. The numbers of metrics are those of the driver's constants.
pub record IsLawful {S : Type 0} (Wf : S → Type 0) (drv : CpuDriver S) : Type 0 where
  pub per_core_runs : (i : ℕ) (readings : ℕ → Readings) → All (Runs Wf) (drv.per_core i readings)
  pub aggregate_runs : (s : S) (readings : ℕ → Readings) → All (Runs Wf) (drv.aggregate s readings)
  pub per_core_count :
      (i : ℕ) (readings : ℕ → Readings) → length (drv.per_core i readings) ≤ drv.metrics_per_core
  pub aggregate_count :
      (s : S) (readings : ℕ → Readings) → length (drv.aggregate s readings) ≤ drv.metrics_aggregate

module _ {S : Type 0} (Wf : S → Type 0) (slots cap : ℕ) where
  abbrev pub IsGood : Collecting S → Type 0
  IsGood c = Wf c.globals × (length c.buffer.data_entries ≡ slots) × (c.buf_idx < 2 ^ 16)

  abbrev pub IsSafe : Step S → Type 0
  IsSafe (added c) = IsGood c
  IsSafe (full c) = IsGood c
  IsSafe fault = ⊥

  module _ (room : cap < header_size + (slots + 1) * data_size) where
    try_add-IsSafe :
        (d : CpuData) (c : Collecting S)
        → IsGood c
        → IsSafe (count_entry (try_add_telemetry_data cap d c))
    unfolding try_add_telemetry_data count_entry
    try_add-IsSafe d c (wf, same, small) =
        elim (Bool-cases (ltb cap (u32 (header_size + (c.buf_idx + 1) * data_size)))) [
          | inl long ↦ rw (try_add_telemetry_data, long) (wf, same, small)
          | inr fits ↦ elim (Bool-cases (ltb c.buf_idx (length c.buffer.data_entries))) [
            | inl inside ↦
                rw (try_add_telemetry_data, fits, inside)
                  (wf, length-set c.buffer.data_entries c.buf_idx d ∙ same, omega arith)
            | inr outside ↦ absurd (ground arith)
          ]
        ]

    add_metric-IsSafe :
        (metric : Metric S) (c : Collecting S)
        → Runs Wf metric
        → IsGood c
        → IsSafe (add_metric cap metric c)
    unfolding add_metric
    add_metric-IsSafe metric c runs (wf, same, small) =
        let (s, d, e, wf') = runs c.globals wf in
        rw (add_metric, e) (try_add-IsSafe d (record c { globals = s }) (wf', same, small))

    pub add_metrics-IsSafe :
        (metrics : List (Metric S)) (c : Collecting S)
        → All (Runs Wf) metrics
        → IsGood c
        → IsSafe (add_metrics cap metrics c)
    unfolding add_metrics
    add_metrics-IsSafe [] c runs good = good
    add_metrics-IsSafe (metric ∷ metrics) c (first, rest) good =
        then_rest (add_metric cap metric c) (add_metric-IsSafe metric c first good)
          (λ c' good'. add_metrics-IsSafe metrics c' rest good')
      where
        then_rest :
            (step : Step S)
            → IsSafe step
            → ((c' : Collecting S) → IsGood c' → IsSafe (add_metrics cap metrics c'))
            → IsSafe (step >>= add_metrics cap metrics)
        then_rest (added c') good' ih = ih c' good'
        then_rest (full c') good' ih = good'
        then_rest fault bad ih = bad
