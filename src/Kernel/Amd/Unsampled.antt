-- ===== src/Kernel/Amd/Unsampled.antt =====
-- drivers/windows/CPU/AMDCPUDriver/amd_cpudriver.c: any sequence of requests on a processor without
-- MPERF.
use hardware_monitor.Kernel.{has_bit, core_data, package_data, Readings}
use hardware_monitor.Kernel.Amd.{
  detect_features, ret_core_clock_speed, ret_core_voltage, ret_soc_voltage, ret_tdie_temp, Globals,
  amd_driver, ret_package_power, reads, amd_family_zen, read_per_core_amd_metrics,
  read_amd_aggregate_metrics,
}
use hardware_monitor.Kernel.Amd.Entry.{
  Boot, driver_entry, driver_entry_lem, prepare, prepare-NoSample,
}
use hardware_monitor.Kernel.Ioctl.{
  Affinities, Completed, CpuDataBuffer, Request, evt_io_device_control, status_success, Metric,
}
use hardware_monitor.Kernel.Ioctl.Answerable.{All-append, IsAnswerable, core_metrics-All}
use hardware_monitor.Kernel.Ioctl.Delivery.{evt_io_device_control-Delivers}
use hardware_monitor.Kernel.Ioctl.Safe.{IsBuffer, IsRestoring}
use hardware_monitor.Kernel.Ioctl.Sequence.{serve, serve-Wf}
use hardware_monitor.Prelude.{
  false, sym, take, Option-cases, List, [], arith, inl, inr, ltb, some, subst, ◌∷◌, All, bytes,
  refl, ℕ, ◌≡◌, ◌⊎◌,
}
use hardware_monitor.Driver.{metric_clock_speed, metric_temp, metric_voltage, CpuData, metric_power}
use hardware_monitor.Kernel.Amd.Power.{
  IsUnsampled, Yields, branch-Yielded, ret_core_power-Yields, ret_core_load-Yields,
}
use hardware_monitor.Kernel.Ioctl.Metrics.{IsLawful, Runs}
use hardware_monitor.Kernel.Ioctl.Complete.{collect}

-- An entry that gives the power of a core gives 0.
abbrev pub HasNoCorePower : CpuData → Type 0
HasNoCorePower d = d.type ≡ metric_power → (d.name ≡ bytes "Package Power") ⊎ (d.value ≡ 0)

reads-Yields :
    (f : Globals → CpuData)
    → ((g : Globals) → HasNoCorePower (f g))
    → Yields HasNoCorePower (reads f)
reads-Yields f other g u = (g, f g, refl, other g, u)

weaken : (metric : Metric Globals) → Yields (λ d. d.value ≡ 0) metric → Yields HasNoCorePower metric
weaken metric yields g u =
    let (g', d, e, zero_value, u') = yields g u in (g', d, e, (λ t. inr zero_value), u')

clock_type : (i : ℕ) (r : Readings) → (ret_core_clock_speed i r).type ≡ metric_clock_speed
unfolding ret_core_clock_speed core_data
clock_type i r = ground arith

temp_type : (r : Readings) → (ret_tdie_temp r).type ≡ metric_temp
unfolding ret_tdie_temp package_data
temp_type r = ground arith

core_voltage_type : (r : Readings) (g : Globals) → (ret_core_voltage r g).type ≡ metric_voltage
unfolding ret_core_voltage package_data
core_voltage_type r g = ground arith

soc_voltage_type : (r : Readings) (g : Globals) → (ret_soc_voltage r g).type ≡ metric_voltage
unfolding ret_soc_voltage package_data
soc_voltage_type r g = ground arith

read_per_core_amd_metrics-Yields :
    (i : ℕ) (r : ℕ → Readings) → All (Yields HasNoCorePower) (read_per_core_amd_metrics i r)
read_per_core_amd_metrics-Yields i r = (
  reads-Yields _ (λ g e. absurd (omega (arith, clock_type i (r 0), e))),
  (weaken _ (ret_core_load-Yields i (r 1)), (weaken _ (ret_core_power-Yields i (r 2)), tt)),
)

ret_package_power-Yields : (r : Readings) → Yields HasNoCorePower (ret_package_power r)
unfolding ret_package_power package_data
ret_package_power-Yields r g (wf, lacks, none_yet) =
    branch-Yielded HasNoCorePower (ltb g.family amd_family_zen) _ _
      (g, _, refl, (λ t. inl refl), (wf, lacks, none_yet))
      (_, _, refl, (λ t. inl refl), (wf, lacks, none_yet))

read_amd_aggregate_metrics-Yields :
    (g : Globals) (r : ℕ → Readings) → All (Yields HasNoCorePower) (read_amd_aggregate_metrics g r)
read_amd_aggregate_metrics-Yields g r = (
  reads-Yields _ (λ g e. absurd (omega (arith, temp_type (r 0), e))),
  (
    reads-Yields _ (λ g e. absurd (omega (arith, core_voltage_type (r 1) g, e))),
    (
      reads-Yields _ (λ g e. absurd (omega (arith, soc_voltage_type (r 2) g, e))),
      (ret_package_power-Yields (r 3), tt),
    ),
  ),
)

All-Runs :
    (metrics : List (Metric Globals))
    → All (Yields HasNoCorePower) metrics
    → All (Runs IsUnsampled) metrics
All-Runs [] all = tt
All-Runs (m ∷ metrics) (h, all) =
    ((λ g u. let (g', d, e, _, u') = h g u in (g', d, e, u')), All-Runs metrics all)

-- Without samples the driver is lawful too: no request makes one.
IsUnsampled-IsLawful : IsLawful IsUnsampled amd_driver
IsUnsampled-IsLawful = record {
  per_core_runs =
      λ i r. All-Runs (read_per_core_amd_metrics i r) (read_per_core_amd_metrics-Yields i r);
  aggregate_runs =
      λ g r. All-Runs (read_amd_aggregate_metrics g r) (read_amd_aggregate_metrics-Yields g r);
  per_core_count = λ i r. omega arith;
  aggregate_count = λ g r. omega arith;
}

collect-All :
    (metrics : List (Metric Globals)) (g g' : Globals) (ds : List CpuData)
    → All (Yields HasNoCorePower) metrics
    → IsUnsampled g
    → collect metrics g ≡ some (g', ds)
    → All HasNoCorePower ds × IsUnsampled g'
unfolding collect
collect-All [] g g' ds all u e =
    (subst (All HasNoCorePower) none_given tt, subst IsUnsampled same u)
  where
    none_given : [] ≡ ds
    none_given = cc e

    same : g ≡ g'
    same = cc e
collect-All (m ∷ metrics) g g' ds (h, all) u e =
    let (g1, d, ran, no_power, u1) = h g u in
    elim (Option-cases (collect metrics g1)) [
      | inl missing ↦ absurd (ground (arith, ran, missing, e))
      | inr ((g2, es), found) ↦
          let (rest, u2) = collect-All metrics g1 g2 es all u1 found in
          let given : d ∷ es ≡ ds = ground (arith, ran, found, e) in
          let same : g2 ≡ g' = ground (arith, ran, found, e) in
          (subst (All HasNoCorePower) given (no_power, rest), subst IsUnsampled same u2)
    ]

has_mperf_after_load :
    (b : Boot) → has_bit 0 b.therm_ecx ≡ false → (driver_entry b).0.has_mperf ≡ false
unfolding driver_entry prepare detect_features
has_mperf_after_load b lacks = lacks

-- On a processor without MPERF, after a load of the AMD driver and any sequence of requests, a request
-- for the data that the driver can answer is completed with success, and of the entries that it
-- gives, each that is a power, other than the one named "Package Power", is 0: no power of a core
-- is ever reported. The memory of each earlier request is as large as its length says, and
-- reverting an affinity takes back what the first change of it saved.
pub core_power_without_mperf :
    (b : Boot)
    → has_bit 0 b.therm_ecx ≡ false
    → (af : Affinities) → IsRestoring af
    → (before : List (Request af)) (r : Request af) (thread : af.Thread) → All IsBuffer before
    → IsAnswerable amd_driver af r
    → (g : Globals) × (done : Completed Globals af.Thread) × (buffer : CpuDataBuffer) × (serve
          amd_driver af before
          (driver_entry b).0
          thread
        ≡ some (g, thread))
      × (evt_io_device_control amd_driver af r g thread ≡ some done)
      × (done.status ≡ status_success)
      × (done.buffer ≡ some buffer)
      × All HasNoCorePower (take buffer.entry_count buffer.data_entries)
unfolding driver_entry
core_power_without_mperf b lacks af restoring before r thread fits answerable =
    let start : IsUnsampled (driver_entry b).0 =
      ((driver_entry_lem b).0, has_mperf_after_load b lacks, prepare-NoSample b) in
    let (g, served, u) =
      serve-Wf IsUnsampled amd_driver af IsUnsampled-IsLawful restoring before (driver_entry b).0
        thread fits start in
    let (s', s'', ds, es, buffer, cores, rest, done, _, given, _) =
      evt_io_device_control-Delivers IsUnsampled amd_driver af IsUnsampled-IsLawful restoring r g
        thread u answerable in
    let each =
      core_metrics-All amd_driver af r (Yields HasNoCorePower) read_per_core_amd_metrics-Yields
        r.total_procs 0 thread in
    let (no_power, u') = collect-All _ g s' ds each u cores in
    let (no_power', _) =
      collect-All _ s' s'' es (read_amd_aggregate_metrics-Yields s' (r.readings thread)) u' rest in
    (
      g,
      _,
      buffer,
      served,
      done,
      refl,
      refl,
      subst (All HasNoCorePower) (sym given) (All-append HasNoCorePower ds es no_power no_power'),
    )
