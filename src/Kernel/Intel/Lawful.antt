-- ===== src/Kernel/Intel/Lawful.antt =====
-- drivers/windows/CPU/IntelCPUDriver/intel_cpudriver.c: its procedures stay inside the array of core
-- states.
use hardware_monitor.Kernel.Intel.{
  CoreDeltaState, Globals, intel_driver, ret_core_load, ret_tdie_temp, ret_package_power,
  ret_core_domain_power, reads,
}
use hardware_monitor.Kernel.Ioctl.Metrics.{Keeps, branch-Keeps, IsLawful, Runs}
use hardware_monitor.Kernel.Ioctl.{Metric}
use hardware_monitor.Prelude.{
  All, Bool, List, Option, [], false, if◌then◌else◌, length, none, not, some, subst, true, ◌++◌,
  ◌∷◌, ◌≡◌, ◌≤◌, arith, refl, ℕ,
}
use hardware_monitor.Driver.{CpuData}
use hardware_monitor.Kernel.{IsFull, Readings, on_core-IsFull}

abbrev pub IsWellFormed : Globals → Type 0
IsWellFormed g = IsFull g.max_procs g.core_state

reads-Runs : (d : CpuData) → Runs IsWellFormed (reads d)
reads-Runs d g wf = (g, d, refl, wf)

stored-Keeps :
    (g : Globals) (result : Option (Option (List CoreDeltaState) × CpuData))
    → (cores : Option (List CoreDeltaState)) × (d : CpuData) × (result ≡ some (cores, d))
      × IsFull g.max_procs cores
    → Keeps IsWellFormed (elim result [
      | none ↦ none
      | some (cores, d') ↦ some (record g { core_state = cores }, d')
    ])
stored-Keeps g none (cores, d, e, fits) = absurd (cc e)
stored-Keeps g (some (cores', d')) (cores, d, e, fits) =
    (record g { core_state = cores' }, d', refl, subst (IsFull g.max_procs) (cc e) fits)

ret_core_load-Runs : (i : ℕ) (r : Readings) → Runs IsWellFormed (ret_core_load i r)
unfolding ret_core_load
ret_core_load-Runs i r g wf =
    branch-Keeps IsWellFormed (not g.has_mperf) _ _ (g, _, refl, wf)
      (stored-Keeps g _ (on_core-IsFull g.max_procs i _ _ g.core_state wf))

ret_package_power-Runs : (r : Readings) → Runs IsWellFormed (ret_package_power r)
unfolding ret_package_power
ret_package_power-Runs r g wf = (_, _, refl, wf)

ret_core_domain_power-Runs : (r : Readings) → Runs IsWellFormed (ret_core_domain_power r)
unfolding ret_core_domain_power
ret_core_domain_power-Runs r g wf = (_, _, refl, wf)

abbrev aggregate_of : (ℕ → Readings) → (has_pkg_therm has_rapl : Bool) → List (Metric Globals)
aggregate_of r has_pkg_therm has_rapl =
    (if has_pkg_therm then reads (ret_tdie_temp (r 0)) ∷ [] else [])
    ++ (if has_rapl then ret_package_power (r 1) ∷ ret_core_domain_power (r 2) ∷ [] else [])

aggregate-Runs :
    (r : ℕ → Readings) (therm rapl : Bool) → All (Runs IsWellFormed) (aggregate_of r therm rapl)
aggregate-Runs r true true =
    (reads-Runs _, (ret_package_power-Runs (r 1), (ret_core_domain_power-Runs (r 2), tt)))
aggregate-Runs r true false = (reads-Runs _, tt)
aggregate-Runs r false true = (ret_package_power-Runs (r 1), (ret_core_domain_power-Runs (r 2), tt))
aggregate-Runs r false false = tt

length-aggregate : (r : ℕ → Readings) (therm rapl : Bool) → length (aggregate_of r therm rapl) ≤ 3
length-aggregate r true true = omega arith
length-aggregate r true false = omega arith
length-aggregate r false true = omega arith
length-aggregate r false false = omega arith

-- The procedures of the Intel driver never leave the array of core states, which has a state for each
-- processor, and there are at most as many as its constants say.
pub intel_driver-IsLawful : IsLawful IsWellFormed intel_driver
intel_driver-IsLawful = record {
  per_core_runs =
      λ i r. (reads-Runs _, (reads-Runs _, (reads-Runs _, (ret_core_load-Runs i (r 3), tt))));
  aggregate_runs = λ g r. aggregate-Runs r g.has_pkg_therm g.has_rapl;
  per_core_count = λ i r. omega arith;
  aggregate_count = λ g r. length-aggregate r g.has_pkg_therm g.has_rapl;
}
