-- ===== src/Kernel/Amd/Lawful.antt =====
-- drivers/windows/CPU/AMDCPUDriver/amd_cpudriver.c: its procedures stay inside the array of core
-- states.
use hardware_monitor.Kernel.Ioctl.Metrics.{Keeps, branch-Keeps, IsLawful, Runs}
use hardware_monitor.Kernel.{on_core, IsFull, Readings, on_core-IsFull}
use hardware_monitor.Prelude.{List, Option, none, not, some, subst, ◌≡◌, arith, ltb, refl, ℕ}
use hardware_monitor.Driver.{CpuData}
use hardware_monitor.Kernel.Amd.{
  Globals, CoreDeltaState, amd_driver, with_core, ret_core_load, ret_core_power, ret_package_power,
  reads, amd_family_zen,
}

abbrev pub IsWellFormed : Globals → Type 0
IsWellFormed g = IsFull g.max_procs g.core_state

reads-Runs : (f : Globals → CpuData) → Runs IsWellFormed (reads f)
reads-Runs f g wf = (g, f g, refl, wf)

stored-Keeps :
    (g : Globals) (result : Option (Option (List CoreDeltaState) × CpuData))
    → (cores : Option (List CoreDeltaState)) × (d : CpuData) × (result ≡ some (cores, d))
      × IsFull g.max_procs cores
    → Keeps IsWellFormed (elim result [
      | none ↦ none
      | some (cores, d') ↦ some (record g { core_state = cores }, d')
    ])
stored-Keeps g none (cores, d, e, fits) = absurd (cc e)
stored-Keeps g (some (cores', d')) (cores, d, e, fits) =
    (record g { core_state = cores' }, d', refl, subst (IsFull g.max_procs) (cc e) fits)

with_core-Runs :
    (i : ℕ) (d : CpuData) (use_state : CoreDeltaState → CoreDeltaState × CpuData)
    → Runs IsWellFormed (with_core i d use_state)
with_core-Runs i d use_state g wf =
    stored-Keeps g (on_core g.max_procs i d use_state g.core_state)
      (on_core-IsFull g.max_procs i d use_state g.core_state wf)

ret_core_load-Runs : (i : ℕ) (r : Readings) → Runs IsWellFormed (ret_core_load i r)
unfolding ret_core_load
ret_core_load-Runs i r g wf =
    branch-Keeps IsWellFormed (not g.has_mperf) _ _ (g, _, refl, wf) (with_core-Runs i _ _ g wf)

ret_core_power-Runs : (i : ℕ) (r : Readings) → Runs IsWellFormed (ret_core_power i r)
unfolding ret_core_power
ret_core_power-Runs i r g wf =
    branch-Keeps IsWellFormed (ltb g.family amd_family_zen) _ _ (g, _, refl, wf)
      (with_core-Runs i _ _ g wf)

ret_package_power-Runs : (r : Readings) → Runs IsWellFormed (ret_package_power r)
unfolding ret_package_power
ret_package_power-Runs r g wf =
    branch-Keeps IsWellFormed (ltb g.family amd_family_zen) _ _ (g, _, refl, wf) (_, _, refl, wf)

-- The procedures of the AMD driver never leave the array of core states, which has a state for each
-- processor, and there are as many as its constants say.
pub amd_driver-IsLawful : IsLawful IsWellFormed amd_driver
amd_driver-IsLawful = record {
  per_core_runs =
      λ i r. (reads-Runs _, (ret_core_load-Runs i (r 1), (ret_core_power-Runs i (r 2), tt)));
  aggregate_runs =
      λ s r. (reads-Runs _, (reads-Runs _, (reads-Runs _, (ret_package_power-Runs (r 3), tt))));
  per_core_count = λ i r. omega arith;
  aggregate_count = λ s r. omega arith;
}
