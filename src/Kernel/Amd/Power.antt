-- ===== src/Kernel/Amd/Power.antt =====
-- drivers/windows/CPU/AMDCPUDriver/amd_cpudriver.c: the power of a core on processors without MPERF.
use hardware_monitor.Kernel.Ioctl.{Metric}
use hardware_monitor.Prelude.{
  length-set, ◌∙◌, Bool, Bool-cases, Option-cases, ap, inl, inr, leb, leb-false,
  length-le_of_missing, ltb, not, true, All, List, Option, [], false, get_elem?, none, refl, set,
  some, subst, suc, zero, ◌∷◌, arith, if◌then◌else◌, list_eq, nat_eq, ℕ, ◌≡◌,
}
use hardware_monitor.Kernel.{IsFull, core_data, on_core, Readings, milliwatts, u32}
use hardware_monitor.Device.{sensor_type_eq}
use hardware_monitor.Driver.{CpuData}
use hardware_monitor.Kernel.Amd.Lawful.{IsWellFormed}
use hardware_monitor.Kernel.Amd.{
  Globals, CoreDeltaState, ret_core_power, ret_core_load, amd_family_zen,
  amd_msr_core_energy_status,
}

-- No core has had a sample of its load.
abbrev pub NoSample : Option (List CoreDeltaState) → Type 0
NoSample none = Unit {0}
NoSample (some cores) = All (λ core. core.valid ≡ false) cores

All-set :
    {A : Type 0} (P : A → Type 0) (xs : List A) (i : ℕ) (x : A)
    → All P xs
    → P x
    → All P (set xs i x)
All-set P [] i x all p = tt
All-set P (y ∷ xs) zero x (h, all) p = (p, all)
All-set P (y ∷ xs) (suc i) x (h, all) p = (h, All-set P xs i x all p)

All-get :
    {A : Type 0} (P : A → Type 0) (xs : List A) (i : ℕ) (x : A)
    → All P xs
    → get_elem? xs i ≡ some x
    → P x
All-get P [] i x all e = absurd (cc e)
All-get P (y ∷ xs) zero x (h, all) e = subst P (cc e) h
All-get P (y ∷ xs) (suc i) x (h, all) e = All-get P xs i x all e

milliwatts_unsampled :
    (curr prev curr_qpc prev_qpc divisor qpc_freq : ℕ)
    → milliwatts curr prev curr_qpc prev_qpc divisor qpc_freq false ≡ 0
unfolding milliwatts
milliwatts_unsampled curr prev curr_qpc prev_qpc divisor qpc_freq = refl

-- The processor has no MPERF, and no core has had a sample.
abbrev pub IsUnsampled : Globals → Type 0
IsUnsampled g = IsWellFormed g × (g.has_mperf ≡ false) × NoSample g.core_state

-- What a procedure does to a state that has no sample.
abbrev StaysUnsampled : (CoreDeltaState → CoreDeltaState × CpuData) → Type 0
StaysUnsampled use_state =
    (state : CoreDeltaState)
    → state.valid ≡ false
    → ((use_state state).0.valid ≡ false) × ((use_state state).1.value ≡ 0)

on_core_unsampled :
    (max_procs i : ℕ) (d : CpuData) (use_state : CoreDeltaState → CoreDeltaState × CpuData)
    (core_state : Option (List CoreDeltaState))
    → d.value ≡ 0
    → StaysUnsampled use_state
    → IsFull max_procs core_state
    → NoSample core_state
    → (core_state' : Option (List CoreDeltaState)) × (d' : CpuData) × (on_core max_procs i d
          use_state core_state
        ≡ some (core_state', d'))
      × (d'.value ≡ 0)
      × IsFull max_procs core_state'
      × NoSample core_state'
unfolding on_core
on_core_unsampled max_procs i d use_state none zeroed stays fits none_yet =
    (none, d, refl, zeroed, tt, tt)
on_core_unsampled max_procs i d use_state (some cores) zeroed stays fits none_yet =
    elim (Bool-cases (leb max_procs i)) [
      | inl outside ↦ (some cores, d, rw outside, zeroed, fits, none_yet)
      | inr inside ↦ elim (Option-cases (get_elem? cores i)) [
        | inl missing ↦ absurd (
            omega (arith, length-le_of_missing cores i missing, fits, leb-false max_procs i inside))
        | inr (state, there) ↦
            let unsampled = All-get (λ core. core.valid ≡ false) cores i state none_yet there in
            let (still, zero_value) = stays state unsampled in
            (
              some (set cores i (use_state state).0),
              (use_state state).1,
              rw (inside, there),
              zero_value,
              length-set cores i (use_state state).0 ∙ fits,
              All-set (λ core. core.valid ≡ false) cores i (use_state state).0 none_yet still,
            )
      ]
    ]

-- A procedure has run, and its data and the globals that it leaves are as wanted.
abbrev pub Yielded : (CpuData → Type 0) → Option (Globals × CpuData) → Type 0
Yielded P result = (g : Globals) × (d : CpuData) × (result ≡ some (g, d)) × P d × IsUnsampled g

abbrev pub Yields : (CpuData → Type 0) → Metric Globals → Type 0
Yields P metric = (g : Globals) → IsUnsampled g → Yielded P (metric g)

abbrev IsZero : CpuData → Type 0
IsZero d = d.value ≡ 0

stored-Yielded :
    (g : Globals) (result : Option (Option (List CoreDeltaState) × CpuData))
    → g.has_mperf ≡ false
    → (cores : Option (List CoreDeltaState)) × (d : CpuData) × (result ≡ some (cores, d))
      × (d.value ≡ 0)
      × IsFull g.max_procs cores
      × NoSample cores
    → Yielded IsZero (elim result [
      | none ↦ none
      | some (cores, d') ↦ some (record g { core_state = cores }, d')
    ])
stored-Yielded g none lacks (cores, d, e, _, _, _) = absurd (cc e)
stored-Yielded g (some (cores', d')) lacks (cores, d, e, zeroed, fits, none_yet) = (
  record g { core_state = cores' },
  d',
  refl,
  ground (arith, e, zeroed),
  (subst (IsFull g.max_procs) (cc e) fits, lacks, subst NoSample (cc e) none_yet),
)

pub branch-Yielded :
    (P : CpuData → Type 0) (b : Bool) (x y : Option (Globals × CpuData))
    → Yielded P x
    → Yielded P y
    → Yielded P (if b then x else y)
branch-Yielded P true x y hx hy = hx
branch-Yielded P false x y hx hy = hy

pub ret_core_power-Yields : (i : ℕ) (r : Readings) → Yields IsZero (ret_core_power i r)
unfolding ret_core_power core_data
ret_core_power-Yields i r g (wf, lacks, none_yet) =
    branch-Yielded IsZero (ltb g.family amd_family_zen) _ _
      (g, _, refl, refl, (wf, lacks, none_yet))
      (stored-Yielded g _ lacks (
        on_core_unsampled g.max_procs i _ _ g.core_state refl
          (λ state unsampled. (
            unsampled,
            rw unsampled (
                milliwatts_unsampled (u32 (r.readmsr amd_msr_core_energy_status))
                  state.prev_core_energy r.qpc state.prev_core_qpc g.pkg_state.energy_unit_divisor
                  g.qpc_freq),
          ))
          wf none_yet))

-- The procedure for the load, which alone marks a core as sampled, does nothing.
pub ret_core_load-Yields : (i : ℕ) (r : Readings) → Yields IsZero (ret_core_load i r)
unfolding ret_core_load core_data
ret_core_load-Yields i r g (wf, lacks, none_yet) =
    (g, _, early (not g.has_mperf) _ _ (ap not lacks), refl, (wf, lacks, none_yet))
  where
    early : (b : Bool) (x y : Option (Globals × CpuData)) → b ≡ true → (if b then x else y) ≡ x
    early b x y e = ground arith
