-- ===== src/Kernel.antt =====
-- drivers/windows/CPU: what the AMD and the Intel driver share; amd_cpudriver.c and
-- intel_cpudriver.c have the same text for it.
pub mod Ioctl
pub mod Values
pub mod Loaded
pub mod Lifecycle
pub mod Client
pub mod Names
pub mod Amd
pub mod Intel
use hardware_monitor.Prelude.{
  Bool-cases, List, Option, Option-cases, arith, get_elem?, inl, inr, leb-false,
  length-le_of_missing, length-set, none, refl, set, some, ◌∙◌, ◌≡◌, Bool, Bytes, [], bytes,
  if◌then◌else◌, leb, length, list_eq, ltb, nat_eq, not, reverse, sub64, suc, zero, ℕ, ◌%◌, ◌*◌,
  ◌++◌, ◌+◌, ◌-◌, ◌/◌, ◌==◌, ◌^◌, ◌||◌, ◌∷◌,
}
use hardware_monitor.Device.{sensor_type_eq}
use hardware_monitor.Driver.{CpuData}

-- `(x & GENMASK(high, low)) >> low`.
abbrev pub field : (high low x : ℕ) → ℕ
field high low x = x / 2 ^ low % 2 ^ (high - low + 1)

-- `(x & (1 << n)) != 0`.
abbrev pub has_bit : (n x : ℕ) → Bool
has_bit n x = x / 2 ^ n % 2 == 1

abbrev pub u16 : ℕ → ℕ
u16 n = n % 2 ^ 16

abbrev pub u32 : ℕ → ℕ
u32 n = n % 2 ^ 32

abbrev pub u64 : ℕ → ℕ
u64 n = n % 2 ^ 64

abbrev pub unit_degrees_c : ℕ
unit_degrees_c = 1

abbrev pub unit_mhz : ℕ
unit_mhz = 3

abbrev pub unit_percent : ℕ
unit_percent = 4

-- cpu_id of a metric that belongs to no core.
abbrev pub no_core : ℕ
no_core = 0xFFFF

-- What the processor and the kernel answer to one metric procedure: registers by their address and
-- leaf, the time stamp and performance counters, and what HalSetBusDataByOffset wrote and
-- HalGetBusDataByOffset read, by the address on the SMN bus.
pub record Readings : Type 0 where
  pub readmsr : ℕ → ℕ
  pub cpuid_eax : ℕ → ℕ
  pub rdtsc : ℕ
  pub qpc : ℕ
  pub smn_written : ℕ
  pub smn_read : ℕ
  pub smn_data : ℕ → ℕ

-- `for (i = 0; text[i] && pos < size - 1; i++) dst[pos++] = text[i]`, with `room` = size - 1 - pos
-- chars left: the chars that are stored.
unfoldable pub copy_text : (room : ℕ) → Bytes → Bytes
copy_text room [] = []
copy_text zero (c ∷ text) = []
copy_text (suc room) (c ∷ text) = c ∷ copy_text room text

-- The `do` loop: at most four decimal digits of `n`, the lowest first.
unfoldable pub digits_of : (room n : ℕ) → Bytes
digits_of zero n = []
digits_of (suc room) n =
    let more = digits_of room (n / 10) in (0x30 + n % 10) ∷ (if n / 10 == 0 then [] else more)

-- What stands in `dst` after such a loop; a loop over the digits is one over them in reverse.
unfoldable pub append_text : (size : ℕ) → Bytes → Bytes → Bytes
unfolding copy_text
append_text size dst text = dst ++ copy_text (size - 1 - length dst) text

-- BuildCoreName: `size` is that of `dst`; what it stores before the final NUL.
unfoldable pub build_core_name : (size idx : ℕ) → Bytes → Bytes
unfolding append_text digits_of
build_core_name size idx suffix =
    let prefix = append_text size [] (bytes "Core ") in
    let numbered = append_text size prefix (reverse (digits_of 4 idx)) in
    append_text size (append_text size numbered (bytes " ")) suffix

-- sizeof(data.name)
abbrev pub name_size : ℕ
name_size = 32

-- The start of each procedure for a core: zeroed data with the core's number, the kind and the name.
unfoldable pub core_data : (type unit cpu_idx : ℕ) → Bytes → CpuData
unfolding build_core_name
core_data type unit cpu_idx suffix = record {
  value = 0;
  name = build_core_name name_size cpu_idx suffix;
  type = type;
  unit = unit;
  cpu_id = u16 cpu_idx;
}

unfoldable pub package_data : (type unit : ℕ) → Bytes → CpuData
package_data type unit name = record {
  value = 0;
  name = name;
  type = type;
  unit = unit;
  cpu_id = no_core;
}

abbrev pub with_value : CpuData → ℕ → CpuData
with_value d v = record d { value = v }

-- `if (… || !g_core_state || cpu_idx >= g_max_procs) return data;` and the use of the core's state in
-- the array: the array after it and the data, `none` for an access outside. `core_state` is none
-- where the pointer is NULL.
unfoldable pub on_core :
    {C : Type 0} (max_procs cpu_idx : ℕ)
    → CpuData
    → (C → C × CpuData)
    → Option (List C)
    → Option (Option (List C) × CpuData)
on_core max_procs cpu_idx d use_state none = some (none, d)
on_core max_procs cpu_idx d use_state (some cores) =
    if leb max_procs cpu_idx then some (some cores, d) else elim (get_elem? cores cpu_idx) [
      | none ↦ none
      | some state ↦
          let (state', d') = use_state state in some (some (set cores cpu_idx state'), d')
    ]

-- The array has a state for each processor that was active when the driver was loaded.
abbrev pub IsFull : {C : Type 0} → (max_procs : ℕ) → Option (List C) → Type 0
IsFull max_procs none = Unit {0}
IsFull max_procs (some cores) = length cores ≡ max_procs

pub on_core-IsFull :
    {C : Type 0} (max_procs i : ℕ) (d : CpuData) (use_state : C → C × CpuData)
    (core_state : Option (List C))
    → IsFull max_procs core_state
    → (core_state' : Option (List C)) × (d' : CpuData) × (on_core max_procs i d use_state core_state
        ≡ some (core_state', d'))
      × IsFull max_procs core_state'
unfolding on_core
on_core-IsFull max_procs i d use_state none full = (none, d, refl, tt)
on_core-IsFull max_procs i d use_state (some cores) full = elim (Bool-cases (leb max_procs i)) [
  | inl outside ↦ (some cores, d, rw outside, full)
  | inr inside ↦ elim (Option-cases (get_elem? cores i)) [
    | inl missing ↦
        absurd
          (omega (arith, length-le_of_missing cores i missing, full, leb-false max_procs i inside))
    | inr (state, there) ↦ (
      some (set cores i (use_state state).0),
      (use_state state).1,
      rw (inside, there),
      length-set cores i (use_state state).0 ∙ full,
    )
  ]
]

-- Load in percent from two samples of MPERF and of the time stamp counter.
unfoldable pub load_percent : (curr_mperf prev_mperf curr_tsc prev_tsc : ℕ) → ℕ
load_percent curr_mperf prev_mperf curr_tsc prev_tsc =
    let mperf_delta = sub64 curr_mperf prev_mperf in
    let tsc_delta = sub64 curr_tsc prev_tsc in
    let load = u32 (u64 (mperf_delta * 100) / tsc_delta) in
    if ltb 0 tsc_delta then (if ltb 100 load then 100 else load) else 0

-- `energy_delta`: the counter has 32 bits and may have wrapped.
unfoldable pub energy_delta : (curr_energy prev_energy : ℕ) → ℕ
energy_delta curr_energy prev_energy =
    if leb prev_energy curr_energy
    then curr_energy - prev_energy
    else u32 (2 ^ 32 - 1 - prev_energy + curr_energy + 1)

-- `time_ms` from two values of the performance counter, which count up from 0.
unfoldable pub time_ms : (curr_qpc prev_qpc qpc_freq : ℕ) → ℕ
time_ms curr_qpc prev_qpc qpc_freq = u64 (sub64 curr_qpc prev_qpc * 1000) / qpc_freq

-- Power in milliwatts; `divisor` is 2 ^ ESU, the counts in a joule.
unfoldable pub milliwatts :
    (curr_energy prev_energy curr_qpc prev_qpc divisor qpc_freq : ℕ) (has_prev : Bool) → ℕ
unfolding energy_delta time_ms
milliwatts curr_energy prev_energy curr_qpc prev_qpc divisor qpc_freq has_prev =
    let time = time_ms curr_qpc prev_qpc qpc_freq in
    let energy_mj = u64 (energy_delta curr_energy prev_energy * 1000) / divisor in
    if not has_prev || divisor == 0 || qpc_freq == 0
    then 0
    else if time == 0
    then 0
    else u32 (u64 (energy_mj * 1000) / time)
