-- ===== src/Kernel/Values.antt =====
-- drivers/windows/CPU: the numbers that both drivers compute.
use hardware_monitor.Prelude.{
  refl, ◌∙◌, if◌then◌else◌, list_eq, nat_eq, not, ◌==◌, ◌||◌, true, arith, sub64, ℕ, ◌*◌, ◌+◌, ◌/◌,
  ◌<◌, ◌^◌, ◌≡◌, ◌≤◌,
}
use hardware_monitor.Device.{sensor_type_eq}
use hardware_monitor.Kernel.{milliwatts, time_ms, energy_delta, load_percent, u32, u64}
use native.Mathlib.Nat.{div-lt_iff_lt-mul, div-le_self, le-div_iff_mul-le}

pub load_percent-le :
    (curr_mperf prev_mperf curr_tsc prev_tsc : ℕ)
    → load_percent curr_mperf prev_mperf curr_tsc prev_tsc ≤ 100
unfolding load_percent
load_percent-le curr_mperf prev_mperf curr_tsc prev_tsc = ground arith

div-le_100 : (busy elapsed : ℕ) → 0 < elapsed → busy ≤ elapsed → busy * 100 / elapsed ≤ 100
div-le_100 busy elapsed some_time h =
    let lt : busy * 100 / elapsed < 101 =
      (div-lt_iff_lt-mul some_time).1 (omega (arith, h, some_time)) in
    omega (arith, lt)

-- The load is 100 times the share of the elapsed time stamps in which MPERF advanced, rounded down,
-- also where either counter of 64 bits wrapped between the samples: for time that has passed, in
-- which MPERF did not run ahead of the time stamps, and less than 2 ^ 64 / 100 ticks.
pub load_percent_lem :
    (mperf tsc busy elapsed : ℕ)
    → mperf < 2 ^ 64
    → tsc < 2 ^ 64
    → 0 < elapsed
    → busy ≤ elapsed
    → elapsed * 100 < 2 ^ 64
    → load_percent (u64 (mperf + busy)) mperf (u64 (tsc + elapsed)) tsc ≡ busy * 100 / elapsed
unfolding load_percent
load_percent_lem mperf tsc busy elapsed p q some_time ahead short =
    let busy_is : sub64 (u64 (mperf + busy)) mperf ≡ busy = omega arith in
    let elapsed_is : sub64 (u64 (tsc + elapsed)) tsc ≡ elapsed = omega arith in
    let le = div-le_100 busy elapsed some_time ahead in
    let whole : u64 (busy * 100) ≡ busy * 100 = omega arith in
    rw (busy_is, elapsed_is, whole) (ground arith)

-- The energy between two samples is their difference, also when the counter of 32 bits wrapped once.
pub energy_delta_lem :
    (prev used : ℕ) → prev < 2 ^ 32 → used < 2 ^ 32 → energy_delta (u32 (prev + used)) prev ≡ used
unfolding energy_delta
energy_delta_lem prev used p q = ground arith

milliwatts_of :
    (energy time divisor qpc_freq : ℕ)
    → energy < 2 ^ 32
    → 0 < divisor
    → 0 < qpc_freq
    → 0 < time
    → energy * 1000 / divisor * 1000 / time < 2 ^ 32
    → (if not true || divisor == 0 || qpc_freq == 0
        then 0
        else if time == 0
        then 0
        else u32 (u64 (u64 (energy * 1000) / divisor * 1000) / time))
      ≡ energy * 1000 / divisor * 1000 / time
milliwatts_of energy time divisor qpc_freq few some_unit some_freq some_time fits =
    let whole : u64 (energy * 1000) ≡ energy * 1000 = omega arith in
    let less = div-le_self (energy * 1000) divisor in
    let whole' : u64 (energy * 1000 / divisor * 1000) ≡ energy * 1000 / divisor * 1000 =
      omega (arith, less) in
    rw (whole, whole') (ground arith)

opened :
    (curr prev curr_qpc prev_qpc divisor qpc_freq : ℕ)
    → milliwatts curr prev curr_qpc prev_qpc divisor qpc_freq true ≡ (
        if not true || divisor == 0 || qpc_freq == 0
        then 0
        else if time_ms curr_qpc prev_qpc qpc_freq == 0
        then 0
        else u32 (
            u64 (u64 (energy_delta curr prev * 1000) / divisor * 1000)
            / time_ms curr_qpc prev_qpc qpc_freq))
unfolding milliwatts
opened curr prev curr_qpc prev_qpc divisor qpc_freq = refl

time_ms_lem :
    (qpc ticks qpc_freq : ℕ)
    → qpc + ticks < 2 ^ 63
    → ticks * 1000 < 2 ^ 64
    → time_ms (qpc + ticks) qpc qpc_freq ≡ ticks * 1000 / qpc_freq
unfolding time_ms
time_ms_lem qpc ticks qpc_freq far short =
    let ticks_are : sub64 (qpc + ticks) qpc ≡ ticks = omega arith in
    let whole : u64 (ticks * 1000) ≡ ticks * 1000 = omega arith in rw (ticks_are, whole)

-- The power between two samples of the energy counter, as both drivers compute it: the energy used
-- in thousandths of a joule, rounded down, over the milliseconds that passed; also where the energy
-- counter of 32 bits wrapped once between the samples. This is for a time of at least a millisecond
-- and a power that fits 32 bits; the products of 64 bits do not overflow then.
pub milliwatts_lem :
    (prev used qpc ticks divisor qpc_freq : ℕ)
    → prev < 2 ^ 32
    → used < 2 ^ 32
    → 0 < divisor
    → 0 < qpc_freq
    → qpc + ticks < 2 ^ 63
    → ticks * 1000 < 2 ^ 64
    → qpc_freq ≤ ticks * 1000
    → used * 1000 / divisor * 1000 / (ticks * 1000 / qpc_freq) < 2 ^ 32
    → milliwatts (u32 (prev + used)) prev (qpc + ticks) qpc divisor qpc_freq true
      ≡ used * 1000 / divisor * 1000 / (ticks * 1000 / qpc_freq)
milliwatts_lem prev used qpc ticks divisor qpc_freq p q some_unit some_freq far short long fits =
    let delta : energy_delta (u32 (prev + used)) prev ≡ used = energy_delta_lem prev used p q in
    let time = time_ms_lem qpc ticks qpc_freq far short in
    let some_time : 0 < ticks * 1000 / qpc_freq =
      (le-div_iff_mul-le some_freq).1 (omega (arith, long)) in
    opened (u32 (prev + used)) prev (qpc + ticks) qpc divisor qpc_freq
    ∙ rw (delta, time)
        (milliwatts_of used (ticks * 1000 / qpc_freq) divisor qpc_freq q some_unit some_freq
          some_time fits)
