-- ===== src/Kernel/Amd/Registers.antt =====
-- drivers/windows/CPU/AMDCPUDriver/amd_cpudriver.c: voltage and temperature.
use hardware_monitor.Kernel.{u32, field}
use hardware_monitor.Prelude.{
  gtb, pos, pos_part, quot, ◌<◌, ◌^◌, arith, if◌then◌else◌, list_eq, nat_eq, ℕ, ◌*◌, ◌+◌, ◌-◌, ◌/◌,
  ◌≡◌, ◌≤◌,
}
use hardware_monitor.Device.{sensor_type_eq}
use hardware_monitor.Kernel.Amd.{signed32, svi2_millivolts, tdie_degrees}

millivolts_of :
    (vid : ℕ)
    → vid < 256
    → let mv = quot (signed32 (u32 (6200 + 2 ^ 32 - vid * 25 + 2))) 4 in
      (if gtb mv (pos 0) then pos_part mv else 0) ≡ (6200 - vid * 25 + 2) / 4
millivolts_of vid h = ground arith

-- The voltage is 1550 mV less 6.25 mV for each step of the 8-bit field, to the nearest millivolt, and
-- 0 where that is negative: the wrap of the unsigned sum and the cast back to LONG do no harm.
pub svi2_millivolts_lem : (raw : ℕ) → svi2_millivolts raw ≡ (6200 - field 23 16 raw * 25 + 2) / 4
unfolding svi2_millivolts
svi2_millivolts_lem raw = millivolts_of (field 23 16 raw) (omega arith)

-- The temperature is never above 150 degrees nor above the eighths of a degree in the register.
pub tdie_degrees_bounds :
    (raw : ℕ) → (tdie_degrees raw ≤ 150) × (tdie_degrees raw ≤ field 31 21 raw / 8)
unfolding tdie_degrees
tdie_degrees_bounds raw = ground arith
