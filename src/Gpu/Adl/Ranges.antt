-- ===== src/Gpu/Adl/Ranges.antt =====
-- System_Info/hardware/GPU/AMD/AMDLiveGPUMetrics.cpp: the values of a fetch through ADL stay in range.
use hardware_monitor.Prelude.{
  All, Bool-cases, Bytes, Option-cases, [], arith, inl, inr, none, some, true, ℤ, ◌∷◌, ◌≡◌,
}
use hardware_monitor.Gpu.Adl.{
  Activity, Adl, FanSpeed, LogEntry, LogSensor, add_activity, add_entry, add_fan, add_fan_info,
  add_power, add_temperature, fetch_od5, fetch_od6, fetch_odn, log_sensor,
}
use hardware_monitor.Gpu.{valid_value, Query, Sensors, add_valid, answered}
use hardware_monitor.Device.{
  SensorType, add_sensor, clock, fan_speed, is_sensor, power, set_value, temperature, usage,
}
use hardware_monitor.Floats.{Floats}

module _ (fl : Floats) where
  open fl use {Float, of_int}

  -- Every value is in the range that the code accepts for its type.
  abbrev pub InRange : Sensors fl → Type 0
  InRange = All (λ s. valid_value fl s.type s.value ≡ true)

  add_sensor-InRange :
      (t : SensorType) (name : Bytes) (v : Float) (ss : Sensors fl)
      → valid_value fl t v ≡ true
      → InRange ss
      → InRange (add_sensor t name v ss)
  unfolding add_sensor set_value
  add_sensor-InRange t name v [] valid r = (valid, tt)
  add_sensor-InRange t name v (s ∷ ss) valid r = elim (Bool-cases (is_sensor t name s)) [
    | inr other ↦ rw other (r.0, add_sensor-InRange t name v ss valid r.1)
    | inl same ↦ let e : s.type ≡ t = ground arith in rw same (rw e valid, r.1)
  ]

  -- A step that keeps the values in range.
  abbrev Keeps : (Sensors fl → Sensors fl) → Type 0
  Keeps f = (ss : Sensors fl) → InRange ss → InRange (f ss)

  add_valid-InRange : (t : SensorType) (name : Bytes) (v : Float) → Keeps (add_valid fl t name v)
  unfolding add_valid
  add_valid-InRange t name v ss r = elim (Bool-cases (valid_value fl t v)) [
    | inl valid ↦ rw (add_valid, valid) (add_sensor-InRange t name v ss valid r)
    | inr invalid ↦ rw (add_valid, invalid) r
  ]

  answered-InRange :
      {A : Type 0} (q : Query A) (f : A → Sensors fl → Sensors fl)
      → ((a : A) → Keeps (f a))
      → Keeps (answered q f)
  answered-InRange none f k ss r = r
  answered-InRange (some none) f k ss r = r
  answered-InRange (some (some a)) f k ss r = k a ss r

  add_activity-InRange : (a : Activity) → Keeps (add_activity fl a)
  unfolding add_activity
  add_activity-InRange a ss r =
      add_valid-InRange usage _ _ _
        (add_valid-InRange clock _ _ _ (add_valid-InRange clock _ _ ss r))

  add_temperature-InRange : (milli : ℤ) → Keeps (add_temperature fl milli)
  unfolding add_temperature
  add_temperature-InRange milli ss r = add_valid-InRange temperature _ _ ss r

  add_fan-InRange : (rpm : ℤ) → Keeps (add_fan fl rpm)
  unfolding add_fan
  add_fan-InRange rpm ss r = add_valid-InRange fan_speed _ _ ss r

  add_fan_info-InRange : (fan : FanSpeed) → Keeps (add_fan_info fl fan)
  unfolding add_fan_info
  add_fan_info-InRange fan ss r = elim (Bool-cases fan.is_rpm) [
    | inl rpm ↦ rw (add_fan_info, rpm) (add_fan-InRange fan.rpm ss r)
    | inr percent ↦ rw (add_fan_info, percent) r
  ]

  add_power-InRange : (mw : ℤ) → Keeps (add_power fl mw)
  unfolding add_power
  add_power-InRange mw ss r = add_valid-InRange power _ _ ss r

  pub fetch_od5-InRange : (a : Adl) → Keeps (fetch_od5 fl a)
  unfolding fetch_od5
  fetch_od5-InRange a ss r = answered-InRange a.od5_fanspeed (add_fan fl) add_fan-InRange _ (
      answered-InRange a.od5_currentactivity (add_activity fl) add_activity-InRange _
        (answered-InRange a.od5_temperature (add_temperature fl) add_temperature-InRange ss r))

  pub fetch_od6-InRange : (a : Adl) → Keeps (fetch_od6 fl a)
  unfolding fetch_od6
  fetch_od6-InRange a ss r =
      answered-InRange a.od6_fanspeed (add_fan_info fl) add_fan_info-InRange _ (
        answered-InRange a.od6_currentpower (add_power fl) add_power-InRange _ (
          answered-InRange a.od6_currentstatus (add_activity fl) add_activity-InRange _
            (answered-InRange a.od6_temperature (add_temperature fl) add_temperature-InRange ss r)))

  pub fetch_odn-InRange : (a : Adl) → Keeps (fetch_odn fl a)
  unfolding fetch_odn
  fetch_odn-InRange a ss r =
      answered-InRange a.odn_performancestatus (add_activity fl) add_activity-InRange _
        (answered-InRange a.odn_temperature (add_temperature fl) add_temperature-InRange ss r)

  pub add_entry-InRange : (id : LogSensor) (entry : LogEntry) → Keeps (add_entry fl id entry)
  unfolding add_entry
  add_entry-InRange id entry ss r = elim (Bool-cases entry.supported) [
    | inr missing ↦ rw (add_entry, missing) r
    | inl shown ↦ elim (Option-cases (log_sensor fl id)) [
      | inl q ↦ rw (add_entry, shown, q) r
      | inr ((t, name), q) ↦
          rw (add_entry, shown, q) (add_valid-InRange t name (of_int entry.value) ss r)
    ]
  ]
