-- ===== src/Cpu/Readings.antt =====
-- System_Info/hardware/CPU/CPULiveMetrics.cpp: what the sensors of the CPU show after a fetch.
use hardware_monitor.Device.Sensors.{
  value_of-add_sensor, IsDistinct, add_sensor-IsDistinct, value_of,
}
use hardware_monitor.Prelude.{
  arith, Bool, Bytes, List, Option, Option-cases, [], false, if◌then◌else◌, inl, inr, list_eq,
  nat_eq, none, refl, some, ◌&&◌, ◌==◌, ◌∷◌, ◌≡◌,
}
use hardware_monitor.Cpu.{c_string, entry_type, entry_value, fetch_entries, fetch_entry}
use hardware_monitor.Device.{DeviceSensor, SensorType, sensor_type_eq}
use hardware_monitor.Driver.{CpuData}
use hardware_monitor.Floats.{Floats}

module _ (fl : Floats) where
  open fl use {Float}

  abbrev pub is_reading : SensorType → Bytes → CpuData → Bool
  is_reading t name entry = elim (entry_type fl entry.type) [
    | none ↦ false
    | some u ↦ (c_string entry.name == name) && (u == t)
  ]

  -- The value of the last entry that reads this sensor.
  unfoldable pub last_reading : SensorType → Bytes → List CpuData → Option Float
  last_reading t name [] = none
  last_reading t name (entry ∷ entries) = elim (last_reading t name entries) [
    | some v ↦ some v
    | none ↦ if is_reading t name entry then some (entry_value fl entry) else none
  ]

  value_of-fetch_entry :
      (t : SensorType) (name : Bytes) (entry : CpuData) (ss : List (DeviceSensor Float))
      → value_of t name (fetch_entry fl entry ss)
        ≡ (if is_reading t name entry then some (entry_value fl entry) else value_of t name ss)
  unfolding fetch_entry
  value_of-fetch_entry t name entry ss = elim (Option-cases (entry_type fl entry.type)) [
    | inl e ↦ rw (fetch_entry, is_reading, e)
    | inr (u, e) ↦
        rw (fetch_entry, is_reading, e)
          (value_of-add_sensor u t (c_string entry.name) name (entry_value fl entry) ss)
  ]

  -- After a fetch each sensor shows the last entry of its name and type, scaled by its unit, or its
  -- old value if there is none; entries of an unknown type are skipped.
  pub value_of-fetch_entries :
      (t : SensorType) (name : Bytes) (entries : List CpuData) (ss : List (DeviceSensor Float))
      → value_of t name (fetch_entries fl entries ss)
        ≡ elim (last_reading t name entries) [ some v ↦ some v | none ↦ value_of t name ss ]
  unfolding fetch_entries last_reading
  value_of-fetch_entries t name [] ss = refl
  value_of-fetch_entries t name (entry ∷ entries) ss = ground (
    arith,
    value_of-fetch_entries t name entries (fetch_entry fl entry ss),
    value_of-fetch_entry t name entry ss,
  )

  -- A fetch keeps one sensor for each name and type.
  pub fetch_entries-IsDistinct :
      (entries : List CpuData) (ss : List (DeviceSensor Float))
      → IsDistinct ss
      → IsDistinct (fetch_entries fl entries ss)
  unfolding fetch_entries fetch_entry
  fetch_entries-IsDistinct [] ss d = d
  fetch_entries-IsDistinct (entry ∷ entries) ss d =
      fetch_entries-IsDistinct entries (fetch_entry fl entry ss) (one d)
    where
      one : IsDistinct ss → IsDistinct (fetch_entry fl entry ss)
      one d = elim (Option-cases (entry_type fl entry.type)) [
        | inl e ↦ rw (fetch_entry, e) d
        | inr (t, e) ↦
            rw (fetch_entry, e)
              (add_sensor-IsDistinct t (c_string entry.name) (entry_value fl entry) ss d)
      ]
