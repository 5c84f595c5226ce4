-- ===== src/Device/Sensors.antt =====
-- System_Info/hardware/HardwareDevice.h: `addSensor` keeps one sensor for each name and type.
use hardware_monitor.Device.{
  sensor_type_eq, DeviceSensor, SensorType, add_sensor, is_sensor, snapshot_sensors, unit_of,
}
use hardware_monitor.Prelude.{
  Bytes, List, Option, [], arith, if◌then◌else◌, list_eq, map, nat_eq, none, refl, some, ◌&&◌, ◌++◌,
  ◌==◌, ◌∷◌, ◌≡◌,
}
use hardware_monitor.Queue.{SensorSnapshot}

module _ {F : Type 0} where
  -- The value of the first sensor of this name and type.
  unfoldable pub value_of : SensorType → Bytes → List (DeviceSensor F) → Option F
  value_of t name [] = none
  value_of t name (s ∷ ss) = if is_sensor t name s then some s.value else value_of t name ss

  -- Each sensor differs in name or type from those behind it.
  abbrev pub IsDistinct : List (DeviceSensor F) → Type 0
  IsDistinct [] = Unit {0}
  IsDistinct (s ∷ ss) = (value_of s.type s.name ss ≡ none) × IsDistinct ss

  -- A later reading replaces the value of its own sensor and of no other.
  pub value_of-add_sensor :
      (t u : SensorType) (name other : Bytes) (v : F) (ss : List (DeviceSensor F))
      → value_of u other (add_sensor t name v ss)
        ≡ (if (name == other) && (t == u) then some v else value_of u other ss)
  unfolding value_of add_sensor
  value_of-add_sensor t u name other v [] = ground arith
  value_of-add_sensor t u name other v (s ∷ ss) =
      ground (arith, value_of-add_sensor t u name other v ss)

  -- `addSensor` never makes a second sensor of one name and type.
  pub add_sensor-IsDistinct :
      (t : SensorType) (name : Bytes) (v : F) (ss : List (DeviceSensor F))
      → IsDistinct ss
      → IsDistinct (add_sensor t name v ss)
  unfolding add_sensor value_of
  add_sensor-IsDistinct t name v [] d = ground arith
  add_sensor-IsDistinct t name v (s ∷ ss) d =
      ground (
        arith,
        add_sensor-IsDistinct t name v ss d.1,
        value_of-add_sensor t s.type name s.name v ss,
      )

  -- Name and unit of each sensor that a snapshot shows, in order.
  abbrev pub labels : List (SensorSnapshot F) → List (Bytes × Bytes)
  labels = map (λ s. (s.name, s.unit))

  -- A reading keeps the snapshot's rows in place, or adds one row at the end with the unit of its
  -- type; it adds one exactly if the device had no sensor of that name and type.
  pub labels-add_sensor :
      (t : SensorType) (name : Bytes) (v : F) (ss : List (DeviceSensor F))
      → labels (snapshot_sensors (add_sensor t name v ss)) ≡ elim (value_of t name ss) [
        | some _ ↦ labels (snapshot_sensors ss)
        | none ↦ labels (snapshot_sensors ss) ++ (name, unit_of t) ∷ []
      ]
  unfolding add_sensor value_of snapshot_sensors
  labels-add_sensor t name v [] = refl
  labels-add_sensor t name v (s ∷ ss) = ground (arith, labels-add_sensor t name v ss)
