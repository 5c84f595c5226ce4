-- ===== src/Device.antt =====
-- System_Info/hardware/HardwareDevice.cpp and .h, DeviceSensor.h: a device and its sensors.
pub mod Sensors
use hardware_monitor.Prelude.{
  Bool, Bytes, Eq, List, [], bytes, if◌then◌else◌, list_eq, nat_eq, ◌&&◌, ◌==◌, ◌∷◌,
}
use hardware_monitor.Queue.{SensorSnapshot, TelemetrySnapshot}

pub data SensorType : Type 0 where
  clock usage temperature power memory voltage fan_speed : SensorType

pub SensorType-discrete : Discrete SensorType
SensorType-discrete = hlevel

instance abbrev pub sensor_type_eq : Eq SensorType
sensor_type_eq = record { discrete = SensorType-discrete }

-- SensorTraits<T>::unit; the source is UTF-8, so the degree sign is two bytes.
unfoldable pub unit_of : SensorType → Bytes
unit_of clock = bytes "MHz"
unit_of usage = bytes "%"
unit_of temperature = 0xC2 ∷ 0xB0 ∷ bytes "C"
unit_of power = bytes "W"
unit_of memory = bytes "MB"
unit_of voltage = bytes "V"
unit_of fan_speed = bytes "RPM"

-- DeviceSensor<T>; T is the field `type`.
pub record DeviceSensor (F : Type 0) : Type 0 where
  pub type : SensorType
  pub name : Bytes
  pub value : F

unfoldable pub set_value : {F : Type 0} → F → DeviceSensor F → DeviceSensor F
set_value v s = record s { value = v }

pub data Vendor : Type 0 where
  nvidia amd intel : Vendor

pub data HardwareType : Type 0 where
  motherboard cpu gpu psu network storage : HardwareType

unfoldable pub vendor_name : Vendor → Bytes
vendor_name nvidia = bytes "NVIDIA"
vendor_name amd = bytes "AMD"
vendor_name intel = bytes "INTEL"

unfoldable pub hardware_type_name : HardwareType → Bytes
hardware_type_name motherboard = bytes "Motherboard"
hardware_type_name cpu = bytes "CPU"
hardware_type_name gpu = bytes "GPU"
hardware_type_name psu = bytes "PSU"
hardware_type_name network = bytes "Network"
hardware_type_name storage = bytes "Storage"

pub record HardwareDevice (F : Type 0) : Type 0 where
  pub vendor : Vendor
  pub hw_type : HardwareType
  pub name : Bytes
  pub dev_sensors : List (DeviceSensor F)

module _ {F : Type 0} where
  -- `sensor->getName() == name && sensor->getType() == T`.
  abbrev pub is_sensor : SensorType → Bytes → DeviceSensor F → Bool
  is_sensor t name sensor = (sensor.name == name) && (sensor.type == t)

  -- `addSensor<T>`: the first sensor of that name and type is set, or a new one goes to the end.
  unfoldable pub add_sensor : SensorType → Bytes → F → List (DeviceSensor F) → List (DeviceSensor F)
  unfolding set_value
  add_sensor t name value [] = record { type = t; name = name; value = value } ∷ []
  add_sensor t name value (sensor ∷ sensors) =
      if is_sensor t name sensor
      then set_value value sensor ∷ sensors
      else sensor ∷ add_sensor t name value sensors

  unfoldable pub snapshot_sensors : List (DeviceSensor F) → List (SensorSnapshot F)
  unfolding unit_of
  snapshot_sensors [] = []
  snapshot_sensors (sensor ∷ sensors) =
      record { name = sensor.name; value = sensor.value; unit = unit_of sensor.type }
      ∷ snapshot_sensors sensors

  unfoldable pub snapshot : HardwareDevice F → TelemetrySnapshot F
  unfolding snapshot_sensors vendor_name hardware_type_name
  snapshot device = record {
    name = device.name;
    vendor = vendor_name device.vendor;
    hardware_type = hardware_type_name device.hw_type;
    sensors = snapshot_sensors device.dev_sensors;
  }
