-- ===== src/Telemetry.antt =====
-- OPC_UA/utils.h and utils.cpp: a snapshot packed for the server, and unpacked by the control center.
pub mod RoundTrip
use hardware_monitor.Prelude.{Bytes, List, Option, [], length, none, some, ℕ, ◌++◌, ◌∷◌}
use hardware_monitor.Queue.{SensorSnapshot, TelemetrySnapshot}

pub record SensorDto (F : Type 0) : Type 0 where
  pub name : Bytes
  pub value : F
  pub unit : Bytes
  pub sensor_type : Bytes

-- UA_ExtensionObject by its encoding. The two decoded forms hold a pointer that may be null, the
-- encoded one a byte string; `other` is any other encoding.
pub data ExtensionObject (F : Type 0) : Type 0 where
  decoded : Option (SensorDto F) → ExtensionObject F
  decoded_nodelete : Option (SensorDto F) → ExtensionObject F
  encoded_bytestring : Bytes → ExtensionObject F
  other : ExtensionObject F

pub record TelemetryStore (F : Type 0) : Type 0 where
  pub name : Bytes
  pub vendor : Bytes
  pub hardware_type : Bytes
  pub dev_sensors_size : ℕ
  -- `none` is the null pointer.
  pub dev_sensors : Option (List (ExtensionObject F))

pub record DecodedSensor (F : Type 0) : Type 0 where
  pub name : Bytes
  pub value : F
  pub unit : Bytes
  pub sensor_type : Bytes

pub record DecodedDevice (F : Type 0) : Type 0 where
  pub name : Bytes
  pub vendor : Bytes
  pub hardware_type : Bytes
  pub sensors : List (DecodedSensor F)

-- What a value node holds: a text, an array of extension objects, or an array that the stack has
-- decoded to the registered type; `blank` has no data.
pub data Variant (F : Type 0) : Type 0 where
  blank : Variant F
  text : Bytes → Variant F
  extension_objects : List (ExtensionObject F) → Variant F
  typed : List (SensorDto F) → Variant F

module _ {F : Type 0} where
  -- The body of the loop of `buildTelemetryStore`.
  abbrev pub to_dto : SensorSnapshot F → SensorDto F
  to_dto sensor = record {
    name = sensor.name;
    value = sensor.value;
    unit = sensor.unit;
    sensor_type = [];
  }

  unfoldable pub to_extension_objects : List (SensorSnapshot F) → List (ExtensionObject F)
  to_extension_objects [] = []
  to_extension_objects (sensor ∷ sensors) =
      decoded (some (to_dto sensor)) ∷ to_extension_objects sensors

  unfoldable pub build_telemetry_store : TelemetrySnapshot F → TelemetryStore F
  unfolding to_extension_objects
  build_telemetry_store snapshot = record {
    name = snapshot.name;
    vendor = snapshot.vendor;
    hardware_type = snapshot.hardware_type;
    dev_sensors_size = length snapshot.sensors;
    dev_sensors = some (to_extension_objects snapshot.sensors);
  }

  unfoldable pub free_telemetry_store : TelemetryStore F → TelemetryStore F
  free_telemetry_store store = elim store.dev_sensors [
    | none ↦ store
    | some _ ↦ record store { dev_sensors = none; dev_sensors_size = 0 }
  ]

  -- `extractSensor`
  unfoldable pub extract_sensor : SensorDto F → DecodedSensor F
  extract_sensor dto = record {
    name = dto.name;
    value = dto.value;
    unit = dto.unit;
    sensor_type = dto.sensor_type;
  }

  unfoldable pub extract_all : List (SensorDto F) → List (DecodedSensor F)
  unfolding extract_sensor
  extract_all [] = []
  extract_all (dto ∷ dtos) = extract_sensor dto ∷ extract_all dtos

  -- The sensor of one extension object, or none where the loop goes on without it. `decode_binary`
  -- is UA_decodeBinary, with `none` for a bad status or a failed UA_new.
  unfoldable pub extract_extension :
      (Bytes → Option (SensorDto F)) → ExtensionObject F → List (DecodedSensor F)
  unfolding extract_sensor
  extract_extension decode_binary (decoded (some dto)) = extract_sensor dto ∷ []
  extract_extension decode_binary (decoded none) = []
  extract_extension decode_binary (decoded_nodelete (some dto)) = extract_sensor dto ∷ []
  extract_extension decode_binary (decoded_nodelete none) = []
  extract_extension decode_binary (encoded_bytestring body) = elim (decode_binary body) [
    | none ↦ []
    | some dto ↦ extract_sensor dto ∷ []
  ]
  extract_extension decode_binary other = []

  unfoldable pub extract_extensions :
      (Bytes → Option (SensorDto F)) → List (ExtensionObject F) → List (DecodedSensor F)
  unfolding extract_extension
  extract_extensions decode_binary [] = []
  extract_extensions decode_binary (ext ∷ exts) =
      extract_extension decode_binary ext ++ extract_extensions decode_binary exts

  unfoldable pub decode_sensor_dtos :
      (Bytes → Option (SensorDto F)) → Variant F → List (DecodedSensor F)
  unfolding extract_all extract_extensions
  decode_sensor_dtos decode_binary blank = []
  decode_sensor_dtos decode_binary (text s) = []
  decode_sensor_dtos decode_binary (typed dtos) = extract_all dtos
  decode_sensor_dtos decode_binary (extension_objects exts) = extract_extensions decode_binary exts

  -- `readStringNode`, on the value that was read.
  unfoldable pub read_string : Variant F → Bytes
  read_string (text s) = s
  read_string blank = []
  read_string (extension_objects exts) = []
  read_string (typed dtos) = []
