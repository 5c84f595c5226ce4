-- ===== src/Telemetry/RoundTrip.antt =====
-- OPC_UA/utils.h and utils.cpp: what is packed by `buildTelemetryStore` is what
-- `decodeSensorDtos` unpacks.
use hardware_monitor.Prelude.{
  Bytes, List, Option, [], ap, length, map, none, refl, some, suc, ◌∙◌, ◌∷◌, ◌≡◌,
}
use hardware_monitor.Queue.{SensorSnapshot, TelemetrySnapshot}
use hardware_monitor.Telemetry.{
  DecodedSensor, ExtensionObject, SensorDto, build_telemetry_store, decode_sensor_dtos, decoded,
  decoded_nodelete, encoded_bytestring, extension_objects, extract_all, extract_extension,
  extract_extensions, free_telemetry_store, to_dto, to_extension_objects, typed,
}

module _ {F : Type 0} where
  -- A sensor as the control center should see it.
  abbrev pub seen : SensorSnapshot F → DecodedSensor F
  seen sensor = record {
    name = sensor.name;
    value = sensor.value;
    unit = sensor.unit;
    sensor_type = [];
  }

  -- The forms in which the stack may hand over one packed sensor: as packed, by reference, or
  -- encoded by an encoder that `decode_binary` inverts.
  pub data Carries (decode_binary : Bytes → Option (SensorDto F))
      : ExtensionObject F → ExtensionObject F → Type 0 where
    as_packed : (ext : ExtensionObject F) → Carries decode_binary ext ext
    by_reference :
        (dto : Option (SensorDto F)) → Carries decode_binary (decoded dto) (decoded_nodelete dto)
    encoded :
        (dto : SensorDto F) (body : Bytes)
        → decode_binary body ≡ some dto
        → Carries decode_binary (decoded (some dto)) (encoded_bytestring body)

  pub data CarriesAll (decode_binary : Bytes → Option (SensorDto F))
      : List (ExtensionObject F) → List (ExtensionObject F) → Type 0 where
    done : CarriesAll decode_binary [] []
    next :
        {x y : ExtensionObject F} {xs ys : List (ExtensionObject F)}
        → Carries decode_binary x y
        → CarriesAll decode_binary xs ys
        → CarriesAll decode_binary (x ∷ xs) (y ∷ ys)

  module _ (decode_binary : Bytes → Option (SensorDto F)) where
    extract-Carries :
        {x y : ExtensionObject F}
        → Carries decode_binary x y
        → extract_extension decode_binary y ≡ extract_extension decode_binary x
    unfolding extract_extension
    extract-Carries (as_packed ext) = refl
    extract-Carries (by_reference none) = refl
    extract-Carries (by_reference (some dto)) = refl
    extract-Carries (encoded dto body e) = rw (extract_extension, e)

    extract-CarriesAll :
        {xs ys : List (ExtensionObject F)}
        → CarriesAll decode_binary xs ys
        → extract_extensions decode_binary ys ≡ extract_extensions decode_binary xs
    unfolding extract_extensions
    extract-CarriesAll done = refl
    extract-CarriesAll (next c cs) = cc (extract-Carries c, extract-CarriesAll cs)

    pub packed :
        (sensors : List (SensorSnapshot F))
        → extract_extensions decode_binary (to_extension_objects sensors) ≡ map seen sensors
    unfolding extract_extensions to_extension_objects extract_extension
    packed [] = refl
    packed (sensor ∷ sensors) = ap (◌∷◌ (seen sensor)) (packed sensors)

    typed_form :
        (sensors : List (SensorSnapshot F)) → extract_all (map to_dto sensors) ≡ map seen sensors
    unfolding extract_all
    typed_form [] = refl
    typed_form (sensor ∷ sensors) = ap (◌∷◌ (seen sensor)) (typed_form sensors)

    -- Decoding gives back every packed sensor in order, with its name, value and unit and an empty
    -- sensor type, whether each object arrives as packed, by reference or encoded, and also where
    -- the stack has decoded the array to the registered type.
    pub decode-build :
        (snapshot : TelemetrySnapshot F) (arrived : List (ExtensionObject F))
        → CarriesAll decode_binary (to_extension_objects snapshot.sensors) arrived
        → (decode_sensor_dtos decode_binary (extension_objects arrived) ≡ map seen snapshot.sensors)
          × (decode_sensor_dtos decode_binary (typed (map to_dto snapshot.sensors))
              ≡ map seen snapshot.sensors)
    unfolding decode_sensor_dtos
    decode-build snapshot arrived c =
        (extract-CarriesAll c ∙ packed snapshot.sensors, typed_form snapshot.sensors)

  -- A store announces as many objects as it holds, one for each sensor; freeing it leaves none, and
  -- freeing it again changes nothing.
  build-free :
      (snapshot : TelemetrySnapshot F)
      → let store = build_telemetry_store snapshot in
        ((exts : List (ExtensionObject F)) × (store.dev_sensors ≡ some exts)
          × (length exts ≡ store.dev_sensors_size))
        × ((free_telemetry_store store).dev_sensors ≡ none)
        × ((free_telemetry_store store).dev_sensors_size ≡ 0)
        × (free_telemetry_store (free_telemetry_store store) ≡ free_telemetry_store store)
  unfolding build_telemetry_store free_telemetry_store
  build-free snapshot =
      ((to_extension_objects snapshot.sensors, refl, sized snapshot.sensors), refl, refl, refl)
    where
      sized :
          (sensors : List (SensorSnapshot F))
          → length (to_extension_objects sensors) ≡ length sensors
      sized [] = refl
      sized (sensor ∷ sensors) = ap suc (sized sensors)
