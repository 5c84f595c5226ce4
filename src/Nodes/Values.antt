-- ===== src/Nodes/Values.antt =====
-- OPC_UA/utils.cpp: what `writeSnapshot` writes, the control center reads back.
use hardware_monitor.Prelude.{
  List, ap, length, refl, some, take, ◌∷◌, sym, Bytes, Option, [], map, ◌≡◌, ◌≢◌,
}
use hardware_monitor.Queue.{SensorSnapshot, TelemetrySnapshot}
use hardware_monitor.Telemetry.{
  decoded, to_dto, to_extension_objects, SensorDto, TelemetryStore, Variant, build_telemetry_store,
  decode_sensor_dtos, read_string, text,
}
use hardware_monitor.Telemetry.RoundTrip.{packed, seen}
use hardware_monitor.Nodes.{
  sensors_value, SnapshotNodeIds, read_device_info, read_string_node, write_snapshot,
}
use hardware_monitor.Service.{◌>>=◌, >>=-eq-ok, AddressSpace, Laws, ok, Call}
use hardware_monitor.Ua.{NodeIds}

module _ {F : Type 0} (ua : NodeIds) (sp : AddressSpace ua F) (laws : Laws sp) where
  open ua use {NodeId}
  open sp use {Space, write_value, read_value}

  abbrev pub Holds : Space → NodeId → Variant F → Type 0
  Holds s id v = read_value id s ≡ (s, ok v)

  -- The four nodes of the values are four.
  pub record IsApart (ids : SnapshotNodeIds ua) : Type 0 where
    pub name-vendor : ids.name ≢ ids.vendor
    pub name-type : ids.name ≢ ids.hardware_type
    pub name-sensors : ids.name ≢ ids.sensors
    pub vendor-type : ids.vendor ≢ ids.hardware_type
    pub vendor-sensors : ids.vendor ≢ ids.sensors
    pub type-sensors : ids.hardware_type ≢ ids.sensors

  read_string_node_lem :
      (s : Space) (id : NodeId) (v : Variant F)
      → Holds s id v
      → read_string_node ua sp id s ≡ (s, ok (read_string v))
  unfolding read_string_node
  read_string_node_lem s id v h = rw h

  pub write_then :
      (s s' : Space) (id : NodeId) (v : Variant F) (rest : Call Space (Unit {0}))
      → (write_value id v >>= λ _. rest) s ≡ (s', ok tt)
      → (s1 : Space) × (write_value id v s ≡ (s1, ok tt)) × (rest s1 ≡ (s', ok tt))
  write_then s s' id v rest h =
      let (s1, tt, e, g) = >>=-eq-ok (write_value id v) (λ _. rest) h in (s1, e, g)

  take-packed :
      (sensors : List (SensorSnapshot F))
      → take (length sensors) (to_extension_objects sensors) ≡ to_extension_objects sensors
  unfolding to_extension_objects
  take-packed [] = refl
  take-packed (sensor ∷ sensors) = ap (◌∷◌ (decoded (some (to_dto sensor)))) (take-packed sensors)

  -- A snapshot that was written to four distinct nodes is read back from them: the three texts and,
  -- at the node of the sensors, every sensor in order, whatever was there before.
  pub read-write_snapshot :
      (s s' : Space) (ids : SnapshotNodeIds ua) (snapshot : TelemetrySnapshot F)
      (decode_binary : Bytes → Option (SensorDto F))
      → IsApart ids
      → write_snapshot ua sp ids (build_telemetry_store snapshot) s ≡ (s', ok tt)
      → (read_device_info ua sp ids s' ≡ (
        s',
        ok (record {
          name = snapshot.name;
          vendor = snapshot.vendor;
          hardware_type = snapshot.hardware_type;
          sensors = [];
        }),
      ))
        × (v : Variant F) × (read_value ids.sensors s' ≡ (s', ok v))
        × (decode_sensor_dtos decode_binary v ≡ map seen snapshot.sensors)
  unfolding write_snapshot read_device_info build_telemetry_store decode_sensor_dtos read_string
  read-write_snapshot s s' ids snapshot decode_binary apart h =
      let w3 = write_value ids.hardware_type (text store.hardware_type) in
      let w4 = write_value ids.sensors (sensors_value ua sp store) in
      let (s1, e1, h1) =
        write_then s s' ids.name (text store.name)
          (write_value ids.vendor (text store.vendor) >>= λ _. w3 >>= λ _. w4) h in
      let (s2, e2, h2) = write_then s1 s' ids.vendor (text store.vendor) (w3 >>= λ _. w4) h1 in
      let (s3, e3, e4) = write_then s2 s' ids.hardware_type (text store.hardware_type) w4 h2 in
      let name1 = laws.read-write s s1 ids.name (text store.name) e1 in
      let name2 =
        laws.read-write_ne s1 s2 ids.vendor ids.name (text store.vendor) (text store.name)
          (λ e. apart.name-vendor (sym e)) e2 name1 in
      let name3 =
        laws.read-write_ne s2 s3 ids.hardware_type ids.name (text store.hardware_type)
          (text store.name) (λ e. apart.name-type (sym e)) e3 name2 in
      let name4 =
        laws.read-write_ne s3 s' ids.sensors ids.name (sensors_value ua sp store) (text store.name)
          (λ e. apart.name-sensors (sym e)) e4 name3 in
      let vendor2 = laws.read-write s1 s2 ids.vendor (text store.vendor) e2 in
      let vendor3 =
        laws.read-write_ne s2 s3 ids.hardware_type ids.vendor (text store.hardware_type)
          (text store.vendor) (λ e. apart.vendor-type (sym e)) e3 vendor2 in
      let vendor4 =
        laws.read-write_ne s3 s' ids.sensors ids.vendor (sensors_value ua sp store)
          (text store.vendor) (λ e. apart.vendor-sensors (sym e)) e4 vendor3 in
      let type3 = laws.read-write s2 s3 ids.hardware_type (text store.hardware_type) e3 in
      let type4 =
        laws.read-write_ne s3 s' ids.sensors ids.hardware_type (sensors_value ua sp store)
          (text store.hardware_type) (λ e. apart.type-sensors (sym e)) e4 type3 in
      (
        rw (
          read_string_node_lem s' ids.name (text store.name) name4,
          read_string_node_lem s' ids.vendor (text store.vendor) vendor4,
          read_string_node_lem s' ids.hardware_type (text store.hardware_type) type4,
        ),
        sensors_value ua sp store,
        laws.read-write s3 s' ids.sensors (sensors_value ua sp store) e4,
        whole,
      )
    where
      store : TelemetryStore F
      store = build_telemetry_store snapshot

      whole :
          decode_sensor_dtos decode_binary (sensors_value ua sp store) ≡ map seen snapshot.sensors
      whole = rw (take-packed snapshot.sensors, packed decode_binary snapshot.sensors)
