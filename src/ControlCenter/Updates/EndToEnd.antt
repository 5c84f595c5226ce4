-- ===== src/ControlCenter/Updates/EndToEnd.antt =====
-- From a device's sensors to the grid: HardwareDevice.cpp, OPC_UA/utils.cpp, ControlCenterClient.cpp.
use hardware_monitor.ControlCenter.Updates.{
  row_of, handle_sensor_update, sensor_fields, sink, value_text,
}
use hardware_monitor.Grid.{ClientRow, update, DisplayGrid}
use hardware_monitor.Grid.Rows.{row_at-update, row_at}
use hardware_monitor.Prelude.{
  arith, subst, sym, Bytes, List, Option, [], bytes, list_eq, lookup, map, nat_eq, refl, some, ◌++◌,
  ◌∷◌, ◌≡◌,
}
use hardware_monitor.Telemetry.{
  DecodedDevice, decode_sensor_dtos, SensorDto, Variant, build_telemetry_store,
}
use hardware_monitor.ControlCenter.{ControlCenterClient, DeviceCache}
use hardware_monitor.Device.{
  DeviceSensor, HardwareDevice, sensor_type_eq, snapshot_sensors, unit_of, snapshot,
}
use hardware_monitor.Nodes.{SnapshotNodeIds, write_snapshot}
use hardware_monitor.Nodes.Values.{IsApart, read-write_snapshot}
use hardware_monitor.Service.{AddressSpace, Laws, ok}
use hardware_monitor.Ua.{NodeIds}
use hardware_monitor.Telemetry.RoundTrip.{seen}

module _ {F : Type 0} (ua : NodeIds) (sp : AddressSpace ua F) (laws : Laws sp)
    (format_1f : F → Bytes) (decode_binary : Bytes → Option (SensorDto F)) where
  open sp use {Space, read_value}

  -- What a device of a client shows: name, and value with unit, of each sensor.
  abbrev pub lines_of : HardwareDevice F → List (Bytes × Bytes)
  lines_of device =
      map
        (λ s. (
          bytes "  " ++ s.name,
          value_text ua sp format_1f decode_binary
              (record { name = s.name; value = s.value; unit = unit_of s.type; sensor_type = [] }),
        ))
        device.dev_sensors

  lines-snapshot :
      (sensors : List (DeviceSensor F))
      → sensor_fields ua sp format_1f decode_binary (map seen (snapshot_sensors sensors))
        ≡ map
            (λ s. (
              bytes "  " ++ s.name,
              value_text ua sp format_1f decode_binary (record {
                name = s.name;
                value = s.value;
                unit = unit_of s.type;
                sensor_type = [];
              }),
            ))
            sensors
  unfolding sensor_fields snapshot_sensors
  lines-snapshot [] = refl
  lines-snapshot (s ∷ sensors) = cc (lines-snapshot sensors)

  abbrev pub row_for : DecodedDevice F → HardwareDevice F → ClientRow
  row_for info device = record {
    fields = (info.name ++ (bytes " (" ++ (info.hardware_type ++ bytes ")")), []) ∷ lines_of device;
  }

  handled :
      (c : ControlCenterClient ua F sp) (id : Bytes) (cache : DeviceCache F) (v : Variant F)
      (device : HardwareDevice F)
      → lookup ⦃e = list_eq⦄ id c.device_cache ≡ some cache
      → decode_sensor_dtos decode_binary v ≡ map seen (snapshot_sensors device.dev_sensors)
      → handle_sensor_update ua sp format_1f decode_binary id v c
        ≡ some (cache.client_folder_name, cache.info.hardware_type, row_for cache.info device)
  unfolding handle_sensor_update row_of
  handled c id cache v device found e =
      rw (handle_sensor_update, found, e, lines-snapshot device.dev_sensors)

  row_at-update_self :
      (client key : Bytes) (row : ClientRow) (grid : DisplayGrid)
      → row_at client key (update client key row grid).rows ≡ some row
  row_at-update_self client key row grid =
      ground (arith, row_at-update client key client key row grid)

  -- The value that the server holds for the sensors node after a device's snapshot was written to
  -- four distinct nodes makes the control center show, in the row of the device's client and type,
  -- a title and one line for each sensor of the device, in order, with its value and the unit of
  -- its type.
  pub write-shown :
      (s s' : Space) (ids : SnapshotNodeIds ua) (device : HardwareDevice F)
      (c : ControlCenterClient ua F sp) (grid : DisplayGrid) (id : Bytes) (cache : DeviceCache F)
      → IsApart ua sp laws ids
      → write_snapshot ua sp ids (build_telemetry_store (snapshot device)) s ≡ (s', ok tt)
      → lookup ⦃e = list_eq⦄ id c.device_cache ≡ some cache
      → (v : Variant F) × (read_value ids.sensors s' ≡ (s', ok v))
        × (row_at cache.client_folder_name cache.info.hardware_type
              (sink ua sp format_1f decode_binary
                (handle_sensor_update ua sp format_1f decode_binary id v c)
                grid).rows
            ≡ some (record {
              fields =
                  (cache.info.name ++ (bytes " (" ++ (cache.info.hardware_type ++ bytes ")")), [])
                  ∷ lines_of device;
            }))
  unfolding snapshot
  write-shown s s' ids device c grid id cache apart written found =
      let (_, v, held, e) =
        read-write_snapshot ua sp laws s s' ids (snapshot device) decode_binary apart written in
      let row = row_for cache.info device in
      (
        v,
        held,
        subst
            (λ r.
              row_at cache.client_folder_name cache.info.hardware_type
                (sink ua sp format_1f decode_binary r grid).rows
              ≡ some row)
            (sym (handled c id cache v device found e))
            (row_at-update_self cache.client_folder_name cache.info.hardware_type row grid),
      )
