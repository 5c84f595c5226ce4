-- ===== src/ControlCenter/Updates/Shown.antt =====
-- control_center/ControlCenterClient.cpp: the rows that the grid shows of what the clients send.
use hardware_monitor.Prelude.{
  subst, sym, Bytes, List, Option, [], bytes, if◌then◌else◌, list_eq, lookup, map, nat_eq, refl,
  some, ◌&&◌, ◌++◌, ◌==◌, ◌∷◌, ◌≡◌,
}
use hardware_monitor.Telemetry.{
  DecodedDevice, SensorDto, decode_sensor_dtos, extension_objects, to_extension_objects,
}
use hardware_monitor.Device.{sensor_type_eq}
use hardware_monitor.ControlCenter.Updates.{
  handle_sensor_update, row_of, sensor_fields, sink, value_text,
}
use hardware_monitor.Grid.Rows.{row_at-update, row_at}
use hardware_monitor.ControlCenter.{ControlCenterClient, DeviceCache}
use hardware_monitor.Grid.{DisplayGrid}
use hardware_monitor.Queue.{SensorSnapshot, TelemetrySnapshot}
use hardware_monitor.Service.{AddressSpace}
use hardware_monitor.Ua.{NodeIds}
use hardware_monitor.Telemetry.RoundTrip.{seen, packed}

module _ {F : Type 0} (ua : NodeIds) (sp : AddressSpace ua F) (format_1f : F → Bytes)
    (decode_binary : Bytes → Option (SensorDto F)) where
  -- The fields of a device: a title, then name and value with unit of each sensor.
  abbrev pub fields_of : TelemetrySnapshot F → DecodedDevice F → List (Bytes × Bytes)
  fields_of packet info =
      (info.name ++ (bytes " (" ++ (info.hardware_type ++ bytes ")")), [])
      ∷ map (λ s. (bytes "  " ++ s.name, value_text ua sp format_1f decode_binary (seen s)))
          packet.sensors

  sensor_fields-map :
      (sensors : List (SensorSnapshot F))
      → sensor_fields ua sp format_1f decode_binary (map seen sensors)
        ≡ map
            (λ s. (bytes "  " ++ s.name, value_text ua sp format_1f decode_binary (seen s)))
            sensors
  unfolding sensor_fields
  sensor_fields-map [] = refl
  sensor_fields-map (s ∷ sensors) = cc (sensor_fields-map sensors)

  handled :
      (c : ControlCenterClient ua F sp) (id : Bytes) (cache : DeviceCache F)
      (packet : TelemetrySnapshot F)
      → lookup ⦃e = list_eq⦄ id c.device_cache ≡ some cache
      → handle_sensor_update ua sp format_1f decode_binary id
          (extension_objects (to_extension_objects packet.sensors))
          c
        ≡ some (
          cache.client_folder_name,
          cache.info.hardware_type,
          record { fields = fields_of packet cache.info },
        )
  unfolding handle_sensor_update row_of decode_sensor_dtos
  handled c id cache packet h = rw (
    handle_sensor_update,
    h,
    packed decode_binary packet.sensors,
    sensor_fields-map packet.sensors,
  )

  -- A change of the sensors node of a cached device puts the sensors of the snapshot that its
  -- client packed, in order, into the row of the device's client and hardware type, and changes no
  -- row of another client or type.
  pub update-packed :
      (c : ControlCenterClient ua F sp) (grid : DisplayGrid) (id client key : Bytes)
      (cache : DeviceCache F) (packet : TelemetrySnapshot F)
      → lookup ⦃e = list_eq⦄ id c.device_cache ≡ some cache
      → let value = extension_objects (to_extension_objects packet.sensors) in
        let grid' =
          sink ua sp format_1f decode_binary
            (handle_sensor_update ua sp format_1f decode_binary id value c)
            grid in
        row_at client key grid'.rows ≡ (
          if (cache.client_folder_name == client) && (cache.info.hardware_type == key)
          then some (record { fields = fields_of packet cache.info })
          else row_at client key grid.rows)
  update-packed c grid id client key cache packet h =
      subst
        (λ r. row_at client key (sink ua sp format_1f decode_binary r grid).rows ≡ (
          if (cache.client_folder_name == client) && (cache.info.hardware_type == key)
          then some (record { fields = fields_of packet cache.info })
          else row_at client key grid.rows))
        (sym (handled c id cache packet h))
        (row_at-update cache.client_folder_name cache.info.hardware_type client key
          (record { fields = fields_of packet cache.info }) grid)
