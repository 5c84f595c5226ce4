-- ===== src/ControlCenter/Updates/Latest.antt =====
-- control_center/ControlCenterClient.cpp: what the grid shows after many changes of many devices.
use hardware_monitor.Grid.{ClientRow, DisplayGrid}
use hardware_monitor.Prelude.{
  Option-cases, arith, inl, inr, All, Bytes, List, Option, [], if◌then◌else◌, list_eq, lookup, map,
  nat_eq, none, refl, some, ◌&&◌, ◌==◌, ◌∷◌, ◌≡◌,
}
use hardware_monitor.ControlCenter.{ControlCenterClient, DeviceCache}
use hardware_monitor.ControlCenter.Updates.{handle_sensor_update, run_iterate, sink}
use hardware_monitor.ControlCenter.Updates.Shown.{fields_of, update-packed}
use hardware_monitor.Device.{sensor_type_eq}
use hardware_monitor.Grid.Rows.{row_at}
use hardware_monitor.Queue.{TelemetrySnapshot}
use hardware_monitor.Service.{AddressSpace}
use hardware_monitor.Telemetry.{SensorDto, Variant, extension_objects, to_extension_objects}
use hardware_monitor.Ua.{NodeIds}

module _ {F : Type 0} (ua : NodeIds) (sp : AddressSpace ua F) (format_1f : F → Bytes)
    (decode_binary : Bytes → Option (SensorDto F)) where
  -- A snapshot that the client of a cached device has packed for the device's sensors node.
  pub record Arrival : Type 0 where
    pub device_node_id : Bytes
    pub cache : DeviceCache F
    pub packet : TelemetrySnapshot F

  abbrev pub change : Arrival → Bytes × Variant F
  change a = (a.device_node_id, extension_objects (to_extension_objects a.packet.sensors))

  abbrev pub IsCached : ControlCenterClient ua F sp → Arrival → Type 0
  IsCached c a = lookup ⦃e = list_eq⦄ a.device_node_id c.device_cache ≡ some a.cache

  -- The fields of the last arrival for a device of this client and this type.
  abbrev pub latest : (client key : Bytes) → List Arrival → Option ClientRow
  latest client key [] = none
  latest client key (a ∷ arrivals) = elim (latest client key arrivals) [
    | some row ↦ some row
    | none ↦
        if (a.cache.client_folder_name == client) && (a.cache.info.hardware_type == key)
        then some
            (record { fields = fields_of ua sp format_1f decode_binary a.packet a.cache.info })
        else none
  ]

  -- After the callbacks of any number of changes of cached devices, each row shows the last snapshot
  -- that arrived for a device of its client and hardware type, and is as it was if none arrived: of
  -- two devices of one client with the same type, only the one that changed last is shown.
  pub run_iterate-latest :
      (c : ControlCenterClient ua F sp) (client key : Bytes) (arrivals : List Arrival)
      (grid : DisplayGrid)
      → All (IsCached c) arrivals
      → row_at client key
          (run_iterate ua sp format_1f decode_binary (map change arrivals) c grid).rows
        ≡ (elim (latest client key arrivals) [
          | some row ↦ some row
          | none ↦ row_at client key grid.rows
        ])
  unfolding run_iterate
  run_iterate-latest c client key [] grid cached = refl
  run_iterate-latest c client key (a ∷ arrivals) grid (h, cached) =
      let shown =
        sink ua sp format_1f decode_binary
          (handle_sensor_update ua sp format_1f decode_binary a.device_node_id (change a).1 c)
          grid in
      let first =
        update-packed ua sp format_1f decode_binary c grid a.device_node_id client key a.cache
          a.packet h in
      let rest = run_iterate-latest c client key arrivals shown cached in
      elim (Option-cases (latest client key arrivals)) [
        | inl none_later ↦ ground (arith, none_later, first, rest)
        | inr (row, later) ↦ ground (arith, later, rest)
      ]
