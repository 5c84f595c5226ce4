-- ===== src/Tests/Rows.antt =====
-- Witness of the property from a device's sensors to the grid: a card with two sensors.
use hardware_monitor.Tests.Telemetry.{apart, ids}
use hardware_monitor.Service.{ok}
use hardware_monitor.Device.{HardwareDevice, amd, gpu, power, snapshot, usage}
use hardware_monitor.Grid.Rows.{row_at}
use hardware_monitor.Grid.Screen.{empty_grid}
use hardware_monitor.Nodes.{write_snapshot}
use hardware_monitor.Prelude.{[], bytes, refl, some, ℕ, ◌++◌, ◌∷◌, ◌≡◌}
use hardware_monitor.Telemetry.{Variant, build_telemetry_store}
use hardware_monitor.Tests.{Server, laws, node_ids, server, space}
use hardware_monitor.Tests.Centers.{card, center, decode_binary, format_1f, found_first}
use hardware_monitor.ControlCenter.Updates.{handle_sensor_update, sink}
use hardware_monitor.ControlCenter.Updates.EndToEnd.{lines_of, write-shown}

abbrev graphics_card : HardwareDevice ℕ
graphics_card = record {
  vendor = amd;
  hw_type = gpu;
  name = bytes "first";
  dev_sensors =
      record { type = power; name = bytes "load"; value = 7 }
      ∷ record { type = usage; name = bytes "load"; value = 5 }
      ∷ [];
}

abbrev held : Server
held = (write_snapshot node_ids space ids (build_telemetry_store (snapshot graphics_card)) server).0

holds :
    write_snapshot node_ids space ids (build_telemetry_store (snapshot graphics_card)) server
    ≡ (held, ok tt)
unfolding write_snapshot
holds = refl

write-shown_example :
    (v : Variant ℕ) × (space.read_value ids.sensors held ≡ (held, ok v))
    × (row_at
          (bytes "lab")
          (bytes "GPU")
          (sink node_ids space format_1f decode_binary
            (handle_sensor_update node_ids space format_1f decode_binary (bytes "a") v center)
            empty_grid).rows
        ≡ some (record {
          fields =
              (bytes "first" ++ (bytes " (" ++ (bytes "GPU" ++ bytes ")")), [])
              ∷ lines_of node_ids space laws format_1f decode_binary graphics_card;
        }))
write-shown_example =
    write-shown node_ids space laws format_1f decode_binary server held ids graphics_card center
      empty_grid (bytes "a") (card (bytes "first")) apart holds found_first
