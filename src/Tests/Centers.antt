-- ===== src/Tests/Centers.antt =====
-- Witnesses of the properties of the control center: a server with one client and two cards.
use hardware_monitor.ControlCenter.Subscribed.{IsOnce, IsSubscribed, StaysOnce}
use hardware_monitor.ControlCenter.{ControlCenterClient, DeviceCache, poll}
use hardware_monitor.ControlCenter.Once.{poll-StaysOnce}
use hardware_monitor.ControlCenter.Updates.{handle_sensor_update, run_iterate, sink}
use hardware_monitor.ControlCenter.Updates.Latest.{Arrival, change, latest, run_iterate-latest}
use hardware_monitor.ControlCenter.Updates.Shown.{fields_of, update-packed}
use hardware_monitor.Device.{sensor_type_eq}
use hardware_monitor.Grid.Rows.{row_at}
use hardware_monitor.Grid.Screen.{empty_grid}
use hardware_monitor.Prelude.{
  List, map, Bytes, Option, [], arith, bytes, if◌then◌else◌, inl, inr, list_discrete, list_eq,
  lookup, nat_eq, none, refl, some, ℕ, ℕ_discrete, ◌&&◌, ◌==◌, ◌∷◌, ◌≡◌,
}
use hardware_monitor.Queue.{TelemetrySnapshot}
use hardware_monitor.Telemetry.{DecodedDevice, SensorDto, extension_objects, to_extension_objects}
use hardware_monitor.Tests.{node_ids, server, space}

abbrev info : Bytes → DecodedDevice ℕ
info name = record { name = name; vendor = bytes "AMD"; hardware_type = bytes "GPU"; sensors = [] }

abbrev pub card : Bytes → DeviceCache ℕ
card name = record { client_folder_name = bytes "lab"; info = info name }

abbrev pub center : ControlCenterClient node_ids ℕ space
center = record {
  device_cache = (bytes "a", card (bytes "first")) ∷ (bytes "b", card (bytes "second")) ∷ [];
  subscriptions = ((1, bytes "a"), bytes "a") ∷ ((1, bytes "b"), bytes "b") ∷ [];
  last_poll = 0;
  server = server;
}

center-IsOnce : IsOnce node_ids space center.device_cache center.subscriptions
unfolding lookup list_discrete ℕ_discrete
center-IsOnce = (apart, (λ e. cc e), ((λ h. h), (λ e. cc e), tt))
  where
    apart : IsSubscribed node_ids space (bytes "a") (((1, bytes "b"), bytes "b") ∷ []) → ⊥
    apart (inl e) = ground arith
    apart (inr h) = h

poll-StaysOnce_example :
    StaysOnce node_ids space center (poll node_ids space (0, bytes "objects") 9000 5000 center).0
poll-StaysOnce_example =
    poll-StaysOnce node_ids space (0, bytes "objects") 9000 5000 center center-IsOnce

abbrev pub format_1f : ℕ → Bytes
format_1f n = n ∷ bytes ".0"

abbrev pub decode_binary : Bytes → Option (SensorDto ℕ)
decode_binary body = none

abbrev packet : ℕ → TelemetrySnapshot ℕ
packet value = record {
  name = bytes "card";
  vendor = bytes "AMD";
  hardware_type = bytes "GPU";
  sensors = record { name = bytes "load"; value = value; unit = bytes "%" } ∷ [];
}

pub found_first : lookup (bytes "a") center.device_cache ≡ some (card (bytes "first"))
unfolding lookup list_discrete ℕ_discrete
found_first = refl

found_second : lookup (bytes "b") center.device_cache ≡ some (card (bytes "second"))
unfolding lookup list_discrete ℕ_discrete
found_second = refl

update-packed_example :
    let value = extension_objects (to_extension_objects (packet 5).sensors) in
    let grid' =
      sink node_ids space format_1f decode_binary
        (handle_sensor_update node_ids space format_1f decode_binary (bytes "a") value center)
        empty_grid in
    row_at (bytes "lab") (bytes "GPU") grid'.rows ≡ (
      if (bytes "lab" == bytes "lab") && (bytes "GPU" == bytes "GPU")
      then some (record {
        fields = fields_of node_ids space format_1f decode_binary (packet 5) (info (bytes "first"));
      })
      else row_at (bytes "lab") (bytes "GPU") [])
update-packed_example =
    update-packed node_ids space format_1f decode_binary center empty_grid (bytes "a") (bytes "lab")
      (bytes "GPU") (card (bytes "first")) (packet 5) found_first

-- The first card, the second, and the first again.
abbrev arrivals : List (Arrival node_ids space format_1f decode_binary)
arrivals =
    record { device_node_id = bytes "a"; cache = card (bytes "first"); packet = packet 5 }
    ∷ record { device_node_id = bytes "b"; cache = card (bytes "second"); packet = packet 6 }
    ∷ record { device_node_id = bytes "a"; cache = card (bytes "first"); packet = packet 7 }
    ∷ []

run_iterate-latest_example :
    row_at
      (bytes "lab")
      (bytes "GPU")
      (run_iterate node_ids space format_1f decode_binary
        (map (change node_ids space format_1f decode_binary) arrivals)
        center
        empty_grid).rows
    ≡ (elim (latest node_ids space format_1f decode_binary (bytes "lab") (bytes "GPU") arrivals) [
      | some row ↦ some row
      | none ↦ row_at (bytes "lab") (bytes "GPU") []
    ])
run_iterate-latest_example =
    run_iterate-latest node_ids space format_1f decode_binary center (bytes "lab") (bytes "GPU")
      arrivals empty_grid (found_first, (found_second, (found_first, tt)))
