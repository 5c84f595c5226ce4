-- ===== src/Tests/Telemetry.antt =====
-- Witnesses of the properties of queue, packing, nodes and publisher: one CPU with one sensor.
use hardware_monitor.Nodes.{
  ensure_child, ensure_client_folder, try_browse_child, SnapshotNodeIds, read_device_info,
  write_snapshot,
}
use hardware_monitor.Nodes.Stable.{Keeps}
use hardware_monitor.Prelude.{
  pair_discrete, insert, list_discrete, ℕ_discrete, Bytes, List, Option, [], bytes, false, list_eq,
  lookup, map, nat_eq, none, refl, some, true, ℕ, ◌++◌, ◌∷◌, ◌≡◌,
}
use hardware_monitor.Publisher.{add_nodes, Publisher, send_telemetry_payload}
use hardware_monitor.Publisher.Folder.{add_nodes-under, create_telemetry_clients_folder}
use hardware_monitor.Publisher.Delivery.{EndsAs, send_telemetry_payload-EndsAs}
use hardware_monitor.Service.{ok}
use hardware_monitor.Device.{sensor_type_eq}
use hardware_monitor.Nodes.Values.{IsApart, read-write_snapshot}
use hardware_monitor.Publisher.Coherent.{
  IsCoherent, StaysCoherent, send_telemetry_payload-StaysCoherent,
}
use hardware_monitor.Queue.{TelemetrySnapshot, drain, empty, push, shutdown}
use hardware_monitor.Queue.Order.{
  run_in_order, run-shutdown-drains, Call, run, accepted, pushes, drains, shuts_down,
}
use hardware_monitor.Telemetry.{SensorDto, Variant, build_telemetry_store, decode_sensor_dtos}
use hardware_monitor.Telemetry.RoundTrip.{seen}
use hardware_monitor.Tests.{Server, node_ids, space, server, laws}

abbrev cpu_snapshot : TelemetrySnapshot ℕ
cpu_snapshot = record {
  name = bytes "CPU";
  vendor = bytes "INTEL";
  hardware_type = bytes "CPU";
  sensors = record { name = bytes "core"; value = 7; unit = bytes "W" } ∷ [];
}

abbrev calls : List (Call ℕ)
calls = pushes cpu_snapshot ∷ drains ∷ shuts_down ∷ pushes cpu_snapshot ∷ drains ∷ []

run_in_order_example : (run empty calls).0 ++ (run empty calls).1.queue ≡ [] ++ accepted false calls
run_in_order_example = run_in_order empty calls

run-shutdown-drains_example :
    let after = run (shutdown (push cpu_snapshot empty)) calls in
    (batch : List (TelemetrySnapshot ℕ)) × (drain after.1
      ≡ some (batch, record { queue = []; shutting_down = true }))
    × (after.0 ++ batch ≡ (push cpu_snapshot empty).queue)
run-shutdown-drains_example = run-shutdown-drains (push cpu_snapshot empty) calls

abbrev no_decoder : Bytes → Option (SensorDto ℕ)
no_decoder body = none

abbrev core : SensorDto ℕ
core = record { name = bytes "core"; value = 7; unit = bytes "W"; sensor_type = [] }

abbrev pub ids : SnapshotNodeIds node_ids
ids = record {
  object = (1, bytes "lab.CPU");
  name = (1, []);
  vendor = (1, 0 ∷ []);
  hardware_type = (1, 0 ∷ 0 ∷ []);
  sensors = (1, 0 ∷ 0 ∷ 0 ∷ []);
}

pub apart : IsApart node_ids space laws ids
apart = record {
  name-vendor = λ e. cc e;
  name-type = λ e. cc e;
  name-sensors = λ e. cc e;
  vendor-type = λ e. cc e;
  vendor-sensors = λ e. cc e;
  type-sensors = λ e. cc e;
}

abbrev written : Server
written = (write_snapshot node_ids space ids (build_telemetry_store cpu_snapshot) server).0

writes :
    write_snapshot node_ids space ids (build_telemetry_store cpu_snapshot) server ≡ (written, ok tt)
unfolding write_snapshot
writes = refl

read-write_snapshot_example :
    (read_device_info node_ids space ids written ≡ (
      written,
      ok (record {
        name = bytes "CPU";
        vendor = bytes "INTEL";
        hardware_type = bytes "CPU";
        sensors = [];
      }),
    ))
    × (v : Variant ℕ) × (space.read_value ids.sensors written ≡ (written, ok v))
    × (decode_sensor_dtos no_decoder v ≡ map seen cpu_snapshot.sensors)
read-write_snapshot_example =
    read-write_snapshot node_ids space laws server written ids cpu_snapshot no_decoder apart writes

abbrev publisher : Publisher node_ids ℕ space
publisher = record {
  client_name = bytes "lab";
  has_sensor_dto_type = true;
  client_folder = some (1, bytes "lab");
  device_nodes = [];
  queue = push cpu_snapshot empty;
  server = server;
}

nothing_kept : IsCoherent node_ids space laws (1, bytes "lab") (bytes "lab") (server, [])
unfolding lookup
nothing_kept key ids e = absurd (cc e)

send_telemetry_payload-StaysCoherent_example :
    StaysCoherent node_ids space laws
      (1, bytes "lab")
      publisher
      (send_telemetry_payload node_ids space publisher).0
send_telemetry_payload-StaysCoherent_example =
    send_telemetry_payload-StaysCoherent node_ids space laws publisher (1, bytes "lab") refl
      nothing_kept

send_telemetry_payload-EndsAs_example :
    EndsAs node_ids space publisher publisher.client_folder
      (send_telemetry_payload node_ids space publisher)
send_telemetry_payload-EndsAs_example = send_telemetry_payload-EndsAs node_ids space publisher

-- A server without nodes, then with the folder of the clients, and a client that connects.
abbrev blank : Server
blank = record { children = []; values = [] }

abbrev newcomer : Publisher node_ids ℕ space
newcomer = record publisher { client_folder = none; server = server }

add_nodes-under_example :
    (id : ℕ × Bytes) × ((add_nodes node_ids space (0, bytes "objects") newcomer).0.client_folder
      ≡ some id)
    × (space.browse_child
          (1, bytes "TelemetryClients")
          1
          (bytes "lab")
          (add_nodes node_ids space (0, bytes "objects") newcomer).0.server
        ≡ ((add_nodes node_ids space (0, bytes "objects") newcomer).0.server, ok id))
    × Keeps node_ids space laws server
        (add_nodes node_ids space (0, bytes "objects") newcomer).0.server
unfolding add_nodes ensure_client_folder ensure_child try_browse_child lookup insert list_discrete
    ℕ_discrete create_telemetry_clients_folder pair_discrete
add_nodes-under_example =
    add_nodes-under node_ids space laws (0, bytes "objects") (1, bytes "TelemetryClients") blank
      server newcomer (add_nodes node_ids space (0, bytes "objects") newcomer).0 refl
      (λ q f n m b. b) refl
