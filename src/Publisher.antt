-- ===== src/Publisher.antt =====
-- System_Info/SystemInfoClient.cpp and OPC_UA/client.cpp: the client's folder and the telemetry
-- that it sends.
pub mod Coherent
pub mod Delivery
pub mod Folder
use hardware_monitor.Device.{sensor_type_eq, snapshot}
use hardware_monitor.Nodes.{
  SnapshotNodeIds, ensure_client_folder, ensure_snapshot_node, write_snapshot,
}
use hardware_monitor.Prelude.{
  Bool, Bytes, List, Map, Option, [], false, insert, list_eq, lookup, nat_eq, none, some, true, ◌∷◌,
}
use hardware_monitor.Queue.{ClientQueue, TelemetrySnapshot, drain}
use hardware_monitor.Service.{AddressSpace, Result, bad, ok, ◌>>=◌, Call, return, continue}
use hardware_monitor.Telemetry.{TelemetryStore, build_telemetry_store}
use hardware_monitor.Ua.{NodeIds}
use hardware_monitor.Layout.{telemetry_namespace_index, telemetry_clients_folder_name}

-- The fields of SystemInfoClient that change after construction, its name and the server it talks
-- to. `has_sensor_dto_type` is `sensor_dto_type_.has_value()`.
pub record Publisher (ua : NodeIds) (F : Type 0) (sp : AddressSpace ua F) : Type 0 where
  pub client_name : Bytes
  pub has_sensor_dto_type : Bool
  pub client_folder : Option ua.NodeId
  pub device_nodes : Map Bytes (SnapshotNodeIds ua)
  pub queue : ClientQueue F
  pub server : sp.Space

-- What `sendTelemetryPayload` comes to: its result, or that it still waits for the queue.
pub data Sent : Type 0 where
  sent : Bool → Sent
  waits : Sent

module _ {F : Type 0} (ua : NodeIds) (sp : AddressSpace ua F) where
  open ua use {NodeId}
  open sp use {Space, browse_child, read_browse_name}

  unfoldable pub build_telemetry_payload : List (TelemetrySnapshot F) → List (TelemetryStore F)
  build_telemetry_payload [] = []
  build_telemetry_payload (snapshot ∷ drained) =
      build_telemetry_store snapshot ∷ build_telemetry_payload drained

  -- The calls of `addNodes` from the objects folder on; the browse name is read to be printed.
  abbrev pub find_client_folder : NodeId → Bytes → Call Space NodeId
  find_client_folder objects_folder client_name = do
    clients_folder ←
        browse_child objects_folder telemetry_namespace_index telemetry_clients_folder_name
    browse_name ← read_browse_name clients_folder
    ensure_client_folder ua sp clients_folder client_name telemetry_namespace_index

  abbrev pub with_folder :
      Publisher ua F sp → Space × Result NodeId → Publisher ua F sp × Result (Unit {0})
  with_folder p (s, ok id) =
      (record p { has_sensor_dto_type = true; server = s; client_folder = some id }, ok tt)
  with_folder p (s, bad e) = (record p { has_sensor_dto_type = true; server = s }, bad e)

  unfoldable pub add_nodes : NodeId → Call (Publisher ua F sp) (Unit {0})
  add_nodes objects_folder p =
      with_folder p (find_client_folder objects_folder p.client_name p.server)

  -- The state of the loop of `sendTelemetryPayload`: the server and `device_nodes_`.
  abbrev pub Sending : Type 0
  Sending = Space × Map Bytes (SnapshotNodeIds ua)

  -- A call of the server from the loop.
  abbrev pub with_server : {A : Type 0} → Call Space A → Call Sending A
  with_server m (s, nodes) = let r = m s in ((r.0, nodes), r.1)

  abbrev pub remember : Bytes → SnapshotNodeIds ua → Call Sending (SnapshotNodeIds ua)
  remember device_key ids (s, nodes) = ((s, insert ⦃e = list_eq⦄ device_key ids nodes), ok ids)

  -- The node ids of a device, from `device_nodes_` or else ensured and kept there.
  abbrev pub cached_or_ensured :
      NodeId
      → (client_name device_key : Bytes) → Option (SnapshotNodeIds ua)
      → Call Sending (SnapshotNodeIds ua)
  cached_or_ensured client_folder client_name device_key (some ids) = return ids
  cached_or_ensured client_folder client_name device_key none =
      with_server
        (ensure_snapshot_node ua sp client_folder client_name device_key telemetry_namespace_index)
      >>= remember device_key

  unfoldable pub send_one :
      NodeId → Bytes → TelemetrySnapshot F → TelemetryStore F → Call Sending (Unit {0})
  send_one client_folder client_name snapshot store (s, nodes) =
      (cached_or_ensured client_folder client_name snapshot.name
            (lookup ⦃e = list_eq⦄ snapshot.name nodes)
          >>= λ ids. with_server (write_snapshot ua sp ids store))
        (s, nodes)

  -- The loop over the drained snapshots and their stores.
  unfoldable pub send_all :
      NodeId
      → Bytes
      → List (TelemetrySnapshot F)
      → List (TelemetryStore F)
      → Call Sending (Unit {0})
  send_all client_folder client_name (snapshot ∷ drained) (store ∷ stores) = do
    _ ← send_one client_folder client_name snapshot store
    send_all client_folder client_name drained stores
  send_all client_folder client_name [] stores = return tt
  send_all client_folder client_name (snapshot ∷ drained) [] = return tt

  abbrev pub after_sending :
      Publisher ua F sp
      → ClientQueue F
      → Sending × Result (Unit {0})
      → Publisher ua F sp × Result Sent
  after_sending p q ((s, nodes), ok _) =
      (record p { queue = q; server = s; device_nodes = nodes }, ok (sent true))
  after_sending p q ((s, nodes), bad e) =
      (record p { queue = q; server = s; device_nodes = nodes }, bad e)

  -- The rest of `sendTelemetryPayload`, from the drained snapshots on.
  abbrev pub send_drained :
      Publisher ua F sp
      → NodeId
      → List (TelemetrySnapshot F)
      → ClientQueue F
      → Publisher ua F sp × Result Sent
  send_drained p client_folder [] q = (record p { queue = q }, ok (sent true))
  send_drained p client_folder (first ∷ rest) q =
      let drained = first ∷ rest in
      after_sending p q (
        send_all client_folder p.client_name drained (build_telemetry_payload drained)
          (p.server, p.device_nodes))

  abbrev pub when_drained :
      Publisher ua F sp
      → NodeId
      → Option (List (TelemetrySnapshot F) × ClientQueue F)
      → Publisher ua F sp × Result Sent
  when_drained p client_folder none = (p, ok waits)
  when_drained p client_folder (some (drained, q)) = send_drained p client_folder drained q

  unfoldable pub send_telemetry_payload : Call (Publisher ua F sp) Sent
  send_telemetry_payload p = elim p.client_folder [
    | none ↦ (p, ok (sent false))
    | some client_folder ↦ when_drained p client_folder (drain p.queue)
  ]
