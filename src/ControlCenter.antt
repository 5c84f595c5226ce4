-- ===== src/ControlCenter.antt =====
-- control_center/ControlCenterClient.cpp and main.cpp: which devices the control center subscribes
-- to, and the rows that it hands to the grid. What is only logged is left out.
pub mod Subscribed
pub mod Once
pub mod Updates
use hardware_monitor.Device.{sensor_type_eq}
use hardware_monitor.Layout.{telemetry_clients_folder_name, telemetry_namespace_index}
use hardware_monitor.Nodes.{SnapshotNodeIds, read_device_info}
use hardware_monitor.Prelude.{
  Bool, Bytes, List, Map, Option, [], bytes, false, if◌then◌else◌, insert, leb, list_eq, lookup,
  nat_eq, none, some, true, ℕ, ◌-◌, ◌==◌, ◌∷◌,
}
use hardware_monitor.Service.{AddressSpace, ok, ◌>>=◌, Call, return}
use hardware_monitor.Telemetry.{DecodedDevice}
use hardware_monitor.Ua.{NodeIds, same_node}

pub record DeviceCache (F : Type 0) : Type 0 where
  pub client_folder_name : Bytes
  pub info : DecodedDevice F

-- ControlCenterClient with the server that it talks to. A subscription is the node that it watches
-- and the `device_node_id` that its callback holds.
pub record ControlCenterClient (ua : NodeIds) (F : Type 0) (sp : AddressSpace ua F) : Type 0 where
  pub device_cache : Map Bytes (DeviceCache F)
  pub subscriptions : List (ua.NodeId × Bytes)
  pub last_poll : ℕ
  pub server : sp.Space

module _ {F : Type 0} (ua : NodeIds) (sp : AddressSpace ua F) where
  open ua use {NodeId, null, to_string}
  open sp use {Space, browse_child, browse_children, read_browse_name, subscribe_data_change}

  abbrev pub ask : {A : Type 0} → Call Space A → Call (ControlCenterClient ua F sp) A
  ask m c = let r = m c.server in (record c { server = r.0 }, r.1)

  -- The ids of a device while its children are looked at, and `found_sensors`.
  abbrev pub Found : Type 0
  Found = SnapshotNodeIds ua × Bool

  abbrev pub nothing_found : NodeId → Found
  nothing_found device = (
    record { object = device; name = null; vendor = null; hardware_type = null; sensors = null },
    false,
  )

  unfoldable pub assign_child : Bytes → NodeId → Found → Found
  assign_child child_name child (ids, found) =
      if child_name == bytes "name"
      then (record ids { name = child }, found)
      else if child_name == bytes "vendor"
      then (record ids { vendor = child }, found)
      else if child_name == bytes "hardware_type"
      then (record ids { hardware_type = child }, found)
      else if child_name == bytes "sensors"
      then (record ids { sensors = child }, true)
      else (ids, found)

  unfoldable pub assign_children : List NodeId → Found → Call Space Found
  assign_children [] found = return found
  assign_children (child ∷ children) found = do
    child_name ← read_browse_name child
    assign_children children (assign_child child_name child found)

  -- `device_cache_[device_node_id] = cache`
  abbrev pub put_cache : Bytes → DeviceCache F → Call (ControlCenterClient ua F sp) (Unit {0})
  put_cache key cache c =
      (record c { device_cache = insert ⦃e = list_eq⦄ key cache c.device_cache }, ok tt)

  abbrev pub put_subscription : NodeId → Bytes → Call (ControlCenterClient ua F sp) (Unit {0})
  put_subscription node key c = (record c { subscriptions = (node, key) ∷ c.subscriptions }, ok tt)

  -- The end of the round of a device that has sensors.
  unfoldable pub subscribe_device :
      Bytes → Bytes → SnapshotNodeIds ua → Call (ControlCenterClient ua F sp) (Unit {0})
  subscribe_device client_folder_name key ids = do
    info ← ask (read_device_info ua sp ids)
    _ ← put_cache key (record { client_folder_name = client_folder_name; info = info })
    _ ← ask (subscribe_data_change ids.sensors)
    put_subscription ids.sensors key

  abbrev pub if_found : Bytes → Bytes → Found → Call (ControlCenterClient ua F sp) (Unit {0})
  if_found client_folder_name key (ids, found) =
      if found then subscribe_device client_folder_name key ids else return tt

  -- One round of the inner loop of `discoverAndSubscribe`, for a device that is not cached.
  unfoldable pub discover_new : Bytes → NodeId → Call (ControlCenterClient ua F sp) (Unit {0})
  discover_new client_folder_name device = do
    children ← ask (browse_children device)
    found ← ask (assign_children children (nothing_found device))
    if_found client_folder_name (to_string device) found

  abbrev pub unless_cached :
      Bytes → NodeId → Option (DeviceCache F) → Call (ControlCenterClient ua F sp) (Unit {0})
  unless_cached client_folder_name device (some _) = return tt
  unless_cached client_folder_name device none = discover_new client_folder_name device

  unfoldable pub discover_device : Bytes → NodeId → Call (ControlCenterClient ua F sp) (Unit {0})
  discover_device client_folder_name device c =
      unless_cached client_folder_name device
        (lookup ⦃e = list_eq⦄ (to_string device) c.device_cache) c

  unfoldable pub discover_devices :
      Bytes → List NodeId → Call (ControlCenterClient ua F sp) (Unit {0})
  discover_devices client_folder_name [] = return tt
  discover_devices client_folder_name (device ∷ devices) = do
    _ ← discover_device client_folder_name device
    discover_devices client_folder_name devices

  unfoldable pub discover_clients : List NodeId → Call (ControlCenterClient ua F sp) (Unit {0})
  discover_clients [] = return tt
  discover_clients (client_folder ∷ client_folders) = do
    client_folder_name ← ask (read_browse_name client_folder)
    devices ← ask (browse_children client_folder)
    _ ← discover_devices client_folder_name devices
    discover_clients client_folders

  abbrev pub discover_in : NodeId → Call (ControlCenterClient ua F sp) (Unit {0})
  discover_in clients_folder =
      if same_node ua clients_folder null
      then return tt
      else ask (browse_children clients_folder) >>= discover_clients

  unfoldable pub discover_and_subscribe : NodeId → Call (ControlCenterClient ua F sp) (Unit {0})
  discover_and_subscribe objects_folder = do
    clients_folder ←
        ask (browse_child objects_folder telemetry_namespace_index telemetry_clients_folder_name)
    discover_in clients_folder

  -- `last_poll_ = now`
  abbrev pub put_last_poll : ℕ → Call (ControlCenterClient ua F sp) (Unit {0})
  put_last_poll now c = (record c { last_poll = now }, ok tt)

  -- The second half of `tick`, after the calls of the callbacks by `runIterate`. The clock is
  -- steady, so the difference is the truncated one.
  unfoldable pub poll :
      NodeId → (now poll_interval : ℕ) → Call (ControlCenterClient ua F sp) (Unit {0})
  poll objects_folder now poll_interval c =
      if leb poll_interval (now - c.last_poll)
      then (discover_and_subscribe objects_folder >>= λ _. put_last_poll now) c
      else (c, ok tt)
