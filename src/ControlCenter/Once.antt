-- ===== src/ControlCenter/Once.antt =====
-- control_center/ControlCenterClient.cpp: discovery subscribes to a device at most once.
use hardware_monitor.ControlCenter.{
  discover_and_subscribe, discover_clients, discover_in, poll, put_last_poll, ask, discover_device,
  discover_devices, ControlCenterClient,
}
use hardware_monitor.Layout.{telemetry_clients_folder_name, telemetry_namespace_index}
use hardware_monitor.Prelude.{
  Bool-cases, leb, ℕ, ◌-◌, Bytes, List, [], inl, inr, list_eq, nat_eq, ◌∷◌,
}
use hardware_monitor.Ua.{same_node, NodeIds}
use hardware_monitor.Service.{Call, AddressSpace, Result, bad, ok, continue}
use hardware_monitor.Device.{sensor_type_eq}
use hardware_monitor.ControlCenter.Subscribed.{Step, IsOnce, StaysOnce, discover_device-StaysOnce}

module _ {F : Type 0} (ua : NodeIds) (sp : AddressSpace ua F) where
  open ua use {NodeId, null}
  open sp use {Space, browse_child, browse_children, read_browse_name}

  -- A call that keeps the subscriptions so.
  abbrev pub IsSafe : {A : Type 0} → Step ua sp A → Type 0
  IsSafe m =
      (c : ControlCenterClient ua F sp)
      → IsOnce ua sp c.device_cache c.subscriptions
      → StaysOnce ua sp c (m c).0

  continue-IsSafe :
      {A B : Type 0} (f : A → Step ua sp B)
      → ((a : A) → IsSafe (f a))
      → (c : ControlCenterClient ua F sp) (r : ControlCenterClient ua F sp × Result A)
      → StaysOnce ua sp c r.0
      → StaysOnce ua sp c (continue f r).0
  continue-IsSafe f hf c (c1, ok a) (o, kept) =
      let (o', kept') = hf a c1 o in (o', λ key v e. kept' key v (kept key v e))
  continue-IsSafe f hf c (c1, bad x) g = g

  discover_devices-IsSafe :
      (client_folder_name : Bytes) (devices : List NodeId)
      → IsSafe (discover_devices ua sp client_folder_name devices)
  unfolding discover_devices
  discover_devices-IsSafe client_folder_name [] c o = (o, λ key v e. e)
  discover_devices-IsSafe client_folder_name (device ∷ devices) c o =
      continue-IsSafe (λ _. discover_devices ua sp client_folder_name devices)
        (λ _. discover_devices-IsSafe client_folder_name devices) c
        (discover_device ua sp client_folder_name device c)
        (discover_device-StaysOnce ua sp client_folder_name device c o)

  ask-IsSafe : {A : Type 0} (m : Call Space A) → IsSafe (ask ua sp m)
  ask-IsSafe m c o = (o, λ key v e. e)

  discover_clients-IsSafe :
      (client_folders : List NodeId) → IsSafe (discover_clients ua sp client_folders)
  unfolding discover_clients
  discover_clients-IsSafe [] c o = (o, λ key v e. e)
  discover_clients-IsSafe (client_folder ∷ client_folders) c o =
      continue-IsSafe named (named-IsSafe (discover_clients-IsSafe client_folders)) c
        (ask ua sp (read_browse_name client_folder) c)
        (ask-IsSafe (read_browse_name client_folder) c o)
    where
      rest : Unit {0} → Step ua sp (Unit {0})
      rest _ = discover_clients ua sp client_folders

      listed : Bytes → List NodeId → Step ua sp (Unit {0})
      listed name devices c' = continue rest (discover_devices ua sp name devices c')

      named : Bytes → Step ua sp (Unit {0})
      named name c' = continue (listed name) (ask ua sp (browse_children client_folder) c')

      listed-IsSafe :
          IsSafe (rest tt) → (name : Bytes) (devices : List NodeId) → IsSafe (listed name devices)
      listed-IsSafe ih name devices c' o' =
          continue-IsSafe rest (λ _. ih) c' (discover_devices ua sp name devices c')
            (discover_devices-IsSafe name devices c' o')

      named-IsSafe : IsSafe (rest tt) → (name : Bytes) → IsSafe (named name)
      named-IsSafe ih name c' o' =
          continue-IsSafe (listed name) (listed-IsSafe ih name) c'
            (ask ua sp (browse_children client_folder) c')
            (ask-IsSafe (browse_children client_folder) c' o')

  discover_in-IsSafe : (clients_folder : NodeId) → IsSafe (discover_in ua sp clients_folder)
  discover_in-IsSafe clients_folder c o = elim (Bool-cases (same_node ua clients_folder null)) [
    | inl nothing ↦ rw nothing (o, λ key v e. e)
    | inr folder ↦ rw folder (
        continue-IsSafe (discover_clients ua sp) discover_clients-IsSafe c
          (ask ua sp (browse_children clients_folder) c)
          (ask-IsSafe (browse_children clients_folder) c o))
  ]

  discover_and_subscribe-IsSafe :
      (objects_folder : NodeId) → IsSafe (discover_and_subscribe ua sp objects_folder)
  unfolding discover_and_subscribe
  discover_and_subscribe-IsSafe objects_folder c o =
      let browse =
        browse_child objects_folder telemetry_namespace_index telemetry_clients_folder_name in
      continue-IsSafe (discover_in ua sp) discover_in-IsSafe c (ask ua sp browse c)
        (ask-IsSafe browse c o)

  -- A poll, also one that a server error ends at any call, forgets no cached device and keeps its
  -- entry; if no device was subscribed twice and each subscribed one was cached, this still holds.
  pub poll-StaysOnce :
      (objects_folder : NodeId) (now poll_interval : ℕ) (c : ControlCenterClient ua F sp)
      → IsOnce ua sp c.device_cache c.subscriptions
      → StaysOnce ua sp c (poll ua sp objects_folder now poll_interval c).0
  unfolding poll
  poll-StaysOnce objects_folder now poll_interval c o =
      elim (Bool-cases (leb poll_interval (now - c.last_poll))) [
        | inr early ↦ rw early (o, λ key v e. e)
        | inl due ↦ rw due (
            continue-IsSafe (λ _. put_last_poll ua sp now) (λ _ c' o'. (o', λ key v e. e)) c
              (discover_and_subscribe ua sp objects_folder c)
              (discover_and_subscribe-IsSafe objects_folder c o))
      ]
