-- ===== src/Access/Rules.antt =====
-- OPC_UA/AccessControlCustom.cpp: the permission callbacks of an open session.
use hardware_monitor.Device.{sensor_type_eq}
use hardware_monitor.Prelude.{
  list_eq, Bool, true, false, not, ◌&&◌, ◌||◌, none, some, ◌==◌, nat_eq, if◌then◌else◌, lookup,
  insert,
}
use hardware_monitor.Access.{
  AccessControl, ClientAttributes, AddNodesItem, AddReferencesItem, AccessLevel, WriteMask, nothing,
  value_for_variable_type, is_read_write, default_attributes, node_id_belongs_to_device,
}
use hardware_monitor.Ua.{NodeIds, same_node, node_eq}

module _ (ua : NodeIds) where
  open ua use {NodeId, namespace_index}

  -- `session_attributes_[session.id()]`: an entry that is missing is created.
  unfoldable pub attributes_of : AccessControl ua → NodeId → AccessControl ua × ClientAttributes ua
  attributes_of ac session = elim (lookup ⦃e = node_eq ua⦄ session ac.session_attributes) [
    | some attrs ↦ (ac, attrs)
    | none ↦ (
      record ac {
        session_attributes =
            insert ⦃e = node_eq ua⦄ session (default_attributes ua) ac.session_attributes;
      },
      default_attributes ua,
    )
  ]

  unfoldable pub get_user_rights_mask : AccessControl ua → NodeId → AccessControl ua × WriteMask
  unfolding attributes_of
  get_user_rights_mask ac session =
      let (ac', attrs) = attributes_of ac session in
      (ac', if is_read_write attrs.access_lvl then value_for_variable_type else nothing)

  unfoldable pub get_user_access_level : AccessControl ua → NodeId → AccessControl ua × AccessLevel
  unfolding attributes_of
  get_user_access_level ac session =
      let (ac', attrs) = attributes_of ac session in (ac', attrs.access_lvl)

  unfoldable pub allow_add_node :
      AccessControl ua → NodeId → AddNodesItem ua → AccessControl ua × Bool
  allow_add_node ac session item = elim (lookup ⦃e = node_eq ua⦄ session ac.session_attributes) [
    | none ↦ (ac, false)
    | some attrs ↦
        let parent = item.parent_node_id in
        let requested = item.requested_new_node_id in
        if not (is_read_write attrs.access_lvl)
        then (ac, false)
        else if same_node ua parent ac.telemetry_clients_folder
        then if not (node_id_belongs_to_device ua requested attrs.device_name)
          then (ac, false)
          else (
            record ac {
              session_attributes =
                  insert ⦃e = node_eq ua⦄ session (record attrs { device_folder_id = requested })
                    ac.session_attributes;
            },
            true,
          )
        else if same_node ua parent attrs.device_folder_id
            || node_id_belongs_to_device ua parent attrs.device_name
        then (ac, node_id_belongs_to_device ua requested attrs.device_name)
        else (ac, false)
  ]

  -- Whether a node is the session's own: its folder, or named after its device.
  abbrev pub owns : ClientAttributes ua → NodeId → Bool
  owns attrs id =
      same_node ua id attrs.device_folder_id || node_id_belongs_to_device ua id attrs.device_name

  unfoldable pub allow_add_reference : AccessControl ua → NodeId → AddReferencesItem ua → Bool
  allow_add_reference ac session item =
      elim (lookup ⦃e = node_eq ua⦄ session ac.session_attributes) [
        | none ↦ false
        | some attrs ↦
            let target = item.target_node_id in
            let source_ok = owns attrs item.source_node_id in
            if not (is_read_write attrs.access_lvl)
            then false
            else if item.is_type_definition
            then source_ok && (namespace_index target == 0)
            else if not source_ok
            then false
            else if same_node ua target ac.telemetry_clients_folder
                || (same_node ua target attrs.device_folder_id
                    || node_id_belongs_to_device ua target attrs.device_name)
            then true
            else if namespace_index target == 0
            then true
            else false
      ]

  unfoldable pub allow_browse_node : AccessControl ua → NodeId → Bool
  allow_browse_node ac session = elim (lookup ⦃e = node_eq ua⦄ session ac.session_attributes) [
    | none ↦ false
    | some attrs ↦ attrs.can_browse
  ]

  -- The callbacks that refuse whatever they are asked: the two executable checks, the two
  -- deletions, the subscription transfer and the two history changes.
  unfoldable pub get_user_executable : AccessControl ua → NodeId → NodeId → Bool
  get_user_executable ac session method = false

  unfoldable pub get_user_executable_on_object : AccessControl ua → NodeId → NodeId → NodeId → Bool
  get_user_executable_on_object ac session method object = false

  unfoldable pub allow_delete_node : AccessControl ua → NodeId → NodeId → Bool
  allow_delete_node ac session node = false

  unfoldable pub allow_delete_reference : AccessControl ua → NodeId → NodeId → NodeId → Bool
  allow_delete_reference ac session source target = false

  unfoldable pub allow_transfer_subscription : AccessControl ua → NodeId → NodeId → Bool
  allow_transfer_subscription ac old_session new_session = false

  unfoldable pub allow_history_update : AccessControl ua → NodeId → NodeId → Bool
  allow_history_update ac session node = false

  unfoldable pub allow_history_delete : AccessControl ua → NodeId → NodeId → Bool
  allow_history_delete ac session node = false
