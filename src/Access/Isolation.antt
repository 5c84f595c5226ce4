-- ===== src/Access/Isolation.antt =====
-- OPC_UA/AccessControlCustom.cpp: what the permission callbacks grant, and to whom.
use hardware_monitor.Device.{sensor_type_eq}
use hardware_monitor.Access.Names.{
  Extends, NoDot, dot, name_belongs_to_device_iff, name_belongs_to_device_unique,
}
use hardware_monitor.Layout.{
  client_folder_id, snapshot_field_id, snapshot_object_id, telemetry_namespace_index,
}
use hardware_monitor.Prelude.{
  Bytes, [], refl, ℕ, ◌++◌, ◌≢◌, Option, Option-cases, arith, false, inl, inr, list_eq, lookup,
  nat_eq, some, true, ◌↔◌, ◌≡◌, ◌⊎◌,
}
use hardware_monitor.Access.{
  AccessControl, AddNodesItem, AddReferencesItem, ClientAttributes, is_read_write,
  node_id_belongs_to_device,
}
use hardware_monitor.Access.Rules.{allow_add_node, allow_add_reference, owns}
use hardware_monitor.Ua.{NodeIds, node_eq}

module _ (ua : NodeIds) where
  open ua use {
    NodeId, namespace_index, string_id, identifier_if_string, identifier_if_string-string_id,
  }

  abbrev pub attributes : AccessControl ua → NodeId → Option (ClientAttributes ua)
  attributes ac session = lookup ⦃e = node_eq ua⦄ session ac.session_attributes

  -- `allowAddNode` grants a node exactly to a session with full rights, whose device the new node
  -- belongs to, under TelemetryClients or under a node of the session's own.
  pub allow_add_node_iff :
      (ac : AccessControl ua) (session : NodeId) (item : AddNodesItem ua)
      (attrs : ClientAttributes ua)
      → attributes ac session ≡ some attrs
      → ((allow_add_node ua ac session item).1 ≡ true) ↔ (
          (is_read_write attrs.access_lvl ≡ true)
          × (node_id_belongs_to_device ua item.requested_new_node_id attrs.device_name ≡ true)
          × ((item.parent_node_id ≡ ac.telemetry_clients_folder)
              ⊎ (owns ua attrs item.parent_node_id ≡ true)))
  unfolding allow_add_node
  allow_add_node_iff ac session item attrs found = ground arith

  granted_belongs :
      (ac : AccessControl ua) (session : NodeId) (item : AddNodesItem ua)
      → (allow_add_node ua ac session item).1 ≡ true
      → (attrs : ClientAttributes ua) × (attributes ac session ≡ some attrs)
        × (node_id_belongs_to_device ua item.requested_new_node_id attrs.device_name ≡ true)
  unfolding allow_add_node
  granted_belongs ac session item h = elim (Option-cases (attributes ac session)) [
    | inl q ↦ absurd (ground (arith, q))
    | inr (attrs, q) ↦ (attrs, q, ((allow_add_node_iff ac session item attrs q).0 h).1)
  ]

  node_id_belongs_to_device_unique :
      (id : NodeId) (a b : Bytes)
      → NoDot a
      → NoDot b
      → node_id_belongs_to_device ua id a ≡ true
      → node_id_belongs_to_device ua id b ≡ true
      → a ≡ b
  unfolding node_id_belongs_to_device
  node_id_belongs_to_device_unique id a b p q h k = elim (Option-cases (identifier_if_string id)) [
    | inl e ↦ absurd (ground (arith, e))
    | inr (s, e) ↦ name_belongs_to_device_unique s a b p q (ground (arith, e)) (ground (arith, e))
  ]

  -- Two sessions that may both create one node are sessions of one device, if no device's name
  -- holds a dot; the requests may come at different times and name different parents.
  pub devices_isolated :
      (ac ac' : AccessControl ua) (s s' : NodeId) (item item' : AddNodesItem ua)
      → ((attrs : ClientAttributes ua) → attributes ac s ≡ some attrs → NoDot attrs.device_name)
      → ((attrs : ClientAttributes ua) → attributes ac' s' ≡ some attrs → NoDot attrs.device_name)
      → item.requested_new_node_id ≡ item'.requested_new_node_id
      → (allow_add_node ua ac s item).1 ≡ true
      → (allow_add_node ua ac' s' item').1 ≡ true
      → (attrs : ClientAttributes ua) × (attrs' : ClientAttributes ua) × (attributes ac s
          ≡ some attrs)
        × (attributes ac' s' ≡ some attrs')
        × (attrs.device_name ≡ attrs'.device_name)
  devices_isolated ac ac' s s' item item' plain plain' e h k =
      let (attrs, q, b) = granted_belongs ac s item h in
      let (attrs', q', b') = granted_belongs ac' s' item' k in
      (
        attrs,
        attrs',
        q,
        q',
        node_id_belongs_to_device_unique item.requested_new_node_id attrs.device_name
            attrs'.device_name (plain attrs q) (plain' attrs' q') b (rw e b'),
      )

  -- `allowAddReference` grants a reference exactly to a session with full rights, from a node of its
  -- own, to a node of namespace 0 or, unless it gives the type, to TelemetryClients or a node of its
  -- own.
  pub allow_add_reference_iff :
      (ac : AccessControl ua) (session : NodeId) (item : AddReferencesItem ua)
      (attrs : ClientAttributes ua)
      → attributes ac session ≡ some attrs
      → (allow_add_reference ua ac session item ≡ true) ↔ (
          (is_read_write attrs.access_lvl ≡ true)
          × (owns ua attrs item.source_node_id ≡ true)
          × ((namespace_index item.target_node_id ≡ 0)
              ⊎ ((item.is_type_definition ≡ false)
                  × ((item.target_node_id ≡ ac.telemetry_clients_folder)
                      ⊎ (owns ua attrs item.target_node_id ≡ true)))))
  unfolding allow_add_reference
  allow_add_reference_iff ac session item attrs found = ground arith

  belongs_of_Extends :
      (ns : ℕ) (id name : Bytes)
      → Extends id name
      → node_id_belongs_to_device ua (string_id ns id) name ≡ true
  unfolding node_id_belongs_to_device
  belongs_of_Extends ns id name x =
      ground (arith, identifier_if_string-string_id ns id, (name_belongs_to_device_iff id name).1 x)

  -- A session with full rights for a device may create every node that the device's client asks
  -- for: its folder under TelemetryClients, an object under the folder for each key that is not
  -- empty, and each field under such an object.
  pub publisher_allowed :
      (ac : AccessControl ua) (session : NodeId) (attrs : ClientAttributes ua) (key field : Bytes)
      → attributes ac session ≡ some attrs
      → is_read_write attrs.access_lvl ≡ true
      → key ≢ []
      → ((allow_add_node ua ac session (record {
        parent_node_id = ac.telemetry_clients_folder;
        requested_new_node_id =
            string_id telemetry_namespace_index (client_folder_id attrs.device_name);
      })).1
          ≡ true)
        × ((allow_add_node ua ac session (record {
          parent_node_id = string_id telemetry_namespace_index (client_folder_id attrs.device_name);
          requested_new_node_id =
              string_id telemetry_namespace_index (snapshot_object_id attrs.device_name key);
        })).1
            ≡ true)
        × ((allow_add_node ua ac session (record {
          parent_node_id =
              string_id telemetry_namespace_index (snapshot_object_id attrs.device_name key);
          requested_new_node_id =
              string_id telemetry_namespace_index (snapshot_field_id attrs.device_name key field);
        })).1
            ≡ true)
  unfolding client_folder_id snapshot_object_id snapshot_field_id
  publisher_allowed ac session attrs key field found full filled =
      let name = attrs.device_name in
      let folder = belongs_of_Extends 1 name name (inl refl) in
      let object = belongs_of_Extends 1 (name ++ (dot ++ key)) name (inr (key, refl, filled)) in
      let below = key ++ (dot ++ field) in
      let leaf =
        belongs_of_Extends 1 (name ++ (dot ++ below)) name
          (inr (below, refl, ground (arith, filled))) in
      (
        (allow_add_node_iff ac session _ attrs found).1 (full, folder, inl refl),
        (allow_add_node_iff ac session _ attrs found).1
            (full, object, inr (ground (arith, folder))),
        (allow_add_node_iff ac session _ attrs found).1 (full, leaf, inr (ground (arith, object))),
      )
