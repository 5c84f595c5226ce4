-- ===== src/Access/Sessions.antt =====
-- OPC_UA/AccessControlCustom.cpp: what every history of requests leaves in `session_attributes_`.
use hardware_monitor.Device.{sensor_type_eq}
use hardware_monitor.Access.{
  is_read_write, AccessControl, AddNodesItem, ClientAttributes, StatusCode, X509IdentityToken,
  activate_session, close_session, default_attributes, no_access, node_id_belongs_to_device,
  read_write,
}
use hardware_monitor.Access.Identity.{
  Activation, IsTrusted, activate_session_cases, devices_dir, rejected, stored, trusted,
}
use hardware_monitor.Access.Rules.{
  allow_add_node, attributes_of, get_user_access_level, get_user_rights_mask,
}
use hardware_monitor.Files.{FilePath, FileSystem}
use hardware_monitor.Prelude.{
  Bool-cases, Bytes, List, Option, Option-cases, [], arith, false, inl, inr, list_eq, lookup,
  lookup-insert, nat_eq, refl, some, subst, true, ◌∷◌, ◌≡◌, ◌⊎◌,
}
use hardware_monitor.Ua.{NodeIds, node_eq, same_node}

module _ (ua : NodeIds) where
  open ua use {NodeId}

  -- The calls that may change the session table.
  pub data Request : Type 0 where
    activate : NodeId → Bytes → Option X509IdentityToken → Request
    close : NodeId → Request
    add_node : NodeId → AddNodesItem ua → Request
    rights_mask : NodeId → Request
    access_level : NodeId → Request

  unfoldable pub step : FileSystem → FilePath → AccessControl ua → Request → AccessControl ua
  step fs root ac (activate session channel token) =
      (activate_session ua fs root ac session channel token).0
  step fs root ac (close session) = close_session ua ac session
  step fs root ac (add_node session item) = (allow_add_node ua ac session item).0
  step fs root ac (rights_mask session) = (get_user_rights_mask ua ac session).0
  step fs root ac (access_level session) = (get_user_access_level ua ac session).0

  unfoldable pub run : FileSystem → FilePath → AccessControl ua → List Request → AccessControl ua
  run fs root ac [] = ac
  run fs root ac (r ∷ rs) = run fs root (step fs root ac r) rs

  abbrev pub start : NodeId → AccessControl ua
  start folder = record { session_attributes = []; telemetry_clients_folder = folder }

module _ (ua : NodeIds) (fs : FileSystem) (root : FilePath) where
  open ua use {NodeId, null}

  -- A device is trusted by some certificate on file.
  abbrev pub IsKnown : Bytes → Type 0
  IsKnown name = (cert : Bytes) × IsTrusted fs (devices_dir root) cert name

  -- Rights come with a known device only, and the folder is the device's own.
  abbrev pub IsSound : ClientAttributes ua → Type 0
  IsSound attrs =
      ((attrs.access_lvl ≡ read_write)
        × (attrs.can_browse ≡ true)
        × IsKnown attrs.device_name
        × ((attrs.device_folder_id ≡ null)
            ⊎ (node_id_belongs_to_device ua attrs.device_folder_id attrs.device_name ≡ true)))
      ⊎ ((attrs.access_lvl ≡ no_access) × (attrs.can_browse ≡ false))

  abbrev pub Inv : AccessControl ua → Type 0
  Inv ac =
      (s : NodeId) (attrs : ClientAttributes ua)
      → lookup ⦃e = node_eq ua⦄ s ac.session_attributes ≡ some attrs
      → IsSound attrs

  insert-Inv :
      (ac : AccessControl ua) (session : NodeId) (attrs : ClientAttributes ua)
      → Inv ac
      → IsSound attrs
      → Inv (stored ua fs root ac session attrs)
  insert-Inv ac session attrs inv sound s a h =
      let law = lookup-insert ⦃e = node_eq ua⦄ session s attrs ac.session_attributes in
      elim (Bool-cases (same_node ua session s)) [
        | inl same ↦ let e : attrs ≡ a = ground (arith, law) in subst IsSound e sound
        | inr other ↦ inv s a (ground (arith, law))
      ]

  attributes_of-Inv : (ac : AccessControl ua) (s : NodeId) → Inv ac → Inv (attributes_of ua ac s).0
  unfolding attributes_of
  attributes_of-Inv ac s inv =
      elim (Option-cases (lookup ⦃e = node_eq ua⦄ s ac.session_attributes)) [
        | inl q ↦
            rw (q, attributes_of) (insert-Inv ac s (default_attributes ua) inv (inr (refl, refl)))
        | inr (a, q) ↦ rw (q, attributes_of) inv
      ]

  activate_session-Inv :
      (ac : AccessControl ua) (session : NodeId) (channel : Bytes)
      (token : Option X509IdentityToken)
      → Inv ac
      → Inv (activate_session ua fs root ac session channel token).0
  activate_session-Inv ac session channel token inv =
      let (attrs, code, a, e) = activate_session_cases ua fs root ac session channel token in
      rw e (insert-Inv ac session attrs inv (outcome attrs code a))
    where
      outcome :
          (attrs : ClientAttributes ua) (code : StatusCode)
          → Activation ua fs root ac channel attrs code
          → IsSound attrs
      outcome attrs code (trusted name t _) = inl (refl, refl, (channel, t), inl refl)
      outcome attrs code (rejected c _) = inr (refl, refl)

  -- `allowAddNode` changes the table only where it grants a device its folder.
  pub allow_add_node_cases :
      (ac : AccessControl ua) (session : NodeId) (item : AddNodesItem ua)
      → ((allow_add_node ua ac session item).0 ≡ ac)
        ⊎ ((attrs : ClientAttributes ua) × (lookup ⦃e = node_eq ua⦄ session ac.session_attributes
              ≡ some attrs)
            × (node_id_belongs_to_device ua item.requested_new_node_id attrs.device_name ≡ true)
            × ((allow_add_node ua ac session item).0
                ≡ stored ua fs root ac session
                    (record attrs { device_folder_id = item.requested_new_node_id })))
  unfolding allow_add_node
  allow_add_node_cases ac session item =
      elim (Option-cases (lookup ⦃e = node_eq ua⦄ session ac.session_attributes)) [
        | inl q ↦ inl (rw (q, allow_add_node))
        | inr (attrs, q) ↦ elim (Bool-cases (is_read_write attrs.access_lvl)) [
          | inr denied ↦ inl (rw (q, allow_add_node, denied))
          | inl granted ↦
              elim (Bool-cases (same_node ua item.parent_node_id ac.telemetry_clients_folder)) [
                | inr nested ↦ inl (ground (arith, q))
                | inl top ↦
                    elim (Bool-cases
                      (node_id_belongs_to_device ua item.requested_new_node_id attrs.device_name)) [
                        | inr foreign ↦ inl (ground (arith, q))
                        | inl own ↦ inr (attrs, q, own, ground (arith, q))
                      ]
              ]
        ]
      ]

  allow_add_node-Inv :
      (ac : AccessControl ua) (session : NodeId) (item : AddNodesItem ua)
      → Inv ac
      → Inv (allow_add_node ua ac session item).0
  allow_add_node-Inv ac session item inv = elim (allow_add_node_cases ac session item) [
    | inl e ↦ rw e inv
    | inr (attrs, found, own, e) ↦ rw e (
        insert-Inv ac session (record attrs { device_folder_id = item.requested_new_node_id }) inv
          (refolded attrs item.requested_new_node_id own (inv session attrs found)))
  ]
    where
      refolded :
          (attrs : ClientAttributes ua) (id : NodeId)
          → node_id_belongs_to_device ua id attrs.device_name ≡ true
          → IsSound attrs
          → IsSound (record attrs { device_folder_id = id })
      refolded attrs id own (inl (l, b, k, _)) = inl (l, b, k, inr own)
      refolded attrs id own (inr (l, b)) = inr (l, b)

  step-Inv : (ac : AccessControl ua) (r : Request ua) → Inv ac → Inv (step ua fs root ac r)
  unfolding step close_session get_user_rights_mask get_user_access_level
  step-Inv ac (activate session channel token) inv =
      activate_session-Inv ac session channel token inv
  step-Inv ac (close session) inv = inv
  step-Inv ac (add_node session item) inv = allow_add_node-Inv ac session item inv
  step-Inv ac (rights_mask session) inv = attributes_of-Inv ac session inv
  step-Inv ac (access_level session) inv = attributes_of-Inv ac session inv

  -- From any table in which rights come with known devices only, every history of requests leads to
  -- such a table again.
  pub run-Inv :
      (ac : AccessControl ua) (rs : List (Request ua)) → Inv ac → Inv (run ua fs root ac rs)
  unfolding run
  run-Inv ac [] inv = inv
  run-Inv ac (r ∷ rs) inv = run-Inv (step ua fs root ac r) rs (step-Inv ac r inv)

  -- Whatever requests the server has answered since it started, a session that may browse or write
  -- belongs to a device whose certificate is on file, and its folder is that device's own.
  pub run-start-Inv :
      (folder : NodeId) (rs : List (Request ua)) → Inv (run ua fs root (start ua folder) rs)
  unfolding lookup
  run-start-Inv folder rs = run-Inv (start ua folder) rs (λ s attrs h. absurd (cc h))
