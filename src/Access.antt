-- ===== src/Access.antt =====
-- OPC_UA/AccessControlCustom.cpp and .h: who may open a session, and what a session may do.
pub mod Rules
pub mod Names
pub mod Identity
pub mod Sessions
pub mod Isolation
pub mod Rejected
use hardware_monitor.Device.{sensor_type_eq}
use hardware_monitor.Files.{FilePath, FileSystem, ◌//◌}
use hardware_monitor.Prelude.{
  Bool, true, false, not, ◌&&◌, Option, none, some, List, [], ◌∷◌, ◌++◌, Bytes, bytes, Eq, ◌==◌,
  list_eq, nat_eq, ltb, length, take, if◌then◌else◌, Map, insert,
}
use hardware_monitor.Ua.{NodeIds, node_eq}

-- opcua::Bitmask<opcua::AccessLevel>, as far as this code sets it.
pub record AccessLevel : Type 0 where
  pub current_read : Bool
  pub current_write : Bool

abbrev pub read_write : AccessLevel
read_write = record { current_read = true; current_write = true }

abbrev pub no_access : AccessLevel
no_access = record { current_read = false; current_write = false }

abbrev pub is_read_write : AccessLevel → Bool
is_read_write l = l.current_read && l.current_write

pub data WriteMask : Type 0 where
  nothing value_for_variable_type : WriteMask

pub data StatusCode : Type 0 where
  good bad_identity_token_invalid bad_identity_token_rejected bad_certificate_untrusted : StatusCode

pub record X509IdentityToken : Type 0 where
  pub policy_id : Bytes
  pub certificate_data : Bytes

abbrev pub x509_token_policy_id : Bytes
x509_token_policy_id = bytes "open62541-certificate-policy#Basic256Sha256"

pub record ClientAttributes (ua : NodeIds) : Type 0 where
  pub device_name : Bytes
  pub access_lvl : AccessLevel
  pub can_browse : Bool
  pub can_execute_methods : Bool
  pub can_write_history : Bool
  pub device_folder_id : ua.NodeId

pub record AccessControl (ua : NodeIds) : Type 0 where
  pub session_attributes : Map ua.NodeId (ClientAttributes ua)
  pub telemetry_clients_folder : ua.NodeId

pub record AddNodesItem (ua : NodeIds) : Type 0 where
  pub parent_node_id : ua.NodeId
  pub requested_new_node_id : ua.NodeId

pub record AddReferencesItem (ua : NodeIds) : Type 0 where
  pub source_node_id : ua.NodeId
  pub target_node_id : ua.NodeId
  -- Whether the reference type is HasTypeDefinition.
  pub is_type_definition : Bool

-- `id_str == device_name`, or a longer string that starts with `device_name + "."`.
unfoldable pub name_belongs_to_device : Bytes → Bytes → Bool
name_belongs_to_device id_str device_name =
    let prefix = device_name ++ bytes "." in
    if id_str == device_name
    then true
    else ltb (length prefix) (length id_str) && (take (length prefix) id_str == prefix)

-- The loop of `findTrustedDevice` over the directory entries of `devicesDir`.
unfoldable pub find_trusted_device_in :
    FileSystem → FilePath → Bytes → Bytes → List Bytes → Option Bytes
find_trusted_device_in fs devices_dir usr_tkn_cert channel_cert [] = none
find_trusted_device_in fs devices_dir usr_tkn_cert channel_cert (device_name ∷ entries) =
    let rest = find_trusted_device_in fs devices_dir usr_tkn_cert channel_cert entries in
    let cert_path = devices_dir // device_name // (device_name ++ bytes ".crt") in
    if not (fs.is_directory (devices_dir // device_name))
    then rest
    else if device_name == bytes "server"
    then rest
    else if not (fs.is_regular_file cert_path)
    then rest
    else elim (fs.contents cert_path) [
      | none ↦ rest
      | some parsed ↦
          if parsed == []
          then rest
          else if (usr_tkn_cert == parsed) && (parsed == channel_cert)
          then some device_name
          else rest
    ]

unfoldable pub find_trusted_device : FileSystem → FilePath → Bytes → Bytes → Option Bytes
unfolding find_trusted_device_in
find_trusted_device fs devices_dir usr_tkn_cert channel_cert =
    if not (fs.is_directory devices_dir)
    then none
    else find_trusted_device_in fs devices_dir usr_tkn_cert channel_cert (fs.directory devices_dir)

module _ (ua : NodeIds) where
  open ua use {NodeId, null, namespace_index, identifier_if_string}

  instance abbrev id_eq : Eq NodeId
  id_eq = node_eq ua

  unfoldable pub node_id_belongs_to_device : NodeId → Bytes → Bool
  unfolding name_belongs_to_device
  node_id_belongs_to_device id device_name = elim (identifier_if_string id) [
    | none ↦ false
    | some id_str ↦ name_belongs_to_device id_str device_name
  ]

  -- What `operator[]` stores under a key that is missing.
  abbrev pub default_attributes : ClientAttributes ua
  default_attributes = record {
    device_name = [];
    access_lvl = no_access;
    can_browse = false;
    can_execute_methods = false;
    can_write_history = false;
    device_folder_id = null;
  }

  abbrev pub rejected_attributes : ClientAttributes ua
  rejected_attributes = record default_attributes { device_name = bytes "Unsupported Device" }

  abbrev pub trusted_attributes : Bytes → ClientAttributes ua
  trusted_attributes name = record {
    device_name = name;
    access_lvl = read_write;
    can_browse = true;
    can_execute_methods = true;
    can_write_history = false;
    device_folder_id = null;
  }

  unfoldable pub reject_session :
      AccessControl ua → NodeId → StatusCode → AccessControl ua × StatusCode
  reject_session ac session code = (
    record ac { session_attributes = insert session rejected_attributes ac.session_attributes },
    code,
  )

  -- `token` is the decoded identity token, if it decodes to an X509 token.
  unfoldable pub activate_session :
      FileSystem
      → FilePath
      → AccessControl ua
      → NodeId
      → Bytes
      → Option X509IdentityToken
      → AccessControl ua × StatusCode
  unfolding reject_session
  activate_session fs root ac session channel_cert none =
      reject_session ac session bad_identity_token_invalid
  activate_session fs root ac session channel_cert (some token) =
      if not (token.policy_id == x509_token_policy_id)
      then reject_session ac session bad_identity_token_rejected
      else elim (find_trusted_device fs (root // bytes "pki" // bytes "devices")
          token.certificate_data channel_cert) [
            | none ↦ reject_session ac session bad_certificate_untrusted
            | some name ↦ (
              record ac {
                session_attributes = insert session (trusted_attributes name) ac.session_attributes;
              },
              good,
            )
          ]

  unfoldable pub close_session : AccessControl ua → NodeId → AccessControl ua
  close_session ac session = ac
