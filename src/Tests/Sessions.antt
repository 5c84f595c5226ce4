-- ===== src/Tests/Sessions.antt =====
-- Witnesses of the access control's properties: one device with a certificate on file.

use hardware_monitor.Access.Rejected.{HasNoRights, rejected-HasNoRights}
use hardware_monitor.Access.Sessions.{
  access_level, add_node, Inv, Request, activate, close, run-start-Inv, run, start,
}
use hardware_monitor.Prelude.{
  none, subst, ◌⊎◌, Bytes, List, [], arith, bytes, list_discrete, list_eq, lookup, nat_eq,
  pair_discrete, refl, some, true, ℕ, ◌↔◌, ◌∷◌, ◌≡◌, ℕ_discrete,
}
use hardware_monitor.Access.{
  is_read_write, name_belongs_to_device, node_id_belongs_to_device, AccessControl, AddNodesItem,
  ClientAttributes, X509IdentityToken, activate_session, good, trusted_attributes,
  x509_token_policy_id,
}
use hardware_monitor.Access.Isolation.{
  allow_add_node_iff, attributes, devices_isolated, publisher_allowed,
}
use hardware_monitor.Access.Names.{NoDot}
use hardware_monitor.Access.Rules.{allow_add_node, owns}
use hardware_monitor.Layout.{client_folder_id, snapshot_field_id, snapshot_object_id}
use hardware_monitor.Access.Identity.{Accepts, activate_session-eq-good_iff}
use hardware_monitor.Device.{sensor_type_eq}
use hardware_monitor.Files.{FilePath, FileSystem}
use hardware_monitor.Tests.{node_ids, value_eq}

abbrev pub lab : Bytes
lab = bytes "lab"

abbrev pub cert : Bytes
cert = 1 ∷ 2 ∷ []

abbrev pub files : FileSystem
files = record {
  is_directory = λ p. true;
  is_regular_file = λ p. true;
  directory = λ p. bytes "server" ∷ lab ∷ [];
  contents = λ p. some cert;
}

abbrev pub root : FilePath
root = bytes "srv" ∷ []

abbrev clients_folder : ℕ × Bytes
clients_folder = (1, bytes "TelemetryClients")

abbrev pub session : ℕ × Bytes
session = (0, bytes "session")

abbrev pub token : X509IdentityToken
token = record { policy_id = x509_token_policy_id; certificate_data = cert }

abbrev granted : ClientAttributes node_ids
granted = trusted_attributes node_ids lab

abbrev control : AccessControl node_ids
control = record {
  session_attributes = (session, granted) ∷ [];
  telemetry_clients_folder = clients_folder;
}

abbrev pub new_control : AccessControl node_ids
new_control = start node_ids clients_folder

activate_session-eq-good_iff_example :
    ((activate_session node_ids files root new_control session cert (some token)).1 ≡ good)
    ↔ Accepts node_ids files root new_control cert (some token)
activate_session-eq-good_iff_example =
    activate_session-eq-good_iff node_ids files root new_control session cert (some token)

abbrev requests : List (Request node_ids)
requests = activate session cert (some token) ∷ close session ∷ []

run-start-Inv_example :
    Inv node_ids files root (run node_ids files root (start node_ids clients_folder) requests)
run-start-Inv_example = run-start-Inv node_ids files root clients_folder requests

abbrev item : AddNodesItem node_ids
item = record { parent_node_id = clients_folder; requested_new_node_id = (1, lab) }

lab-NoDot : NoDot lab
lab-NoDot = (omega arith, (omega arith, (omega arith, tt)))

attributes-control : attributes node_ids control session ≡ some granted
unfolding lookup pair_discrete list_discrete ℕ_discrete
attributes-control = refl

allowed : (allow_add_node node_ids control session item).1 ≡ true
unfolding allow_add_node name_belongs_to_device node_id_belongs_to_device lookup pair_discrete
    list_discrete ℕ_discrete
allowed = refl

plain :
    (attrs : ClientAttributes node_ids)
    → attributes node_ids control session ≡ some attrs
    → NoDot attrs.device_name
unfolding lookup pair_discrete list_discrete ℕ_discrete
plain attrs h = subst (λ a. NoDot a.device_name) (some_injective h) lab-NoDot
  where
    some_injective : some granted ≡ some attrs → granted ≡ attrs
    some_injective e = cc

devices_isolated_example :
    (attrs : ClientAttributes node_ids) × (attrs' : ClientAttributes node_ids) × (attributes
        node_ids control session
      ≡ some attrs)
    × (attributes node_ids control session ≡ some attrs')
    × (attrs.device_name ≡ attrs'.device_name)
devices_isolated_example =
    devices_isolated node_ids control control session session item item plain plain refl allowed
      allowed

allow_add_node_iff_example : ((allow_add_node node_ids control session item).1 ≡ true) ↔ (
    (is_read_write granted.access_lvl ≡ true)
    × (node_id_belongs_to_device node_ids item.requested_new_node_id granted.device_name ≡ true)
    × ((item.parent_node_id ≡ control.telemetry_clients_folder)
        ⊎ (owns node_ids granted item.parent_node_id ≡ true)))
allow_add_node_iff_example =
    allow_add_node_iff node_ids control session item granted attributes-control

abbrev field_item : Bytes → Bytes → AddNodesItem node_ids
field_item parent id = record { parent_node_id = (1, parent); requested_new_node_id = (1, id) }

publisher_allowed_example :
    ((allow_add_node node_ids control session (record {
      parent_node_id = clients_folder;
      requested_new_node_id = (1, client_folder_id lab);
    })).1
      ≡ true)
    × ((allow_add_node node_ids control session
          (field_item (client_folder_id lab) (snapshot_object_id lab (bytes "CPU")))).1
        ≡ true)
    × ((allow_add_node node_ids control session (
          field_item
            (snapshot_object_id lab (bytes "CPU"))
            (snapshot_field_id lab (bytes "CPU") (bytes "name")))).1
        ≡ true)
publisher_allowed_example =
    publisher_allowed node_ids control session granted (bytes "CPU") (bytes "name")
      attributes-control refl (λ e. cc e)

abbrev stranger : ℕ × Bytes
stranger = (0, bytes "stranger")

-- The session had full rights; then its token does not decode, and later another device's session is
-- activated and it asks for its folder.
abbrev later : List (Request node_ids)
later = add_node session item ∷ activate stranger cert (some token) ∷ access_level session ∷ []

rejected-HasNoRights_example :
    HasNoRights node_ids
      (run node_ids files root
        (activate_session node_ids files root control session cert none).0
        later)
      session
unfolding activate_session
rejected-HasNoRights_example =
    rejected-HasNoRights node_ids files root control session cert none later (λ e. cc e)
      (tt, ((λ e. cc e), (tt, tt)))
