-- ===== src/Nodes.antt =====
-- OPC_UA/utils.cpp: the nodes of a client's folder and of its devices, found or created.
pub mod Stable
pub mod Values
use hardware_monitor.Service.{
  base_object, folder_object, ◌>>=◌, AddressSpace, Call, return, NodeKind, Result, bad,
  bad_no_match, bad_other, ok, sensors_variable, string_variable,
}
use hardware_monitor.Layout.{client_folder_id, snapshot_field_id, snapshot_object_id}
use hardware_monitor.Prelude.{Bytes, Option, [], bytes, none, some, take, ℕ}
use hardware_monitor.Telemetry.{
  DecodedDevice, TelemetryStore, Variant, extension_objects, read_string, text,
}
use hardware_monitor.Ua.{NodeIds}

pub record SnapshotNodeIds (ua : NodeIds) : Type 0 where
  pub object : ua.NodeId
  pub name : ua.NodeId
  pub vendor : ua.NodeId
  pub hardware_type : ua.NodeId
  pub sensors : ua.NodeId

module _ {F : Type 0} (ua : NodeIds) (sp : AddressSpace ua F) where
  open ua use {NodeId, string_id}
  open sp use {Space, browse_child, add_child, write_value, read_value}

  -- `tryBrowseChild`: no match is an answer, any other bad status is thrown on.
  abbrev pub no_match_is_none : Space × Result NodeId → Space × Result (Option NodeId)
  no_match_is_none (s, ok id) = (s, ok (some id))
  no_match_is_none (s, bad bad_no_match) = (s, ok none)
  no_match_is_none (s, bad (bad_other n)) = (s, bad (bad_other n))

  unfoldable pub try_browse_child : NodeId → ℕ → Bytes → Call Space (Option NodeId)
  try_browse_child parent ns name s = no_match_is_none (browse_child parent ns name s)

  abbrev pub found_or_added :
      NodeKind → NodeId → ℕ → (name ident : Bytes) → Option NodeId → Call Space NodeId
  found_or_added kind parent ns name ident (some id) = return id
  found_or_added kind parent ns name ident none = add_child kind parent (string_id ns ident) name

  -- The shape of all the `ensure` functions: browse for the child, else add it.
  unfoldable pub ensure_child : NodeKind → NodeId → ℕ → (name ident : Bytes) → Call Space NodeId
  ensure_child kind parent ns name ident = do
    existing ← try_browse_child parent ns name
    found_or_added kind parent ns name ident existing

  unfoldable pub ensure_client_folder : NodeId → Bytes → ℕ → Call Space NodeId
  ensure_client_folder telemetry_clients_folder device_name ns =
      ensure_child folder_object telemetry_clients_folder ns device_name
        (client_folder_id device_name)

  unfoldable pub ensure_string_var :
      NodeId → (device_name device_key field : Bytes) → ℕ → Call Space NodeId
  ensure_string_var parent device_name device_key field ns =
      ensure_child string_variable parent ns field (snapshot_field_id device_name device_key field)

  unfoldable pub ensure_snapshot_node :
      NodeId → (device_name device_key : Bytes) → ℕ → Call Space (SnapshotNodeIds ua)
  ensure_snapshot_node client_folder device_name device_key ns = do
    obj ←
        ensure_child base_object client_folder ns device_key
          (snapshot_object_id device_name device_key)
    name ← ensure_string_var obj device_name device_key (bytes "name") ns
    vendor ← ensure_string_var obj device_name device_key (bytes "vendor") ns
    hardware_type ← ensure_string_var obj device_name device_key (bytes "hardware_type") ns
    sensors ←
        ensure_child sensors_variable obj ns (bytes "sensors")
          (snapshot_field_id device_name device_key (bytes "sensors"))
    return (record {
      object = obj;
      name = name;
      vendor = vendor;
      hardware_type = hardware_type;
      sensors = sensors;
    })

  -- The span of the sensors that `writeSnapshot` hands over.
  abbrev pub sensors_value : TelemetryStore F → Variant F
  sensors_value store = elim store.dev_sensors [
    | none ↦ extension_objects []
    | some exts ↦ extension_objects (take store.dev_sensors_size exts)
  ]

  unfoldable pub write_snapshot : SnapshotNodeIds ua → TelemetryStore F → Call Space Unit
  write_snapshot ids store = do
    first ← write_value ids.name (text store.name)
    second ← write_value ids.vendor (text store.vendor)
    third ← write_value ids.hardware_type (text store.hardware_type)
    write_value ids.sensors (sensors_value store)

  unfoldable pub read_string_node : NodeId → Call Space Bytes
  read_string_node id = do val ← read_value id; return (read_string val)

  unfoldable pub read_device_info : SnapshotNodeIds ua → Call Space (DecodedDevice F)
  read_device_info ids = do
    name ← read_string_node ids.name
    vendor ← read_string_node ids.vendor
    hardware_type ← read_string_node ids.hardware_type
    return (record { name = name; vendor = vendor; hardware_type = hardware_type; sensors = [] })
