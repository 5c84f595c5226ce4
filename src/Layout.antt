-- ===== src/Layout.antt =====
-- OPC_UA/shared_opc_ua_layout.h: the string identifiers of the nodes that clients create.
use hardware_monitor.Prelude.{ℕ, ◌++◌, Bytes, bytes}

abbrev pub telemetry_namespace_index : ℕ
telemetry_namespace_index = 1

abbrev pub telemetry_clients_folder_name : Bytes
telemetry_clients_folder_name = bytes "TelemetryClients"

-- ObjectsFolder/TelemetryClients/<device_name>
unfoldable pub client_folder_id : Bytes → Bytes
client_folder_id device_name = device_name

-- .../<device_name>/<device_key>
unfoldable pub snapshot_object_id : Bytes → Bytes → Bytes
snapshot_object_id device_name device_key = device_name ++ (bytes "." ++ device_key)

-- .../<device_name>/<device_key>/<field>
unfoldable pub snapshot_field_id : Bytes → Bytes → Bytes → Bytes
snapshot_field_id device_name device_key field =
    device_name ++ (bytes "." ++ (device_key ++ (bytes "." ++ field)))
