-- ===== src/Credentials.antt =====
-- OPC_UA/CustomClient.cpp and server.cpp: the certificates that client and server load, and what
-- the client needs to start.
use hardware_monitor.Gpu.NvidiaPool.{device_name}
use hardware_monitor.Access.Identity.{devices_dir}
use hardware_monitor.Device.{sensor_type_eq}
use hardware_monitor.Files.{FilePath, FileSystem, ◌//◌}
use hardware_monitor.Prelude.{
  Bool, Bytes, List, Option, [], bytes, if◌then◌else◌, list_eq, nat_eq, none, not, some, ◌++◌, ◌==◌,
  ◌∷◌,
}
pub mod Trust
pub mod Memory
pub mod Policies

-- A chain of reads that the first exception ends.
infixl 5 ◌>>=◌
abbrev ◌>>=◌ : {A B : Type 0} → Option A → (A → Option B) → Option B
none >>= f = none
some a >>= f = f a

-- `readBytesFromFile`, with `none` where it throws: the file does not open, is empty or cannot be
-- read.
unfoldable pub read_bytes_from_file : FileSystem → FilePath → Option Bytes
read_bytes_from_file fs path = elim (fs.contents path) [
  | none ↦ none
  | some parsed ↦ if parsed == [] then none else some parsed
]

-- The fields that ClientConfigAttributes and ServerConfigAttributes share.
pub record ConfigAttributes : Type 0 where
  pub certificate : Bytes
  pub private_key : Bytes
  pub trust_list : List Bytes
  pub issuer_list : List Bytes

-- An entry that is skipped where its file cannot be read.
abbrev pub entry_or_none : Option Bytes → List Bytes
entry_or_none none = []
entry_or_none (some parsed) = parsed ∷ []

abbrev pub identity_file : FilePath → Bytes → Bytes → FilePath
identity_file devices_dir name ending = devices_dir // name // (name ++ ending)

-- `none` where the identity files of the client cannot be read, which throws.
unfoldable pub get_client_config_attributes :
    FileSystem → FilePath → Bytes → Option ConfigAttributes
get_client_config_attributes fs project_root client_name = do
  let pki_root = project_root // bytes "pki"
  let devices_dir = pki_root // bytes "devices"
  certificate ← read_bytes_from_file fs (identity_file devices_dir client_name (bytes ".crt"))
  private_key ← read_bytes_from_file fs (identity_file devices_dir client_name (bytes ".key"))
  some (record {
    certificate = certificate;
    private_key = private_key;
    trust_list =
        entry_or_none
          (read_bytes_from_file fs (identity_file devices_dir (bytes "server") (bytes ".crt")));
    issuer_list =
        entry_or_none (read_bytes_from_file fs (pki_root // bytes "ca" // bytes "ca.crt"));
  })

-- What one directory entry adds to the server's trust list.
unfoldable pub device_entry : FileSystem → FilePath → Bytes → List Bytes
device_entry fs devices_dir device_name =
    let cert_path = identity_file devices_dir device_name (bytes ".crt") in
    if not (fs.is_directory (devices_dir // device_name))
    then []
    else if device_name == bytes "server"
    then []
    else if not (fs.is_regular_file cert_path)
    then []
    else entry_or_none (read_bytes_from_file fs cert_path)

-- The loop of the server over the directory of the devices.
unfoldable pub trusted_devices : FileSystem → FilePath → List Bytes → List Bytes
trusted_devices fs devices_dir [] = []
trusted_devices fs devices_dir (device_name ∷ entries) =
    device_entry fs devices_dir device_name ++ trusted_devices fs devices_dir entries

-- `none` where the server's identity or the certificate of the authority cannot be read.
unfoldable pub get_server_config_attributes : FileSystem → FilePath → Option ConfigAttributes
get_server_config_attributes fs proj_root = do
  let pki_root = proj_root // bytes "pki"
  let devices_dir = pki_root // bytes "devices"
  certificate ← read_bytes_from_file fs (identity_file devices_dir (bytes "server") (bytes ".crt"))
  private_key ← read_bytes_from_file fs (identity_file devices_dir (bytes "server") (bytes ".key"))
  authority ← read_bytes_from_file fs (pki_root // bytes "ca" // bytes "ca.crt")
  some (record {
    certificate = certificate;
    private_key = private_key;
    trust_list = trusted_devices fs devices_dir (fs.directory devices_dir);
    issuer_list = authority ∷ [];
  })

-- What the constructor of CustomClient comes to: an exception, a read of the first element of an
-- empty trust list, or a client that will talk to this endpoint with this server certificate.
pub data Startup : Type 0 where
  throws : Startup
  reads_past_end : Startup
  constructed : (endpoint_url server_certificate application_uri : Bytes) → Startup

-- From the read of `trust_list[0]` on; `has_memory` is whether UA_Array_new gives memory.
abbrev pub first_trusted : (has_memory : Bool) → Bytes → Bytes → List Bytes → Startup
first_trusted has_memory endpoint_url application_uri [] = reads_past_end
first_trusted has_memory endpoint_url application_uri (certificate ∷ rest) =
    if has_memory then constructed endpoint_url certificate application_uri else throws

-- `stack_accepts` is whether the calls of open62541 that may throw succeed for these attributes.
unfoldable pub construct_client :
    (ConfigAttributes → Bool)
    → (has_memory : Bool) → FileSystem
    → Option Bytes
    → FilePath
    → Bytes
    → Startup
construct_client stack_accepts has_memory fs server_ip project_root client_name =
    elim (get_client_config_attributes fs project_root client_name) [
      | none ↦ throws
      | some attrs ↦ if not (stack_accepts attrs) then throws else elim server_ip [
        | none ↦ throws
        | some ip ↦
            first_trusted has_memory (bytes "opc.tcp://" ++ (ip ++ bytes ":4840"))
              (bytes "urn:myorg:telemetry:" ++ client_name) attrs.trust_list
      ]
    ]

-- The file of the server's certificate.
abbrev pub server_file : FilePath → FilePath
server_file root =
    identity_file (root // bytes "pki" // bytes "devices") (bytes "server") (bytes ".crt")
