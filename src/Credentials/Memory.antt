-- ===== src/Credentials/Memory.antt =====
-- OPC_UA/CustomClient.cpp: the memory of the certificates, from the constructor to the destructor.
pub mod Freed
pub mod Twice
use hardware_monitor.Access.Identity.{devices_dir, trusted}
use hardware_monitor.Device.{sensor_type_eq, storage}
use hardware_monitor.Files.{FilePath, FileSystem, ◌//◌}
use hardware_monitor.Prelude.{
  Bytes, List, Option, [], bytes, if◌then◌else◌, list_eq, nat_eq, none, some, ℕ, ◌++◌, ◌+◌, ◌==◌,
  ◌∷◌,
}
use hardware_monitor.Credentials.{ConfigAttributes, identity_file, read_bytes_from_file}

-- The addresses that are allocated and not freed, and one above all that were ever given.
pub record Heap : Type 0 where
  pub next : ℕ
  pub live : List ℕ

-- malloc, or the allocation of a byte string's data; memory is always there.
abbrev pub alloc : Heap → ℕ × Heap
alloc h = (h.next, record { next = h.next + 1; live = h.next ∷ h.live })

unfoldable pub remove : ℕ → List ℕ → Option (List ℕ)
remove p [] = none
remove p (q ∷ live) =
    let rest = remove p live in
    if q == p then some live else elim rest [ none ↦ none | some live' ↦ some (q ∷ live') ]

-- `none` where the address is not allocated: it was freed before.
unfoldable pub free : ℕ → Heap → Option Heap
unfolding remove
free p h = elim (remove p h.live) [ none ↦ none | some live ↦ some (record h { live = live }) ]

unfoldable pub free_all : List ℕ → Heap → Option Heap
unfolding free
free_all [] h = some h
free_all (p ∷ addresses) h = elim (free p h) [ none ↦ none | some h' ↦ free_all addresses h' ]

-- An array of byte strings: its address, and the data of each, `none` where that is a null pointer.
abbrev pub ByteStrings : Type 0
ByteStrings = ℕ × List (Option ℕ)

-- The pointers of ClientConfigAttributes, `none` where they are null.
pub record AttributesMemory : Type 0 where
  pub certificate : Option ℕ
  pub private_key : Option ℕ
  pub trust_list : Option ByteStrings
  pub issuer_list : Option ByteStrings

-- A list of at most one file: the storage that a local vector holds, the array with its copy, and the
-- heap.
abbrev pub alloc_list : Option Bytes → Heap → List ℕ × ByteStrings × Heap
alloc_list none h = let (array, h') = alloc h in ([], (array, []), h')
alloc_list (some parsed) h =
    let (local, h1) = alloc h in
    let (array, h2) = alloc h1 in
    let (copy, h3) = alloc h2 in (local ∷ [], (array, some copy ∷ []), h3)

-- getClientConfigAttributes by what it reads of the four files: the attributes, `none` where it throws.
-- The local vectors free their storage at its end.
unfoldable pub load_files :
    (certificate private_key server authority : Option Bytes)
    → Heap
    → Option (Heap × Option AttributesMemory)
unfolding free_all
load_files none private_key server authority h = some (h, none)
load_files (some parsed) none server authority h = some ((alloc h).1, none)
load_files (some parsed) (some parsed') server authority h =
    let (certificate, h1) = alloc h in
    let (private_key, h2) = alloc h1 in
    let (locals, trust_list, h3) = alloc_list server h2 in
    let (locals', issuer_list, h4) = alloc_list authority h3 in
    elim (free_all (locals' ++ locals) h4) [
      | none ↦ none
      | some h5 ↦ some (
        h5,
        some (record {
          certificate = some certificate;
          private_key = some private_key;
          trust_list = some trust_list;
          issuer_list = some issuer_list;
        }),
      )
    ]

unfoldable pub load_attributes :
    FileSystem → FilePath → Bytes → Heap → Option (Heap × Option AttributesMemory)
unfolding load_files
load_attributes fs project_root client_name h =
    let pki_root = project_root // bytes "pki" in
    let devices_dir = pki_root // bytes "devices" in
    load_files (read_bytes_from_file fs (identity_file devices_dir client_name (bytes ".crt")))
      (read_bytes_from_file fs (identity_file devices_dir client_name (bytes ".key")))
      (read_bytes_from_file fs (identity_file devices_dir (bytes "server") (bytes ".crt")))
      (read_bytes_from_file fs (pki_root // bytes "ca" // bytes "ca.crt")) h

-- What the destructor frees, in its order; null pointers are left out.
abbrev pub not_null : List (Option ℕ) → List ℕ
not_null [] = []
not_null (none ∷ pointers) = not_null pointers
not_null (some p ∷ pointers) = p ∷ not_null pointers

abbrev pub owned_by : Option ByteStrings → List ℕ
owned_by none = []
owned_by (some (array, entries)) = not_null entries ++ array ∷ []

-- ~CustomClient up to the destructors of its members.
unfoldable pub destroy_attributes : AttributesMemory → Heap → Option Heap
unfolding free_all
destroy_attributes m = free_all (
    not_null (m.certificate ∷ m.private_key ∷ [])
    ++ (owned_by m.trust_list ++ owned_by m.issuer_list))

-- The data of `ep.serverCertificate = cfg_attrs_.trust_list[0]`, which is that of the list's entry.
abbrev pub server_certificate : Option ByteStrings → Option ℕ
server_certificate none = none
server_certificate (some (array, [])) = none
server_certificate (some (array, first ∷ entries)) = first

-- ~CustomClient: its body and then the member `client_`, whose `teardown` frees what the
-- configuration of the client owns, given the data of the endpoint's certificate.
unfoldable pub destroy_client : (Option ℕ → List ℕ) → AttributesMemory → Heap → Option Heap
unfolding destroy_attributes free_all
destroy_client teardown m h = elim (destroy_attributes m h) [
  | none ↦ none
  | some h' ↦ free_all (teardown (server_certificate m.trust_list)) h'
]
