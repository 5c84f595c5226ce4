-- ===== src/Credentials/Memory/Twice.antt =====
-- OPC_UA/CustomClient.cpp: the server's certificate, which two owners free.

use hardware_monitor.Credentials.{identity_file, read_bytes_from_file, server_file}
use hardware_monitor.Credentials.Memory.{
  destroy_client, load_attributes, Heap, remove, free, free_all, destroy_attributes,
  AttributesMemory,
}
use hardware_monitor.Device.{sensor_type_eq}
use hardware_monitor.Files.{FilePath, FileSystem, ◌//◌}
use hardware_monitor.Prelude.{
  All, Bool-cases, Bytes, List, Option, Option-cases, [], arith, bytes, inl, inr, list_eq, nat_eq,
  none, refl, some, subst, sym, ℕ, ◌<◌, ◌==◌, ◌∷◌, ◌≡◌, ◌≤◌,
}
use hardware_monitor.Credentials.Memory.Freed.{files_freed}
use mathlib.Core.List.{Memᴰ}

remove_missing : (p : ℕ) (live : List ℕ) → All (λ q. q < p) live → remove p live ≡ none
unfolding remove
remove_missing p [] below = refl
remove_missing p (q ∷ live) (lt, below) = ground (arith, remove_missing p live below)

All-remove :
    (P : ℕ → Type 0) (p : ℕ) (live live' : List ℕ)
    → All P live
    → remove p live ≡ some live'
    → All P live'
unfolding remove
All-remove P p [] live' all e = absurd (cc e)
All-remove P p (q ∷ live) live' (h, all) e = elim (Bool-cases (q == p)) [
  | inl here ↦ let same : live ≡ live' = ground (arith, here, e) in subst (All P) same all
  | inr other ↦ elim (Option-cases (remove p live)) [
    | inl missing ↦ absurd (ground (arith, other, missing, e))
    | inr (rest, found) ↦
        let same : q ∷ rest ≡ live' = ground (arith, other, found, e) in
        subst (All P) same (h, All-remove P p live rest all found)
  ]
]

-- An address that is not allocated is freed, so the frees fault at it or before.
free_all_faults :
    (p : ℕ) (addresses : List ℕ) (h : Heap)
    → All (λ q. q < p) h.live
    → Memᴰ p addresses
    → free_all addresses h ≡ none
unfolding free_all free
free_all_faults p [] h below mem = elim mem [ ]
free_all_faults p (x ∷ addresses) h below (Memᴰ.head e) =
    let missing : remove x h.live ≡ none =
      subst (λ x. remove x h.live ≡ none) e (remove_missing p h.live below) in
    rw (free_all, free, missing)
free_all_faults p (x ∷ addresses) h below (Memᴰ.tail mem) = elim (Option-cases (remove x h.live)) [
  | inl missing ↦ rw (free_all, free, missing)
  | inr (live, found) ↦
      rw (free_all, free, found)
        (free_all_faults p addresses (record h { live = live })
          (All-remove (λ q. q < p) x h.live live below found) mem)
]

All-below : (n p : ℕ) (live : List ℕ) → n ≤ p → All (λ q. q < n) live → All (λ q. q < p) live
All-below n p [] le all = tt
All-below n p (q ∷ live) le (h, all) = (omega (arith, le, h), All-below n p live le all)

-- Where the certificate and the key of the client and the certificate of the server can be read,
-- the attributes take memory that the body of the destructor frees again, so that the same addresses
-- are allocated as before. But the endpoint of the configuration shares the data of the server's
-- certificate with the trust list: if the teardown of `client_`, which follows the body, frees the
-- data of the endpoint's certificate, an address is freed twice. The heap gives fresh addresses.
pub destroy_client_faults :
    (teardown : Option ℕ → List ℕ) (fs : FileSystem) (root : FilePath)
    (client_name parsed parsed' server : Bytes) (h : Heap)
    → let devices_dir = root // bytes "pki" // bytes "devices" in
      ((p : ℕ) → Memᴰ p (teardown (some p)))
      → read_bytes_from_file fs (identity_file devices_dir client_name (bytes ".crt")) ≡ some parsed
      → read_bytes_from_file fs (identity_file devices_dir client_name (bytes ".key"))
        ≡ some parsed'
      → read_bytes_from_file fs (server_file root) ≡ some server
      → All (λ q. q < h.next) h.live
      → (h1 h2 : Heap) × (m : AttributesMemory) × (load_attributes fs root client_name h
          ≡ some (h1, some m))
        × (destroy_attributes m h1 ≡ some h2)
        × (h2.live ≡ h.live)
        × (destroy_client teardown m h1 ≡ none)
unfolding load_attributes destroy_client
destroy_client_faults teardown fs root client_name parsed parsed' server h clears c k t below =
    let authority = read_bytes_from_file fs (root // bytes "pki" // bytes "ca" // bytes "ca.crt") in
    let (h1, h2, m, loads, frees, same, (p, shared, above)) =
      files_freed parsed parsed' (some server) authority h in
    let gone = subst (All (λ q. q < p)) (sym same) (All-below h.next p h.live above below) in
    (
      h1,
      h2,
      m,
      rw (c, k, t) loads,
      frees,
      same,
      rw (destroy_client, frees, shared) (free_all_faults p (teardown (some p)) h2 gone (clears p)),
    )
