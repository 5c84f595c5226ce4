-- ===== src/Credentials/Memory/Freed.antt =====
-- OPC_UA/CustomClient.cpp: what the destructor frees, and what it frees twice.
use hardware_monitor.Device.{sensor_type_eq}
use hardware_monitor.Prelude.{
  list_eq, nat_eq, ◌≤◌, Bytes, Option, none, refl, [], arith, some, ℕ, ◌+◌, ◌∷◌, ◌≡◌,
}
use hardware_monitor.Credentials.Memory.{
  server_certificate, Heap, destroy_attributes, load_files, remove, free, free_all,
  AttributesMemory, ByteStrings,
}

-- The attributes in memory with these addresses from `n` on.
abbrev attributes : (n : ℕ) → (trust_list issuer_list : ByteStrings) → AttributesMemory
attributes n trust_list issuer_list = record {
  certificate = some n;
  private_key = some (n + 1);
  trust_list = some trust_list;
  issuer_list = some issuer_list;
}

-- The data of the server's certificate: allocated from `n` on, if its file was read.
abbrev pub IsAllocated : (server : Option Bytes) → ℕ → Option ℕ → Type 0
IsAllocated none n address = address ≡ none
IsAllocated (some parsed) n address = (p : ℕ) × (address ≡ some p) × (n ≤ p)

-- What the attributes take, where the files can be read: the body of the destructor frees it.
pub files_freed :
    (parsed parsed' : Bytes) (server authority : Option Bytes) (h : Heap)
    → (h1 h2 : Heap) × (m : AttributesMemory) × (load_files
          (some parsed)
          (some parsed')
          server
          authority
          h
        ≡ some (h1, some m))
      × (destroy_attributes m h1 ≡ some h2)
      × (h2.live ≡ h.live)
      × IsAllocated server h.next (server_certificate m.trust_list)
unfolding load_files destroy_attributes free_all free remove
files_freed parsed parsed' none none h =
    let n = h.next in
    let L = h.live in
    let next = n + 1 + 1 + 1 + 1 in
    (
      record { next = next; live = (n + 1 + 1 + 1) ∷ (n + 1 + 1) ∷ (n + 1) ∷ n ∷ L },
      record { next = next; live = L },
      attributes n ((n + 1 + 1), []) ((n + 1 + 1 + 1), []),
      ground arith,
      ground arith,
      refl,
      refl,
    )
files_freed parsed parsed' (some a) none h =
    let n = h.next in
    let L = h.live in
    let next = n + 1 + 1 + 1 + 1 + 1 + 1 in
    (
      record {
        next = next;
        live = (n + 1 + 1 + 1 + 1 + 1) ∷ (n + 1 + 1 + 1 + 1) ∷ (n + 1 + 1 + 1) ∷ (n + 1) ∷ n ∷ L;
      },
      record { next = next; live = L },
      attributes n ((n + 1 + 1 + 1), some (n + 1 + 1 + 1 + 1) ∷ []) ((n + 1 + 1 + 1 + 1 + 1), []),
      ground arith,
      ground arith,
      refl,
      (n + 1 + 1 + 1 + 1, refl, omega arith),
    )
files_freed parsed parsed' none (some b) h =
    let n = h.next in
    let L = h.live in
    let next = n + 1 + 1 + 1 + 1 + 1 + 1 in
    (
      record {
        next = next;
        live = (n + 1 + 1 + 1 + 1 + 1) ∷ (n + 1 + 1 + 1 + 1) ∷ (n + 1 + 1) ∷ (n + 1) ∷ n ∷ L;
      },
      record { next = next; live = L },
      attributes n ((n + 1 + 1), []) ((n + 1 + 1 + 1 + 1), some (n + 1 + 1 + 1 + 1 + 1) ∷ []),
      ground arith,
      ground arith,
      refl,
      refl,
    )
files_freed parsed parsed' (some a) (some b) h =
    let n = h.next in
    let L = h.live in
    let next = n + 1 + 1 + 1 + 1 + 1 + 1 + 1 + 1 in
    (
      record {
        next = next;
        live =
            (n + 1 + 1 + 1 + 1 + 1 + 1 + 1)
            ∷ (n + 1 + 1 + 1 + 1 + 1 + 1)
            ∷ (n + 1 + 1 + 1 + 1)
            ∷ (n + 1 + 1 + 1)
            ∷ (n + 1)
            ∷ n
            ∷ L;
      },
      record { next = next; live = L },
      attributes n ((n + 1 + 1 + 1), some (n + 1 + 1 + 1 + 1) ∷ [])
          ((n + 1 + 1 + 1 + 1 + 1 + 1), some (n + 1 + 1 + 1 + 1 + 1 + 1 + 1) ∷ []),
      ground arith,
      ground arith,
      refl,
      (n + 1 + 1 + 1 + 1, refl, omega arith),
    )
