-- ===== src/Tests/Identities.antt =====
-- Witnesses of the properties of certificates and their files.
use hardware_monitor.Credentials.Policies.{
  policies_of, Adds, ClientConfig, add_security_policy, add_security_policy-Adds, policies_in_use,
}
use hardware_monitor.Credentials.Memory.{
  AttributesMemory, Heap, destroy_attributes, destroy_client, load_attributes,
}
use hardware_monitor.Credentials.Memory.Twice.{destroy_client_faults}
use hardware_monitor.Prelude.{
  List, Option, arith, none, ℕ, [], list_discrete, refl, some, true, ◌↔◌, ◌∷◌, ◌≡◌, ℕ_discrete,
}
use hardware_monitor.Access.{activate_session, good}
use hardware_monitor.Credentials.{
  ConfigAttributes, device_entry, get_server_config_attributes, read_bytes_from_file,
  trusted_devices,
}
use hardware_monitor.Credentials.Trust.{IsWelcome, activate_session-IsWelcome_iff}
use mathlib.Core.List.{Memᴰ}
use hardware_monitor.Tests.{node_ids}
use hardware_monitor.Tests.Sessions.{lab, cert, files, root, session, token, new_control}

abbrev attrs : ConfigAttributes
attrs = record {
  certificate = cert;
  private_key = cert;
  trust_list = cert ∷ [];
  issuer_list = cert ∷ [];
}

server_loads : get_server_config_attributes files root ≡ some attrs
unfolding get_server_config_attributes trusted_devices device_entry read_bytes_from_file
    list_discrete ℕ_discrete
server_loads = refl

activate_session-IsWelcome_iff_example :
    ((activate_session node_ids files root new_control session cert (some token)).1 ≡ good)
    ↔ IsWelcome node_ids files root new_control session cert token attrs
activate_session-IsWelcome_iff_example =
    activate_session-IsWelcome_iff node_ids files root new_control session cert token attrs
      server_loads refl

-- The endpoint's certificate is all that the configuration owns.
abbrev clears : Option ℕ → List ℕ
clears none = []
clears (some p) = p ∷ []

abbrev heap : Heap
heap = record { next = 2; live = 0 ∷ [] }

destroy_client_faults_example :
    (h1 h2 : Heap) × (m : AttributesMemory) × (load_attributes files root lab heap
      ≡ some (h1, some m))
    × (destroy_attributes m h1 ≡ some h2)
    × (h2.live ≡ heap.live)
    × (destroy_client clears m h1 ≡ none)
unfolding read_bytes_from_file list_discrete ℕ_discrete
destroy_client_faults_example =
    destroy_client_faults clears files root lab cert cert cert heap (λ p. Memᴰ.head refl) refl refl
      refl (omega arith, tt)

-- No policy is in use, and the array has the slot of the default one.
abbrev no_policies : ClientConfig
no_policies = record { security_policies = some (none ∷ []); security_policies_size = 0 }

add_security_policy-Adds_example :
    Adds no_policies
      (add_security_policy true (λ c k. none) (some cert) (some cert) no_policies)
      []
      (record { local_certificate = cert; local_private_key = cert })
unfolding policies_of policies_in_use
add_security_policy-Adds_example =
    add_security_policy-Adds true (λ c k. none) (some cert) (some cert) no_policies [] refl
