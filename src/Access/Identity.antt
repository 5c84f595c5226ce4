-- ===== src/Access/Identity.antt =====
-- OPC_UA/AccessControlCustom.cpp: which certificates are trusted (`findTrustedDevice`) and how
-- `activateSession` ends.
use hardware_monitor.Device.{sensor_type_eq}
use hardware_monitor.Access.{
  AccessControl, ClientAttributes, StatusCode, X509IdentityToken, activate_session,
  bad_certificate_untrusted, bad_identity_token_invalid, bad_identity_token_rejected,
  find_trusted_device, good, rejected_attributes, trusted_attributes, x509_token_policy_id,
  find_trusted_device_in,
}
use hardware_monitor.Prelude.{
  Bool-cases, Option, Option-cases, insert, refl, ◌==◌, ◌↔◌, ◌≡◌, ◌≢◌, inl, inr, true, none, some,
  List, [], ◌∷◌, ◌++◌, Bytes, bytes, list_eq, nat_eq, arith, Among,
}
use hardware_monitor.Ua.{NodeIds, node_eq}
use hardware_monitor.Files.{FilePath, FileSystem, ◌//◌}

-- A device folder other than the server's, whose certificate file holds `cert`.
pub record IsTrusted (fs : FileSystem) (dir : FilePath) (cert name : Bytes) : Type 0 where
  pub folder : fs.is_directory (dir // name) ≡ true
  pub client : name ≢ bytes "server"
  pub regular : fs.is_regular_file (dir // name // (name ++ bytes ".crt")) ≡ true
  pub stored : fs.contents (dir // name // (name ++ bytes ".crt")) ≡ some cert
  pub filled : cert ≢ []

module _ (fs : FileSystem) (dir : FilePath) (token channel : Bytes) where
  in_sound :
      (entries : List Bytes) (name : Bytes)
      → find_trusted_device_in fs dir token channel entries ≡ some name
      → IsTrusted fs dir token name × (token ≡ channel) × Among name entries
  unfolding find_trusted_device_in
  in_sound [] name h = cc
  in_sound (d ∷ entries) name h = ground (arith, in_sound entries name)

  in_complete :
      (entries : List Bytes) (name : Bytes)
      → token ≡ channel
      → IsTrusted fs dir token name
      → Among name entries
      → find_trusted_device_in fs dir token channel entries ≢ none
  unfolding find_trusted_device_in
  in_complete [] name e t a = absurd a
  in_complete (d ∷ entries) name e t (inl here) = ground arith
  in_complete (d ∷ entries) name e t (inr a) = ground (arith, in_complete entries name e t a)

-- What `findTrustedDevice` answers: a trusted device that the directory lists, whose certificate is
-- both the token's and the channel's.
pub find_trusted_device_sound :
    (fs : FileSystem) (dir : FilePath) (token channel name : Bytes)
    → find_trusted_device fs dir token channel ≡ some name
    → (fs.is_directory dir ≡ true)
      × IsTrusted fs dir channel name
      × (token ≡ channel)
      × Among name (fs.directory dir)
unfolding find_trusted_device
find_trusted_device_sound fs dir token channel name h =
    ground (arith, in_sound fs dir token channel (fs.directory dir) name)

-- It finds a device whenever the directory lists a trusted one with that certificate.
pub find_trusted_device_complete :
    (fs : FileSystem) (dir : FilePath) (token channel name : Bytes)
    → fs.is_directory dir ≡ true
    → token ≡ channel
    → IsTrusted fs dir channel name
    → Among name (fs.directory dir)
    → (found : Bytes) × (find_trusted_device fs dir token channel ≡ some found)
unfolding find_trusted_device
find_trusted_device_complete fs dir token channel name d e t a =
    elim (Option-cases (find_trusted_device_in fs dir token channel (fs.directory dir))) [
      | inl q ↦
          absurd (in_complete fs dir token channel (fs.directory dir) name e (rw (← e) at t) a q)
      | inr (found, q) ↦ (found, rw (d, q))
    ]

abbrev pub devices_dir : FilePath → FilePath
devices_dir root = root // bytes "pki" // bytes "devices"

module _ (ua : NodeIds) (fs : FileSystem) (root : FilePath) (ac : AccessControl ua) where
  open ua use {NodeId}

  -- How `activateSession` may end for a session: the attributes it stores and its status.
  pub data Activation (channel : Bytes) : ClientAttributes ua → StatusCode → Type 0 where
    trusted :
        (name : Bytes)
        → IsTrusted fs (devices_dir root) channel name
        → Among name (fs.directory (devices_dir root))
        → Activation channel (trusted_attributes ua name) good
    rejected : (code : StatusCode) → code ≢ good → Activation channel (rejected_attributes ua) code

  abbrev pub stored : NodeId → ClientAttributes ua → AccessControl ua
  stored session attrs = record ac {
    session_attributes = insert ⦃e = node_eq ua⦄ session attrs ac.session_attributes;
  }

  -- Every activation ends in one of these two ways and stores nothing but the session's attributes.
  pub activate_session_cases :
      (session : NodeId) (channel : Bytes) (token : Option X509IdentityToken)
      → (attrs : ClientAttributes ua) × (code : StatusCode) × Activation channel attrs code
        × (activate_session ua fs root ac session channel token ≡ (stored session attrs, code))
  unfolding activate_session
  activate_session_cases session channel none =
      (rejected_attributes ua, bad_identity_token_invalid, rejected _ (λ e. cc e), refl)
  activate_session_cases session channel (some token) =
      elim (Bool-cases (token.policy_id == x509_token_policy_id)) [
        | inr other ↦
            (rejected_attributes ua, bad_identity_token_rejected, rejected _ (λ e. cc e), rw other)
        | inl same ↦
            let dir = devices_dir root in
            elim (Option-cases (find_trusted_device fs dir token.certificate_data channel)) [
              | inl q ↦ (
                rejected_attributes ua,
                bad_certificate_untrusted,
                rejected _ (λ e. cc e),
                rw (same, q),
              )
              | inr (name, q) ↦
                  let (_, t, _, a) =
                    find_trusted_device_sound fs dir token.certificate_data channel name q in
                  (trusted_attributes ua name, good, trusted name t a, rw (same, q))
            ]
      ]

  -- The token decodes, names the policy and repeats the channel's certificate, which is on file for
  -- a listed device.
  abbrev pub Accepts : Bytes → Option X509IdentityToken → Type 0
  Accepts channel none = ⊥
  Accepts channel (some t) =
      (name : Bytes) × (t.policy_id ≡ x509_token_policy_id)
      × (t.certificate_data ≡ channel)
      × (fs.is_directory (devices_dir root) ≡ true)
      × IsTrusted fs (devices_dir root) channel name
      × Among name (fs.directory (devices_dir root))

  Accepts-sound :
      (session : NodeId) (channel : Bytes) (token : Option X509IdentityToken)
      → (activate_session ua fs root ac session channel token).1 ≡ good
      → Accepts channel token
  unfolding activate_session
  Accepts-sound session channel none h = cc
  Accepts-sound session channel (some t) h =
      elim (Option-cases (find_trusted_device fs (devices_dir root) t.certificate_data channel)) [
        | inl q ↦ absurd (ground (arith, q))
        | inr (name, q) ↦
            let (d, i, e, a) =
              find_trusted_device_sound fs (devices_dir root) t.certificate_data channel name q in
            (name, ground arith, e, d, i, a)
      ]

  Accepts-complete :
      (session : NodeId) (channel : Bytes) (token : Option X509IdentityToken)
      → Accepts channel token
      → (activate_session ua fs root ac session channel token).1 ≡ good
  unfolding activate_session
  Accepts-complete session channel none h = absurd h
  Accepts-complete session channel (some t) (name, p, e, d, i, a) =
      let (found, q) =
        find_trusted_device_complete fs (devices_dir root) t.certificate_data channel name d e i
          a in
      ground (arith, q)

  -- A session is accepted exactly if its token decodes, names the policy, repeats the channel's
  -- certificate, and that certificate is on file for a listed device other than the server.
  pub activate_session-eq-good_iff :
      (session : NodeId) (channel : Bytes) (token : Option X509IdentityToken)
      → ((activate_session ua fs root ac session channel token).1 ≡ good) ↔ Accepts channel token
  activate_session-eq-good_iff session channel token =
      (Accepts-sound session channel token, Accepts-complete session channel token)
