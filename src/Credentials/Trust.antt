-- ===== src/Credentials/Trust.antt =====
-- OPC_UA/server.cpp and AccessControlCustom.cpp: the server's trust list and its access control
-- agree.
use hardware_monitor.Access.{
  AccessControl, X509IdentityToken, activate_session, good, x509_token_policy_id,
}
use hardware_monitor.Access.Identity.{activate_session-eq-good_iff, devices_dir, IsTrusted}
use hardware_monitor.Credentials.{
  ConfigAttributes, get_server_config_attributes, device_entry, read_bytes_from_file,
  trusted_devices,
}
use hardware_monitor.Prelude.{
  some, sym, true, ◌≡◌, Among, Bytes, List, [], arith, inl, inr, refl, subst, ◌++◌, ◌↔◌, ◌∷◌, ◌⊎◌,
}
use hardware_monitor.Ua.{NodeIds}
use hardware_monitor.Files.{FilePath, FileSystem}

Among-append :
    {A : Type 0} (x : A) (xs ys : List A) → Among x (xs ++ ys) ↔ (Among x xs ⊎ Among x ys)
Among-append x [] ys = ground arith
Among-append x (y ∷ xs) ys = ground (arith, Among-append x xs ys)

module _ (fs : FileSystem) (dir : FilePath) (cert : Bytes) where
  entry_sound : (d : Bytes) → Among cert (device_entry fs dir d) → IsTrusted fs dir cert d
  unfolding device_entry read_bytes_from_file
  entry_sound d a = ground arith

  entry_complete : (d : Bytes) → IsTrusted fs dir cert d → Among cert (device_entry fs dir d)
  unfolding device_entry read_bytes_from_file
  entry_complete d t = ground arith

  Among-sound :
      (entries : List Bytes)
      → Among cert (trusted_devices fs dir entries)
      → (name : Bytes) × IsTrusted fs dir cert name × Among name entries
  unfolding trusted_devices
  Among-sound [] a = absurd a
  Among-sound (d ∷ entries) a =
      elim ((Among-append cert (device_entry fs dir d) (trusted_devices fs dir entries)).0 a) [
        | inl here ↦ (d, entry_sound d here, inl refl)
        | inr there ↦ let (name, t, b) = Among-sound entries there in (name, t, inr b)
      ]

  Among-complete :
      (entries : List Bytes) (name : Bytes)
      → IsTrusted fs dir cert name
      → Among name entries
      → Among cert (trusted_devices fs dir entries)
  unfolding trusted_devices
  Among-complete [] name t a = absurd a
  Among-complete (d ∷ entries) name t (inl here) =
      (Among-append cert (device_entry fs dir d) (trusted_devices fs dir entries)).1
        (inl (entry_complete d (subst (IsTrusted fs dir cert) here t)))
  Among-complete (d ∷ entries) name t (inr there) =
      (Among-append cert (device_entry fs dir d) (trusted_devices fs dir entries)).1
        (inr (Among-complete entries name t there))

server_list :
    (fs : FileSystem) (root : FilePath) (attrs : ConfigAttributes)
    → get_server_config_attributes fs root ≡ some attrs
    → attrs.trust_list ≡ trusted_devices fs (devices_dir root) (fs.directory (devices_dir root))
unfolding get_server_config_attributes
server_list fs root attrs h = ground (arith, h)

module _ (ua : NodeIds) (fs : FileSystem) (root : FilePath) (ac : AccessControl ua)
    (session : ua.NodeId) (channel : Bytes) (t : X509IdentityToken) (attrs : ConfigAttributes) where
  abbrev pub IsWelcome : Type 0
  IsWelcome =
      (t.policy_id ≡ x509_token_policy_id)
      × (t.certificate_data ≡ channel)
      × Among channel attrs.trust_list

  -- Where the server starts and its directory of devices is there, a session is accepted exactly if
  -- its token names the policy and repeats the channel's certificate, and that certificate is in
  -- the trust list that the server has loaded from the same files.
  pub activate_session-IsWelcome_iff :
      get_server_config_attributes fs root ≡ some attrs
      → fs.is_directory (devices_dir root) ≡ true
      → ((activate_session ua fs root ac session channel (some t)).1 ≡ good) ↔ IsWelcome
  activate_session-IsWelcome_iff loaded present =
      let dir = devices_dir root in
      let e = server_list fs root attrs loaded in
      let iff = activate_session-eq-good_iff ua fs root ac session channel (some t) in
      (
        λ h.
            let (name, p, same, _, i, a) = iff.0 h in
            (
              p,
              same,
              subst (Among channel) (sym e)
                  (Among-complete fs dir channel (fs.directory dir) name i a),
            ),
        λ w.
            let (p, same, a) = w in
            let (name, i, b) =
              Among-sound fs dir channel (fs.directory dir) (subst (Among channel) e a) in
            iff.1 (name, p, same, present, i, b),
      )
