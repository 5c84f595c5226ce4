-- ===== src/ControlCenter/Subscribed.antt =====
-- control_center/ControlCenterClient.cpp: a device that is looked at is subscribed at most once.
use hardware_monitor.ControlCenter.{
  Found, ask, assign_children, discover_device, discover_new, if_found, nothing_found,
  subscribe_device, unless_cached, ControlCenterClient, DeviceCache, put_cache, put_subscription,
}
use hardware_monitor.Prelude.{
  Option, false, refl, true, Bytes, List, Map, [], arith, inl, inr, insert, list_eq, lookup,
  lookup-insert, lookup-insert_self, nat_eq, none, some, sym, ◌∙◌, ◌∷◌, ◌≡◌, ◌≢◌, ◌⊎◌,
}
use hardware_monitor.Ua.{NodeIds}
use hardware_monitor.Service.{Call, AddressSpace, Result, bad, ok, continue}
use hardware_monitor.Nodes.{SnapshotNodeIds, read_device_info}
use hardware_monitor.Telemetry.{DecodedDevice}
use hardware_monitor.Device.{sensor_type_eq}

module _ {F : Type 0} (ua : NodeIds) (sp : AddressSpace ua F) where
  open ua use {NodeId, null, to_string}
  open sp use {Space, browse_child, browse_children, read_browse_name, subscribe_data_change}

  abbrev pub IsSubscribed : Bytes → List (NodeId × Bytes) → Type 0
  IsSubscribed key [] = ⊥
  IsSubscribed key ((_, k) ∷ subs) = (k ≡ key) ⊎ IsSubscribed key subs

  -- No device is subscribed twice, and each that is subscribed is cached.
  abbrev pub IsOnce : Map Bytes (DeviceCache F) → List (NodeId × Bytes) → Type 0
  IsOnce cache [] = Unit {0}
  IsOnce cache ((_, key) ∷ subs) =
      (IsSubscribed key subs → ⊥) × (lookup ⦃e = list_eq⦄ key cache ≢ none) × IsOnce cache subs

  abbrev pub Keeps : Map Bytes (DeviceCache F) → Map Bytes (DeviceCache F) → Type 0
  Keeps cache cache' =
      (key : Bytes) (v : DeviceCache F)
      → lookup ⦃e = list_eq⦄ key cache ≡ some v
      → lookup ⦃e = list_eq⦄ key cache' ≡ some v

  abbrev pub StaysOnce : ControlCenterClient ua F sp → ControlCenterClient ua F sp → Type 0
  StaysOnce c c' = IsOnce c'.device_cache c'.subscriptions × Keeps c.device_cache c'.device_cache

  not_subscribed :
      (cache : Map Bytes (DeviceCache F)) (subs : List (NodeId × Bytes)) (key : Bytes)
      → IsOnce cache subs
      → lookup ⦃e = list_eq⦄ key cache ≡ none
      → IsSubscribed key subs
      → ⊥
  not_subscribed cache [] key o q h = h
  not_subscribed cache ((n, k) ∷ subs) key (a, b, o) q (inl e) = b (rw e q)
  not_subscribed cache ((n, k) ∷ subs) key (a, b, o) q (inr h) = not_subscribed cache subs key o q h

  insert-IsOnce :
      (cache : Map Bytes (DeviceCache F)) (subs : List (NodeId × Bytes)) (key : Bytes)
      (v : DeviceCache F)
      → IsOnce cache subs
      → IsOnce (insert ⦃e = list_eq⦄ key v cache) subs
  insert-IsOnce cache [] key v o = tt
  insert-IsOnce cache ((n, k) ∷ subs) key v (a, b, o) = (
    a,
    ground (arith, lookup-insert ⦃e = list_eq⦄ key k v cache, b),
    insert-IsOnce cache subs key v o,
  )

  insert-Keeps :
      (cache : Map Bytes (DeviceCache F)) (key : Bytes) (v : DeviceCache F)
      → lookup ⦃e = list_eq⦄ key cache ≡ none
      → Keeps cache (insert ⦃e = list_eq⦄ key v cache)
  insert-Keeps cache key v q k w h = ground (arith, lookup-insert ⦃e = list_eq⦄ key k v cache, q, h)

  subscribed-StaysOnce :
      (c : ControlCenterClient ua F sp) (key : Bytes) (v : DeviceCache F) (node : NodeId)
      (r : Space × Result (Unit {0}))
      → IsOnce c.device_cache c.subscriptions
      → lookup ⦃e = list_eq⦄ key c.device_cache ≡ none
      → let c' = (put_cache ua sp key v c).0 in
        StaysOnce c
          (continue (λ _. put_subscription ua sp node key) (record c' { server = r.0 }, r.1)).0
  subscribed-StaysOnce c key v node (s, bad e) o q =
      (insert-IsOnce c.device_cache c.subscriptions key v o, insert-Keeps c.device_cache key v q)
  subscribed-StaysOnce c key v node (s, ok t) o q = (
    (
      not_subscribed c.device_cache c.subscriptions key o q,
      (λ e. absurd (cc (sym (lookup-insert_self ⦃e = list_eq⦄ key v c.device_cache) ∙ e))),
      insert-IsOnce c.device_cache c.subscriptions key v o,
    ),
    insert-Keeps c.device_cache key v q,
  )

  abbrev pub Step : Type 0 → Type 0
  Step A = Call (ControlCenterClient ua F sp) A

  asked :
      {A B : Type 0} (c : ControlCenterClient ua F sp) (r : Space × Result A) (f : A → Step B)
      → IsOnce c.device_cache c.subscriptions
      → ((a : A) (s : Space) → StaysOnce c (f a (record c { server = s })).0)
      → StaysOnce c (continue f (record c { server = r.0 }, r.1)).0
  asked c (s, ok a) f o h = h a s
  asked c (s, bad e) f o h = (o, λ key v q. q)

  subscribe_device-StaysOnce :
      (client_folder_name key : Bytes) (ids : SnapshotNodeIds ua) (c : ControlCenterClient ua F sp)
      → IsOnce c.device_cache c.subscriptions
      → lookup ⦃e = list_eq⦄ key c.device_cache ≡ none
      → StaysOnce c (subscribe_device ua sp client_folder_name key ids c).0
  unfolding subscribe_device
  subscribe_device-StaysOnce client_folder_name key ids c o q =
      asked c (read_device_info ua sp ids c.server) then o (λ info s.
        subscribed-StaysOnce (record c { server = s }) key
          (record { client_folder_name = client_folder_name; info = info }) ids.sensors
          (subscribe_data_change ids.sensors s) o q)
    where
      then : DecodedDevice F → Step (Unit {0})
      then info c' =
          continue (λ _. put_subscription ua sp ids.sensors key)
            (ask ua sp (subscribe_data_change ids.sensors)
              (put_cache ua sp key (record { client_folder_name = client_folder_name; info = info })
                c').0)

  if_found-StaysOnce :
      (client_folder_name key : Bytes) (found : Found ua sp) (c : ControlCenterClient ua F sp)
      → IsOnce c.device_cache c.subscriptions
      → lookup ⦃e = list_eq⦄ key c.device_cache ≡ none
      → StaysOnce c (if_found ua sp client_folder_name key found c).0
  if_found-StaysOnce client_folder_name key (ids, true) c o q =
      subscribe_device-StaysOnce client_folder_name key ids c o q
  if_found-StaysOnce client_folder_name key (ids, false) c o q = (o, λ k v e. e)

  pub discover_device-StaysOnce :
      (client_folder_name : Bytes) (device : NodeId) (c : ControlCenterClient ua F sp)
      → IsOnce c.device_cache c.subscriptions
      → StaysOnce c (discover_device ua sp client_folder_name device c).0
  unfolding discover_device discover_new
  discover_device-StaysOnce client_folder_name device c o =
      by_cache (lookup ⦃e = list_eq⦄ (to_string device) c.device_cache) refl
    where
      assigned : List NodeId → Step (Unit {0})
      assigned children c' =
          continue (if_found ua sp client_folder_name (to_string device))
            (ask ua sp (assign_children ua sp children (nothing_found ua sp device)) c')

      by_cache :
          (r : Option (DeviceCache F))
          → lookup ⦃e = list_eq⦄ (to_string device) c.device_cache ≡ r
          → StaysOnce c (unless_cached ua sp client_folder_name device r c).0
      by_cache (some cache) q = (o, λ k v e. e)
      by_cache none q = asked c (browse_children device c.server) assigned o (λ children s.
          asked (record c { server = s })
            (assign_children ua sp children (nothing_found ua sp device) s)
            (if_found ua sp client_folder_name (to_string device)) o
            (λ found s'.
              if_found-StaysOnce client_folder_name (to_string device) found
                (record c { server = s' }) o q))
