-- ===== src/Publisher/Coherent.antt =====
-- System_Info/SystemInfoClient.cpp and OPC_UA/client.cpp: the ids in `device_nodes_` stay those that
-- the server knows.
use hardware_monitor.Prelude.{
  subst, sym, Option, List, [], ◌∷◌, inl, inr, lookup-insert_cases, arith, lookup-insert, none,
  refl, Bytes, list_eq, lookup, nat_eq, some, ◌≡◌,
}
use hardware_monitor.Publisher.{
  after_sending, build_telemetry_payload, when_drained, Publisher, send_telemetry_payload, send_all,
  send_one, cached_or_ensured, remember, Sending, with_server,
}
use hardware_monitor.Queue.{ClientQueue, drain, TelemetrySnapshot}
use hardware_monitor.Nodes.{write_snapshot, SnapshotNodeIds, ensure_snapshot_node}
use hardware_monitor.Nodes.Stable.{
  write_snapshot-HidesNone, IsStable, ensure_snapshot_node-IsStable, HidesNone, Keeps,
}
use hardware_monitor.Device.{snapshot, sensor_type_eq}
use hardware_monitor.Telemetry.{TelemetryStore}
use hardware_monitor.Layout.{telemetry_namespace_index}
use hardware_monitor.Service.{AddressSpace, Laws, Result, bad, ok, Call, continue}
use hardware_monitor.Ua.{NodeIds}

module _ {F : Type 0} (ua : NodeIds) (sp : AddressSpace ua F) (laws : Laws sp) where
  open ua use {NodeId}
  open sp use {Space}

  -- Every device kept has the ids that ensuring its nodes gives, now and wherever the nodes found
  -- now are found, and ensuring makes no node.
  abbrev pub IsCoherent : NodeId → Bytes → Sending ua sp → Type 0
  IsCoherent client_folder client_name (s, nodes) =
      (key : Bytes) (ids : SnapshotNodeIds ua)
      → lookup ⦃e = list_eq⦄ key nodes ≡ some ids
      → (later : Space) → Keeps ua sp laws s later
      → ensure_snapshot_node ua sp client_folder client_name key telemetry_namespace_index later
        ≡ (later, ok ids)

  -- What is kept stays as it is.
  abbrev pub Extends : Sending ua sp → Sending ua sp → Type 0
  Extends (s, nodes) (s', nodes') =
      (key : Bytes) (ids : SnapshotNodeIds ua)
      → lookup ⦃e = list_eq⦄ key nodes ≡ some ids
      → lookup ⦃e = list_eq⦄ key nodes' ≡ some ids

  module _ (client_folder : NodeId) (client_name : Bytes) where
    -- A call that leaves a coherent state, and what is kept, so.
    abbrev pub IsSafe : {A : Type 0} → Call (Sending ua sp) A → Type 0
    IsSafe m =
        (st : Sending ua sp)
        → IsCoherent client_folder client_name st
        → IsCoherent client_folder client_name (m st).0 × Extends st (m st).0

    continue-IsSafe :
        {A B : Type 0} (f : A → Call (Sending ua sp) B)
        → ((a : A) → IsSafe (f a))
        → (st : Sending ua sp) (r : Sending ua sp × Result A)
        → IsCoherent client_folder client_name r.0 × Extends st r.0
        → IsCoherent client_folder client_name (continue f r).0 × Extends st (continue f r).0
    continue-IsSafe f hf st (st1, ok a) (c, kept) =
        let (c', kept') = hf a st1 c in (c', λ key ids e. kept' key ids (kept key ids e))
    continue-IsSafe f hf st (st1, bad x) (c, kept) = (c, kept)

    server-IsSafe :
        {A : Type 0} (m : Call Space A) → HidesNone ua sp laws m → IsSafe (with_server ua sp m)
    server-IsSafe m hides (s, nodes) h = (
      λ key ids e later k.
          h key ids e later (λ q found ns name w. k q found ns name (hides s q found ns name w)),
      λ key ids e. e,
    )

    ensured-IsSafe :
        (key : Bytes) (st : Sending ua sp)
        → lookup ⦃e = list_eq⦄ key st.1 ≡ none
        → IsCoherent client_folder client_name st
        → let after = (cached_or_ensured ua sp client_folder client_name key none st).0 in
          IsCoherent client_folder client_name after × Extends st after
    ensured-IsSafe key (s, nodes) missing h =
        by_call (ensure s) refl (server-IsSafe ensure stable.hides_none (s, nodes) h)
      where
        ensure : Call Space (SnapshotNodeIds ua)
        ensure = ensure_snapshot_node ua sp client_folder client_name key telemetry_namespace_index

        stable : IsStable ua sp laws ensure
        stable =
            ensure_snapshot_node-IsStable ua sp laws client_folder client_name key
              telemetry_namespace_index

        by_call :
            (r : Space × Result (SnapshotNodeIds ua))
            → ensure s ≡ r
            → IsCoherent client_folder client_name (r.0, nodes) × Extends (s, nodes) (r.0, nodes)
            → let after = (continue (remember ua sp key) ((r.0, nodes), r.1)).0 in
              IsCoherent client_folder client_name after × Extends (s, nodes) after
        by_call (s1, bad x) e g = g
        by_call (s1, ok ids) e (c, kept) = (
          λ j found w later k. elim (lookup-insert_cases ⦃e = list_eq⦄ key j ids found nodes w) [
            | inl (p, q) ↦ cc (p, q, stable.again s s1 ids e later k)
            | inr old ↦ c j found old later k
          ],
          λ j found w. ground (arith, lookup-insert ⦃e = list_eq⦄ key j ids nodes, missing, w),
        )

    send_one-IsSafe :
        (snapshot : TelemetrySnapshot F) (store : TelemetryStore F)
        → IsSafe (send_one ua sp client_folder client_name snapshot store)
    unfolding send_one
    send_one-IsSafe snapshot store (s, nodes) h =
        by_found (lookup ⦃e = list_eq⦄ snapshot.name nodes) refl
      where
        write : SnapshotNodeIds ua → Call (Sending ua sp) (Unit {0})
        write ids = with_server ua sp (write_snapshot ua sp ids store)

        write-IsSafe : (ids : SnapshotNodeIds ua) → IsSafe (write ids)
        write-IsSafe ids =
            server-IsSafe (write_snapshot ua sp ids store)
              (write_snapshot-HidesNone ua sp laws ids store)

        by_found :
            (r : Option (SnapshotNodeIds ua))
            → lookup ⦃e = list_eq⦄ snapshot.name nodes ≡ r
            → let after =
                (continue write (
                  cached_or_ensured ua sp client_folder client_name snapshot.name r
                    (s, nodes))).0 in
              IsCoherent client_folder client_name after × Extends (s, nodes) after
        by_found (some ids) q = write-IsSafe ids (s, nodes) h
        by_found none q =
            continue-IsSafe write write-IsSafe (s, nodes)
              (cached_or_ensured ua sp client_folder client_name snapshot.name none (s, nodes))
              (ensured-IsSafe snapshot.name (s, nodes) q h)

    send_all-IsSafe :
        (drained : List (TelemetrySnapshot F)) (stores : List (TelemetryStore F))
        → IsSafe (send_all ua sp client_folder client_name drained stores)
    unfolding send_all
    send_all-IsSafe [] stores st h = (h, λ key ids e. e)
    send_all-IsSafe (snapshot ∷ drained) [] st h = (h, λ key ids e. e)
    send_all-IsSafe (snapshot ∷ drained) (store ∷ stores) st h =
        continue-IsSafe (λ _. send_all ua sp client_folder client_name drained stores)
          (λ _. send_all-IsSafe drained stores) st
          (send_one ua sp client_folder client_name snapshot store st)
          (send_one-IsSafe snapshot store st h)

  -- What a call may do to a publisher whose folder is `client_folder`.
  abbrev pub StaysCoherent : NodeId → Publisher ua F sp → Publisher ua F sp → Type 0
  StaysCoherent client_folder p p' =
      (p'.client_folder ≡ p.client_folder)
      × (p'.client_name ≡ p.client_name)
      × IsCoherent client_folder p.client_name (p'.server, p'.device_nodes)
      × Extends (p.server, p.device_nodes) (p'.server, p'.device_nodes)

  module _ (p : Publisher ua F sp) (client_folder : NodeId)
      (h : IsCoherent client_folder p.client_name (p.server, p.device_nodes)) where
    after_sending-StaysCoherent :
        (q : ClientQueue F) (r : Sending ua sp × Result (Unit {0}))
        → IsCoherent client_folder p.client_name r.0 × Extends (p.server, p.device_nodes) r.0
        → StaysCoherent client_folder p (after_sending ua sp p q r).0
    after_sending-StaysCoherent q (st, ok _) (c, kept) = (refl, refl, c, kept)
    after_sending-StaysCoherent q (st, bad _) (c, kept) = (refl, refl, c, kept)

    when_drained-StaysCoherent :
        (r : Option (List (TelemetrySnapshot F) × ClientQueue F))
        → StaysCoherent client_folder p (when_drained ua sp p client_folder r).0
    when_drained-StaysCoherent none = (refl, refl, h, λ key ids e. e)
    when_drained-StaysCoherent (some ([], q)) = (refl, refl, h, λ key ids e. e)
    when_drained-StaysCoherent (some (first ∷ rest, q)) =
        let drained = first ∷ rest in
        let stores = build_telemetry_payload ua sp drained in
        after_sending-StaysCoherent q
          (send_all ua sp client_folder p.client_name drained stores (p.server, p.device_nodes))
          (send_all-IsSafe client_folder p.client_name drained stores (p.server, p.device_nodes) h)

  -- For a client that has a folder, and whose remembered ids of each device are those that the
  -- server gives for it: a call of `sendTelemetryPayload`, also one that a server error ends, keeps
  -- the folder and every node id that it has remembered, and leaves each device the ids that the
  -- server gives for it, now and wherever the nodes found then are found.
  pub send_telemetry_payload-StaysCoherent :
      (p : Publisher ua F sp) (client_folder : NodeId)
      → p.client_folder ≡ some client_folder
      → IsCoherent client_folder p.client_name (p.server, p.device_nodes)
      → StaysCoherent client_folder p (send_telemetry_payload ua sp p).0
  unfolding send_telemetry_payload
  send_telemetry_payload-StaysCoherent p client_folder e h =
      subst (λ r. StaysCoherent client_folder p r.0) (sym opened)
        (when_drained-StaysCoherent p client_folder h (drain p.queue))
    where
      opened : send_telemetry_payload ua sp p ≡ when_drained ua sp p client_folder (drain p.queue)
      opened = rw e
