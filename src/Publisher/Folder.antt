-- ===== src/Publisher/Folder.antt =====
-- OPC_UA/server.cpp and System_Info/SystemInfoClient.cpp: the folder of the clients that the server
-- creates, and that each client looks for.
use hardware_monitor.Prelude.{ap, refl, some, subst, sym, ◌∙◌, Bytes, ◌≡◌}
use hardware_monitor.Publisher.{Publisher, add_nodes, find_client_folder, with_folder}
use hardware_monitor.Nodes.Stable.{Keeps, ensure_child-IsStable, ensure_child-found}
use hardware_monitor.Nodes.{ensure_client_folder}
use hardware_monitor.Service.{
  AddressSpace, Laws, Call, >>=-eq-ok, ok, bad, return, folder_object, ◌>>=◌, Result,
}
use hardware_monitor.Layout.{
  telemetry_namespace_index, telemetry_clients_folder_name, client_folder_id,
}
use hardware_monitor.Ua.{NodeIds}

module _ {F : Type 0} (ua : NodeIds) (sp : AddressSpace ua F) where
  open ua use {NodeId, string_id}
  open sp use {Space, browse_child, read_browse_name, add_child}

  -- `createTelemetryClientsFolder`; the browse name is read to be printed.
  unfoldable pub create_telemetry_clients_folder : NodeId → Call Space NodeId
  create_telemetry_clients_folder objects_folder = do
    folder ←
        add_child folder_object objects_folder
          (string_id telemetry_namespace_index telemetry_clients_folder_name)
          telemetry_clients_folder_name
    browse_name ← read_browse_name folder
    return folder

  module _ (laws : Laws sp) where
    created-found :
        (objects folder : NodeId) (s s' : Space)
        → create_telemetry_clients_folder objects s ≡ (s', ok folder)
        → browse_child objects telemetry_namespace_index telemetry_clients_folder_name s'
          ≡ (s', ok folder)
    unfolding create_telemetry_clients_folder
    created-found objects folder s s' e =
        let ns = telemetry_namespace_index in
        let tcf = telemetry_clients_folder_name in
        let (s1, id, added, rest) =
          >>=-eq-ok (add_child folder_object objects (string_id ns tcf) tcf)
            (λ id. read_browse_name id >>= λ n. return id) e in
        let (s2, name, read, last) = >>=-eq-ok (read_browse_name id) (λ n. return id) rest in
        let same : s2 ≡ s1 = ap (λ r. r.0) (sym read) ∙ laws.read_browse_name_same id s1 in
        let found : browse_child objects ns tcf s1 ≡ (s1, ok id) =
          laws.browse-add s s1 folder_object objects id ns tcf tcf added in
        let at : s1 ≡ s' = cc (same, last) in
        let it : id ≡ folder = cc last in
        subst (λ s. browse_child objects ns tcf s ≡ (s, ok folder)) at
          (found ∙ ap (λ id. (s1, ok id)) it)

    found_folder :
        (objects folder id : NodeId) (client_name : Bytes) (s s' : Space)
        → browse_child objects telemetry_namespace_index telemetry_clients_folder_name s
          ≡ (s, ok folder)
        → find_client_folder ua sp objects client_name s ≡ (s', ok id)
        → ensure_client_folder ua sp folder client_name telemetry_namespace_index s ≡ (s', ok id)
    found_folder objects folder id client_name s s' found e =
        let ns = telemetry_namespace_index in
        let tcf = telemetry_clients_folder_name in
        let ensure : NodeId → Call Space NodeId =
          λ f. ensure_client_folder ua sp f client_name ns in
        let (s1, f, browsed, rest) =
          >>=-eq-ok (browse_child objects ns tcf) (λ f. read_browse_name f >>= λ n. ensure f) e in
        let (s2, name, read, ensured) = >>=-eq-ok (read_browse_name f) (λ n. ensure f) rest in
        let same : s2 ≡ s1 = ap (λ r. r.0) (sym read) ∙ laws.read_browse_name_same f s1 in
        let both : (s, ok folder) ≡ (s1, ok f) = sym found ∙ browsed in
        let at : s2 ≡ s = cc (same, both) in
        let it : f ≡ folder = cc both in
        subst (λ f. ensure f s ≡ (s', ok id)) it (subst (λ s. ensure f s ≡ (s', ok id)) at ensured)

    -- Once the server's creation of its folder has returned, a client whose `addNodes` returns keeps
    -- the id of a folder that is found under its name in the server's folder, also after calls of
    -- others in between, if they hide no child. Every child that was found before is found still, so
    -- the same holds for the next client.
    pub add_nodes-under :
        (objects folder : NodeId) (s s' : Space) (p p' : Publisher ua F sp)
        → create_telemetry_clients_folder objects s ≡ (s', ok folder)
        → Keeps ua sp laws s' p.server
        → add_nodes ua sp objects p ≡ (p', ok tt)
        → (id : NodeId) × (p'.client_folder ≡ some id)
          × (browse_child folder telemetry_namespace_index p.client_name p'.server
              ≡ (p'.server, ok id))
          × Keeps ua sp laws s' p'.server
    unfolding add_nodes ensure_client_folder
    add_nodes-under objects folder s s' p p' created kept e =
        by_result (find_client_folder ua sp objects p.client_name p.server) refl e
      where
        by_result :
            (r : Space × Result NodeId)
            → find_client_folder ua sp objects p.client_name p.server ≡ r
            → with_folder ua sp p r ≡ (p', ok tt)
            → (id : NodeId) × (p'.client_folder ≡ some id)
              × (browse_child folder telemetry_namespace_index p.client_name p'.server
                  ≡ (p'.server, ok id))
              × Keeps ua sp laws s' p'.server
        by_result (s1, bad x) e h = absurd (cc h)
        by_result (s1, ok id) e h =
            let ns = telemetry_namespace_index in
            let there =
              kept objects folder ns telemetry_clients_folder_name
                (created-found objects folder s s' created) in
            let ensured : ensure_client_folder ua sp folder p.client_name ns p.server
                ≡ (s1, ok id) =
              found_folder objects folder id p.client_name p.server s1 there e in
            let stable =
              ensure_child-IsStable ua sp laws folder_object folder ns p.client_name
                (client_folder_id p.client_name) in
            let at : s1 ≡ p'.server = ap (λ r. r.0.server) h in
            let ends : (ensure_client_folder ua sp folder p.client_name ns p.server).0 ≡ p'.server =
              ap (λ r. r.0) ensured ∙ at in
            (
              id,
              ap (λ r. r.0.client_folder) (sym h),
              subst (λ t. browse_child folder ns p.client_name t ≡ (t, ok id)) at
                  (ensure_child-found ua sp laws p.server s1 folder_object folder id ns
                    p.client_name (client_folder_id p.client_name) ensured),
              λ q f n m b.
                  subst (λ t. browse_child q n m t ≡ (t, ok f)) ends
                    (stable.hides_none p.server q f n m (kept q f n m b)),
            )
