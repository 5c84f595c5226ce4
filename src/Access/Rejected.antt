-- ===== src/Access/Rejected.antt =====
-- OPC_UA/AccessControlCustom.cpp: a session whose activation fails gets nothing, however the history of
-- requests goes on.
use hardware_monitor.Access.{
  StatusCode, X509IdentityToken, close_session, default_attributes, AccessControl, AddNodesItem,
  AddReferencesItem, ClientAttributes, no_access, nothing, activate_session, good,
}
use hardware_monitor.Prelude.{
  ap, lookup-insert_self, ◌∙◌, ==_iff, All, Bool-cases, Bytes, List, Option, Option-cases, [],
  arith, false, inl, inr, lookup-insert, refl, some, subst, sym, ◌∷◌, ◌≡◌, ◌≢◌,
}
use hardware_monitor.Files.{FilePath, FileSystem}
use hardware_monitor.Access.Identity.{Activation, activate_session_cases, rejected, trusted, stored}
use hardware_monitor.Access.Isolation.{attributes}
use hardware_monitor.Access.Rules.{
  allow_add_node, allow_add_reference, allow_browse_node, get_user_access_level,
  get_user_rights_mask, attributes_of,
}
use hardware_monitor.Access.Sessions.{
  Request, activate, close, add_node, rights_mask, access_level, step, run, allow_add_node_cases,
}
use hardware_monitor.Ua.{NodeIds, node_eq, same_node}

module _ (ua : NodeIds) where
  open ua use {NodeId}

  -- What is stored for the session, if anything, grants nothing.
  abbrev pub IsWeak : AccessControl ua → NodeId → Type 0
  IsWeak ac session =
      (attrs : ClientAttributes ua)
      → attributes ua ac session ≡ some attrs
      → (attrs.access_lvl ≡ no_access) × (attrs.can_browse ≡ false)

  -- Every callback that can grant something refuses it.
  abbrev pub HasNoRights : AccessControl ua → NodeId → Type 0
  HasNoRights ac session =
      ((item : AddNodesItem ua) → (allow_add_node ua ac session item).1 ≡ false)
      × ((ref : AddReferencesItem ua) → allow_add_reference ua ac session ref ≡ false)
      × (allow_browse_node ua ac session ≡ false)
      × ((get_user_rights_mask ua ac session).1 ≡ nothing)
      × ((get_user_access_level ua ac session).1 ≡ no_access)

  weak-HasNoRights :
      (ac : AccessControl ua) (session : NodeId) → IsWeak ac session → HasNoRights ac session
  unfolding allow_add_node allow_add_reference allow_browse_node get_user_rights_mask
      get_user_access_level
  weak-HasNoRights ac session weak = elim (Option-cases (attributes ua ac session)) [
    | inl q ↦ (
      (λ item. ground (arith, q)),
      (λ ref. ground (arith, q)),
      ground (arith, q),
      ground (arith, q),
      ground (arith, q),
    )
    | inr (attrs, q) ↦
        let (level, browse) = weak attrs q in
        (
          (λ item. ground (arith, q, level)),
          (λ ref. ground (arith, q, level)),
          ground (arith, q, browse),
          ground (arith, q, level),
          ground (arith, q, level),
        )
  ]

module _ (ua : NodeIds) (fs : FileSystem) (root : FilePath) where
  open ua use {NodeId}

  -- The request does not activate this session.
  abbrev pub LeavesOut : NodeId → Request ua → Type 0
  LeavesOut session (activate other channel token) = session ≢ other
  LeavesOut session (close other) = Unit {0}
  LeavesOut session (add_node other item) = Unit {0}
  LeavesOut session (rights_mask other) = Unit {0}
  LeavesOut session (access_level other) = Unit {0}

  stored-IsWeak :
      (ac : AccessControl ua) (session other : NodeId) (attrs : ClientAttributes ua)
      → IsWeak ua ac session
      → (session ≡ other → (attrs.access_lvl ≡ no_access) × (attrs.can_browse ≡ false))
      → IsWeak ua (stored ua fs root ac other attrs) session
  stored-IsWeak ac session other attrs weak given a h =
      let law = lookup-insert ⦃e = node_eq ua⦄ other session attrs ac.session_attributes in
      elim (Bool-cases (same_node ua other session)) [
        | inl same ↦
            let e : attrs ≡ a = ground (arith, law) in
            let it : other ≡ session = (==_iff ⦃e = node_eq ua⦄ other session).0 same in
            subst (λ a. (a.access_lvl ≡ no_access) × (a.can_browse ≡ false)) e (given (sym it))
        | inr differs ↦ weak a (ground (arith, law))
      ]

  attributes_of-IsWeak :
      (ac : AccessControl ua) (session other : NodeId)
      → IsWeak ua ac session
      → IsWeak ua (attributes_of ua ac other).0 session
  unfolding attributes_of
  attributes_of-IsWeak ac session other weak = elim (Option-cases (attributes ua ac other)) [
    | inl q ↦
        rw (q, attributes_of)
          (stored-IsWeak ac session other (default_attributes ua) weak (λ e. (refl, refl)))
    | inr (a, q) ↦ rw (q, attributes_of) weak
  ]

  step-IsWeak :
      (ac : AccessControl ua) (session : NodeId) (r : Request ua)
      → LeavesOut session r
      → IsWeak ua ac session
      → IsWeak ua (step ua fs root ac r) session
  unfolding step close_session get_user_rights_mask get_user_access_level
  step-IsWeak ac session (activate other channel token) differs weak =
      let (attrs, code, a, e) = activate_session_cases ua fs root ac other channel token in
      subst (λ t. IsWeak ua t.0 session) (sym e)
        (stored-IsWeak ac session other attrs weak (λ same. absurd (differs same)))
  step-IsWeak ac session (close other) l weak = weak
  step-IsWeak ac session (add_node other item) l weak =
      elim (allow_add_node_cases ua fs root ac other item) [
        | inl e ↦ subst (λ t. IsWeak ua t session) (sym e) weak
        | inr (attrs, found, own, e) ↦
            subst (λ t. IsWeak ua t session) (sym e)
              (stored-IsWeak ac session other
                (record attrs { device_folder_id = item.requested_new_node_id }) weak
                (λ same.
                  weak attrs (subst (λ s. attributes ua ac s ≡ some attrs) (sym same) found)))
      ]
  step-IsWeak ac session (rights_mask other) l weak = attributes_of-IsWeak ac session other weak
  step-IsWeak ac session (access_level other) l weak = attributes_of-IsWeak ac session other weak

  run-IsWeak :
      (ac : AccessControl ua) (session : NodeId) (rs : List (Request ua))
      → All (LeavesOut session) rs
      → IsWeak ua ac session
      → IsWeak ua (run ua fs root ac rs) session
  unfolding run
  run-IsWeak ac session [] left_out weak = weak
  run-IsWeak ac session (r ∷ rs) (h, left_out) weak =
      run-IsWeak (step ua fs root ac r) session rs left_out (step-IsWeak ac session r h weak)

  -- A session whose activation ends with any status but good has no rights from then on, whatever it
  -- had before: through every history of requests of any sessions that does not activate it again,
  -- each callback refuses it every node and reference and browsing, and gives it an empty rights
  -- mask and no access.
  pub rejected-HasNoRights :
      (ac : AccessControl ua) (session : NodeId) (channel : Bytes)
      (token : Option X509IdentityToken) (rs : List (Request ua))
      → (activate_session ua fs root ac session channel token).1 ≢ good
      → All (LeavesOut session) rs
      → HasNoRights ua
          (run ua fs root (activate_session ua fs root ac session channel token).0 rs)
          session
  rejected-HasNoRights ac session channel token rs failed left_out =
      let (attrs, code, a, e) = activate_session_cases ua fs root ac session channel token in
      let weak : IsWeak ua (activate_session ua fs root ac session channel token).0 session =
        subst (λ t. IsWeak ua t.0 session) (sym e)
          (λ a' h.
            let law = lookup-insert_self ⦃e = node_eq ua⦄ session attrs ac.session_attributes in
            let same : attrs ≡ a' = cc (law, h) in
            subst (λ a. (a.access_lvl ≡ no_access) × (a.can_browse ≡ false)) same
              (outcome attrs code a (λ g. failed (ap (λ t. t.1) e ∙ g)))) in
      weak-HasNoRights ua _ session (
        run-IsWeak (activate_session ua fs root ac session channel token).0 session rs left_out
          weak)
    where
      outcome :
          (attrs : ClientAttributes ua) (code : StatusCode)
          → Activation ua fs root ac channel attrs code
          → code ≢ good
          → (attrs.access_lvl ≡ no_access) × (attrs.can_browse ≡ false)
      outcome attrs code (trusted name t _) bad = absurd (bad refl)
      outcome attrs code (rejected c _) bad = (refl, refl)
