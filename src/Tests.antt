-- ===== src/Tests.antt =====
-- Small concrete environments on which the tests run: node ids, a server, a file system, floats.
pub mod Sessions
pub mod Identities
pub mod Telemetry
pub mod Machines
pub mod Screens
pub mod Centers
pub mod Cards
pub mod Rows
pub mod Kernels
use hardware_monitor.Prelude.{
  List, if◌then◌else◌, ==_iff, ap, sym, ◌∙◌, ◌≢◌, Bool-cases, Option, lookup-insert,
  lookup-insert_self, ◌==◌, ◌≡◌, inl, inr, pair_discrete, pair_eq, Bytes, Eq, Map, [], bytes,
  insert, list_eq, lookup, nat_eq, none, refl, some, ℕ, ◌∷◌,
}
use hardware_monitor.Service.{Result, AddressSpace, Laws, bad, bad_no_match, bad_other, ok}
use hardware_monitor.Device.{sensor_type_eq}
use hardware_monitor.Telemetry.{Variant}
use hardware_monitor.Ua.{NodeIds}

abbrev pub node_ids : NodeIds
node_ids = record {
  NodeId = ℕ × Bytes;
  discrete = pair_discrete nat_eq.discrete list_eq.discrete;
  null = (0, []);
  string_id = λ ns s. (ns, s);
  namespace_index = λ id. id.0;
  to_string = λ id. id.0 ∷ id.1;
  identifier_if_string = λ id. some id.1;
  namespace_index-string_id = λ ns s. refl;
  identifier_if_string-string_id = λ ns s. refl;
}

-- A server that keeps its nodes by parent, namespace and name, and refuses a name that is taken.
pub record Server : Type 0 where
  pub children : Map ((ℕ × Bytes) × (ℕ × Bytes)) (ℕ × Bytes)
  pub values : Map (ℕ × Bytes) (Variant ℕ)

instance abbrev pub value_eq : Eq (ℕ × Bytes)
value_eq = pair_eq

instance abbrev pub key_eq : Eq ((ℕ × Bytes) × (ℕ × Bytes))
key_eq = pair_eq

abbrev pub Key : Type 0
Key = (ℕ × Bytes) × (ℕ × Bytes)

abbrev found : {A : Type 0} → Server → Option A → Server × Result A
found s none = (s, bad bad_no_match)
found s (some x) = (s, ok x)

abbrev added : Server → Key → ℕ × Bytes → Option (ℕ × Bytes) → Server × Result (ℕ × Bytes)
added s key id none = (record s { children = insert key id s.children }, ok id)
added s key id (some other) = (s, bad (bad_other 0))

abbrev pub children_of : ℕ × Bytes → Map Key (ℕ × Bytes) → List (ℕ × Bytes)
children_of parent [] = []
children_of parent (((p, _), id) ∷ nodes) =
    let rest = children_of parent nodes in if p == parent then id ∷ rest else rest

abbrev pub space : AddressSpace node_ids ℕ
space = record {
  Space = Server;
  browse_child = λ parent ns name s. found s (lookup (parent, (ns, name)) s.children);
  add_child = λ kind parent requested name s.
      let key : Key = (parent, (requested.0, name)) in
      added s key requested (lookup key s.children);
  browse_children = λ parent s. (s, ok (children_of parent s.children));
  subscribe_data_change = λ id s. (s, ok tt);
  read_browse_name = λ id s. (s, ok id.1);
  write_value = λ id v s. (record s { values = insert id v s.values }, ok tt);
  read_value = λ id s. found s (lookup id s.values);
}

found_same : {A : Type 0} (s : Server) (r : Option A) → (found s r).0 ≡ s
found_same s none = refl
found_same s (some x) = refl

found-some : {A : Type 0} (s : Server) (r : Option A) (x : A) → found s r ≡ (s, ok x) → r ≡ some x
found-some s none x h = cc
found-some s (some y) x h = cc

found-added :
    (s s' : Server) (key : Key) (requested id : ℕ × Bytes) (r : Option (ℕ × Bytes))
    → added s key requested r ≡ (s', ok id)
    → found s' (lookup key s'.children) ≡ (s', ok id)
found-added s s' key requested id none h =
    let e : requested ≡ id = cc in
    let d : record s { children = insert key requested s.children } ≡ s' = cc in
    rw (← d, lookup-insert_self key requested s.children, e)
found-added s s' key requested id (some other) h = cc

found-added_old :
    (s : Server) (key other : Key) (requested id : ℕ × Bytes) (r : Option (ℕ × Bytes))
    → lookup key s.children ≡ r
    → lookup other s.children ≡ some id
    → lookup other (added s key requested r).0.children ≡ some id
found-added_old s key other requested id none q h = elim (Bool-cases (key == other)) [
  | inl same ↦
      let e = (==_iff key other).0 same in
      let n : none ≡ some id = sym q ∙ ap (λ k. lookup k s.children) e ∙ h in absurd (cc n)
  | inr differs ↦ rw (lookup-insert key other requested s.children, differs, h)
]
found-added_old s key other requested id (some x) q h = h

other_value :
    (s : Server) (id other : ℕ × Bytes) (v w : Variant ℕ)
    → id ≢ other
    → lookup other s.values ≡ some w
    → lookup other (insert id v s.values) ≡ some w
other_value s id other v w ne r = elim (Bool-cases (id == other)) [
  | inl same ↦ absurd (ne ((==_iff id other).0 same))
  | inr differs ↦ rw (lookup-insert id other v s.values, differs, r)
]

pub laws : Laws space
laws = record {
  browse_child_same = λ parent ns name s. found_same s (lookup (parent, (ns, name)) s.children);
  read_browse_name_same = λ id s. refl;
  read_value_same = λ id s. found_same s (lookup id s.values);
  browse-add = λ s s' kind parent id ns ident name h.
      let key : Key = (parent, (ns, name)) in
      found-added s s' key (ns, ident) id (lookup key s.children) h;
  browse-add_old = λ kind parent requested q id ns name other s h.
      let key : Key = (parent, (requested.0, name)) in
      let kept =
        found-added_old s key (q, (ns, other)) requested id (lookup key s.children) refl
          (found-some s (lookup (q, (ns, other)) s.children) id h) in
      rw kept;
  browse-write =
      λ id q child v ns other s h. rw (found-some s (lookup (q, (ns, other)) s.children) child h);
  read-write = λ s s' id v h.
      let d : record s { values = insert id v s.values } ≡ s' = cc in
      rw (← d, lookup-insert_self id v s.values);
  read-write_ne = λ s s' id other v w ne h r. rw (
    ← (ap (λ x. x.0) h),
    other_value s id other v w ne (found-some s (lookup other s.values) w r),
  );
}

abbrev pub server : Server
server = record {
  children =
      (((0, bytes "objects"), (1, bytes "TelemetryClients")), (1, bytes "TelemetryClients")) ∷ [];
  values = [];
}
