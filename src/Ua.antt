-- ===== src/Ua.antt =====
-- The part of open62541pp that the program relies on. The library is not in the repository, so
-- node ids are an interface: opcua::NodeId with its constructor from a namespace and a string, its
-- accessors, its `==` and its null value.
use hardware_monitor.Prelude.{ℕ, ◌≡◌, Bool, Option, some, Bytes, Eq, is_yes}

pub record NodeIds : Type 1 where
  pub NodeId : Type 0
  pub discrete : Discrete NodeId
  pub null : NodeId
  pub string_id : ℕ → Bytes → NodeId
  pub namespace_index : NodeId → ℕ
  pub to_string : NodeId → Bytes
  pub identifier_if_string : NodeId → Option Bytes
  pub namespace_index-string_id : (ns : ℕ) (s : Bytes) → namespace_index (string_id ns s) ≡ ns
  pub identifier_if_string-string_id :
      (ns : ℕ) (s : Bytes) → identifier_if_string (string_id ns s) ≡ some s

abbrev pub same_node : (ua : NodeIds) → ua.NodeId → ua.NodeId → Bool
same_node ua a b = is_yes (ua.discrete a b)

abbrev pub node_eq : (ua : NodeIds) → Eq ua.NodeId
node_eq ua = record { discrete = ua.discrete }
