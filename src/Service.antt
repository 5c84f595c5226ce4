-- ===== src/Service.antt =====
-- The client side of open62541pp: calls on the server's address space, and BadStatus exceptions.
use hardware_monitor.Prelude.{List, Bytes, refl, ℕ, ◌≡◌, ◌≢◌}
use hardware_monitor.Telemetry.{Variant}
use hardware_monitor.Ua.{NodeIds}

pub data Status : Type 0 where
  bad_no_match : Status
  bad_other : ℕ → Status

-- A call that returns, or throws opcua::BadStatus.
pub data Result {ℓ} (A : Type ℓ) : Type ℓ where
  ok : A → Result A
  bad : Status → Result A

-- A chain of calls in a state that what was done before an exception stays in.
abbrev pub Call : Type 0 → Type 0 → Type 0
Call S A = S → S × Result A

-- The call that an exception ends, or that continues with the value.
abbrev pub continue : {S A B : Type 0} → (A → Call S B) → S × Result A → S × Result B
continue f (s, ok a) = f a s
continue f (s, bad e) = (s, bad e)

infixl 5 ◌>>=◌
abbrev pub ◌>>=◌ : {S A B : Type 0} → Call S A → (A → Call S B) → Call S B
(m >>= f) s = continue f (m s)

abbrev pub return : {S A : Type 0} → A → Call S A
return a s = (s, ok a)

pub >>=-eq-ok :
    {S A B : Type 0} (m : Call S A) (f : A → Call S B) {s s' : S} {b : B}
    → (m >>= f) s ≡ (s', ok b)
    → (s1 : S) × (a : A) × (m s ≡ (s1, ok a)) × (f a s1 ≡ (s', ok b))
>>=-eq-ok {S} {A} {B} m f {s} {s'} {b} h = by_call (m s) refl h
  where
    by_call :
        (r : S × Result A)
        → m s ≡ r
        → continue f r ≡ (s', ok b)
        → (s1 : S) × (a : A) × (m s ≡ (s1, ok a)) × (f a s1 ≡ (s', ok b))
    by_call (s1, ok a) e g = (s1, a, e, g)
    by_call (s1, bad x) e g = cc

-- What a node is created as: an object of the folder type or the base type, a string variable, or
-- an array variable of the sensors' data type.
pub data NodeKind : Type 0 where
  folder_object base_object string_variable sensors_variable : NodeKind

-- The services on an address space of which `Space` is the state. Browse names are in the namespace
-- of the node that is asked for.
pub record AddressSpace (ua : NodeIds) (F : Type 0) : Type 1 where
  pub Space : Type 0
  pub browse_child : ua.NodeId → ℕ → Bytes → Call Space ua.NodeId
  pub add_child : NodeKind → ua.NodeId → ua.NodeId → Bytes → Call Space ua.NodeId
  pub browse_children : ua.NodeId → Call Space (List ua.NodeId)
  -- A data change subscription on the value of a node.
  pub subscribe_data_change : ua.NodeId → Call Space (Unit {0})
  pub read_browse_name : ua.NodeId → Call Space Bytes
  pub write_value : ua.NodeId → Variant F → Call Space Unit
  pub read_value : ua.NodeId → Call Space (Variant F)

-- What the program relies on: browsing and reading change nothing; a node that was added is found
-- by its name, under the id that the call returned; adding and writing hide no node; a value that was
-- written is read back, and no other value is.
pub record Laws {ua : NodeIds} {F : Type 0} (sp : AddressSpace ua F) : Type 0 where
  pub browse_child_same :
      (parent : ua.NodeId) (ns : ℕ) (name : Bytes) (s : sp.Space)
      → (sp.browse_child parent ns name s).0 ≡ s
  pub read_browse_name_same : (id : ua.NodeId) (s : sp.Space) → (sp.read_browse_name id s).0 ≡ s
  pub read_value_same : (id : ua.NodeId) (s : sp.Space) → (sp.read_value id s).0 ≡ s
  pub browse-add :
      (s s' : sp.Space) (kind : NodeKind) (parent id : ua.NodeId) (ns : ℕ) (ident name : Bytes)
      → sp.add_child kind parent (ua.string_id ns ident) name s ≡ (s', ok id)
      → sp.browse_child parent ns name s' ≡ (s', ok id)
  pub browse-add_old :
      (kind : NodeKind) (parent requested q found : ua.NodeId) (ns : ℕ) (name other : Bytes)
      (s : sp.Space)
      → sp.browse_child q ns other s ≡ (s, ok found)
      → let s' = (sp.add_child kind parent requested name s).0 in
        sp.browse_child q ns other s' ≡ (s', ok found)
  pub browse-write :
      (id q found : ua.NodeId) (v : Variant F) (ns : ℕ) (other : Bytes) (s : sp.Space)
      → sp.browse_child q ns other s ≡ (s, ok found)
      → let s' = (sp.write_value id v s).0 in sp.browse_child q ns other s' ≡ (s', ok found)
  pub read-write :
      (s s' : sp.Space) (id : ua.NodeId) (v : Variant F)
      → sp.write_value id v s ≡ (s', ok tt)
      → sp.read_value id s' ≡ (s', ok v)
  pub read-write_ne :
      (s s' : sp.Space) (id other : ua.NodeId) (v w : Variant F)
      → id ≢ other
      → sp.write_value id v s ≡ (s', ok tt)
      → sp.read_value other s ≡ (s, ok w)
      → sp.read_value other s' ≡ (s', ok w)
