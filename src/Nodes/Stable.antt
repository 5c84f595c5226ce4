-- ===== src/Nodes/Stable.antt =====
-- OPC_UA/utils.cpp: ensuring a node twice finds what the first call made.
use hardware_monitor.Layout.{snapshot_field_id, snapshot_object_id}
use hardware_monitor.Nodes.{
  SnapshotNodeIds, ensure_child, ensure_snapshot_node, ensure_string_var, found_or_added,
  no_match_is_none, sensors_value, try_browse_child, write_snapshot,
}
use hardware_monitor.Prelude.{Bytes, bytes, refl, subst, ℕ, ◌≡◌}
use hardware_monitor.Service.{
  AddressSpace, Laws, NodeKind, Result, bad, bad_no_match, bad_other, ok, return, string_variable,
  ◌>>=◌, >>=-eq-ok, base_object, sensors_variable, continue, Call,
}
use hardware_monitor.Telemetry.{TelemetryStore, Variant, text}
use hardware_monitor.Ua.{NodeIds}

module _ {F : Type 0} (ua : NodeIds) (sp : AddressSpace ua F) (laws : Laws sp) where
  open ua use {NodeId, string_id}
  open sp use {Space, browse_child, add_child, write_value}

  -- Every child that is found stays found, under its id.
  abbrev pub Keeps : Space → Space → Type 0
  Keeps s s' =
      (q found : NodeId) (ns : ℕ) (name : Bytes)
      → browse_child q ns name s ≡ (s, ok found)
      → browse_child q ns name s' ≡ (s', ok found)

  -- A call that hides no child, whether it returns or throws.
  abbrev pub HidesNone : {A : Type 0} → Call Space A → Type 0
  HidesNone m = (s : Space) → Keeps s (m s).0

  pub >>=-HidesNone :
      {A B : Type 0} (m : Call Space A) (f : A → Call Space B)
      → HidesNone m
      → ((a : A) → HidesNone (f a))
      → HidesNone (m >>= f)
  >>=-HidesNone {A} {B} m f hm hf s q found ns name e = by_call (m s) (hm s q found ns name e)
    where
      by_call :
          (r : Space × Result A)
          → browse_child q ns name r.0 ≡ (r.0, ok found)
          → browse_child q ns name (continue f r).0 ≡ ((continue f r).0, ok found)
      by_call (s1, ok a) h = hf a s1 q found ns name h
      by_call (s1, bad x) h = h

  pub ensure_child-HidesNone :
      (kind : NodeKind) (parent : NodeId) (ns : ℕ) (name ident : Bytes)
      → HidesNone (ensure_child ua sp kind parent ns name ident)
  unfolding ensure_child try_browse_child
  ensure_child-HidesNone kind parent ns name ident s q found m other h =
      by_browse (browse_child parent ns name s) (laws.browse_child_same parent ns name s)
    where
      by_browse :
          (r : Space × Result NodeId)
          → r.0 ≡ s
          → let s' =
              (continue
                (found_or_added ua sp kind parent ns name ident)
                (no_match_is_none ua sp r)).0 in
            browse_child q m other s' ≡ (s', ok found)
      by_browse (s1, ok x) same = cc
      by_browse (s1, bad bad_no_match) same =
          laws.browse-add_old kind parent (string_id ns ident) q found m name other s1 cc
      by_browse (s1, bad (bad_other n)) same = cc

  pub write_value-HidesNone : (id : NodeId) (v : Variant F) → HidesNone (write_value id v)
  write_value-HidesNone id v s q found ns name h = laws.browse-write id q found v ns name s h

  write_then-HidesNone :
      (id : NodeId) (v : Variant F) (rest : Call Space (Unit {0}))
      → HidesNone rest
      → HidesNone (write_value id v >>= λ _. rest)
  write_then-HidesNone id v rest h =
      >>=-HidesNone (write_value id v) (λ _. rest) (write_value-HidesNone id v) (λ _. h)

  pub write_snapshot-HidesNone :
      (ids : SnapshotNodeIds ua) (store : TelemetryStore F)
      → HidesNone (write_snapshot ua sp ids store)
  unfolding write_snapshot
  write_snapshot-HidesNone ids store =
      let fourth = write_value ids.sensors (sensors_value ua sp store) in
      let third = write_value ids.hardware_type (text store.hardware_type) >>= λ _. fourth in
      let second = write_value ids.vendor (text store.vendor) >>= λ _. third in
      write_then-HidesNone ids.name (text store.name) second (
        write_then-HidesNone ids.vendor (text store.vendor) third (
          write_then-HidesNone ids.hardware_type (text store.hardware_type) fourth
            (write_value-HidesNone ids.sensors (sensors_value ua sp store))))

  pub ensure_child-found :
      (s s' : Space) (kind : NodeKind) (parent id : NodeId) (ns : ℕ) (name ident : Bytes)
      → ensure_child ua sp kind parent ns name ident s ≡ (s', ok id)
      → browse_child parent ns name s' ≡ (s', ok id)
  unfolding ensure_child try_browse_child
  ensure_child-found s s' kind parent id ns name ident h =
      by_browse (browse_child parent ns name s) refl (laws.browse_child_same parent ns name s) h
    where
      by_browse :
          (r : Space × Result NodeId)
          → browse_child parent ns name s ≡ r
          → r.0 ≡ s
          → continue (found_or_added ua sp kind parent ns name ident) (no_match_is_none ua sp r)
            ≡ (s', ok id)
          → browse_child parent ns name s' ≡ (s', ok id)
      by_browse (s1, ok x) e same h = cc
      by_browse (s1, bad bad_no_match) e same h =
          laws.browse-add s s' kind parent id ns ident name cc
      by_browse (s1, bad (bad_other n)) e same h = cc

  ensure_child_again :
      (s : Space) (kind : NodeKind) (parent id : NodeId) (ns : ℕ) (name ident : Bytes)
      → browse_child parent ns name s ≡ (s, ok id)
      → ensure_child ua sp kind parent ns name ident s ≡ (s, ok id)
  unfolding ensure_child try_browse_child
  ensure_child_again s kind parent id ns name ident h = rw h

  -- A call that hides no child, and that, once it has returned, returns the same and changes
  -- nothing wherever the children found then are found.
  pub record IsStable {A : Type 0} (m : Call Space A) : Type 0 where
    pub hides_none : HidesNone m
    pub again :
        (s s' : Space) (a : A)
        → m s ≡ (s', ok a)
        → (later : Space) → Keeps s' later
        → m later ≡ (later, ok a)

  pub ensure_child-IsStable :
      (kind : NodeKind) (parent : NodeId) (ns : ℕ) (name ident : Bytes)
      → IsStable (ensure_child ua sp kind parent ns name ident)
  ensure_child-IsStable kind parent ns name ident = record {
    hides_none = ensure_child-HidesNone kind parent ns name ident;
    again = λ s s' id h later k.
        ensure_child_again later kind parent id ns name ident
          (k parent id ns name (ensure_child-found s s' kind parent id ns name ident h));
  }

  return-IsStable : {A : Type 0} (a : A) → IsStable (return a)
  return-IsStable a = record {
    hides_none = λ s q found ns name h. h;
    again = λ s s' b h later k. cc;
  }

  >>=-IsStable :
      {A B : Type 0} (m : Call Space A) (f : A → Call Space B)
      → IsStable m
      → ((a : A) → IsStable (f a))
      → IsStable (m >>= f)
  >>=-IsStable {A} {B} m f hm hf = record {
    hides_none = >>=-HidesNone m f hm.hides_none (λ a. (hf a).hides_none);
    again = twice;
  }
    where
      twice :
          (s s' : Space) (b : B)
          → (m >>= f) s ≡ (s', ok b)
          → (later : Space) → Keeps s' later
          → (m >>= f) later ≡ (later, ok b)
      twice s s' b h later k =
          let (s1, a, e, g) = >>=-eq-ok m f h in
          let kept = (hf a).hides_none s1 in
          rw (
            hm.again s s1 a e later (λ q found ns name w. k q found ns name (
                subst (λ r. browse_child q ns name r.0 ≡ (r.0, ok found)) g
                  (kept q found ns name w))),
            (hf a).again s1 s' b g later k,
          )

  -- Ensuring the nodes of a device hides no node, whether it returns or throws; once it has
  -- returned, ensuring them again makes no node, wherever the nodes found then are found: it leaves
  -- the address space as it is and returns the ids of the first time.
  pub ensure_snapshot_node-IsStable :
      (client_folder : NodeId) (device_name device_key : Bytes) (ns : ℕ)
      → IsStable (ensure_snapshot_node ua sp client_folder device_name device_key ns)
  unfolding ensure_snapshot_node ensure_string_var
  ensure_snapshot_node-IsStable client_folder device_name device_key ns =
      >>=-IsStable _ _
        (ensure_child-IsStable base_object client_folder ns device_key
          (snapshot_object_id device_name device_key))
        (λ obj. >>=-IsStable _ _ (var obj (bytes "name")) (λ name.
          >>=-IsStable _ _ (var obj (bytes "vendor")) (λ vendor.
            >>=-IsStable _ _ (var obj (bytes "hardware_type")) (λ hardware_type.
              >>=-IsStable _ _
                (ensure_child-IsStable sensors_variable obj ns (bytes "sensors")
                  (snapshot_field_id device_name device_key (bytes "sensors")))
                (λ sensors. return-IsStable _)))))
    where
      var :
          (obj : NodeId) (field : Bytes)
          → IsStable (
              ensure_child ua sp string_variable obj ns field
                (snapshot_field_id device_name device_key field))
      var obj field =
          ensure_child-IsStable string_variable obj ns field
            (snapshot_field_id device_name device_key field)
