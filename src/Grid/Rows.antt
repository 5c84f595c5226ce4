-- ===== src/Grid/Rows.antt =====
-- control_center/DisplayGrid.cpp: what `update` stores, and the order of the columns.
use hardware_monitor.Prelude.{
  subst, All, Bool-cases, Bytes, IsOrdered, Map, Option, [], arith, bytes_ltb, if◌then◌else◌, inl,
  inr, insert_ordered, insert_ordered-IsOrdered, list_eq, lookup, lookup-insert_ordered, nat_eq,
  some, ◌&&◌, ◌==◌, ◌∷◌, ◌≡◌,
}
use hardware_monitor.Device.{sensor_type_eq}
use hardware_monitor.Grid.{ClientRow, DisplayGrid, devices_of, update}

abbrev pub row_at : Bytes → Bytes → Map Bytes (Map Bytes ClientRow) → Option ClientRow
row_at client key rows = lookup key (devices_of client rows)

-- An update sets the row of its client and device type and leaves every other row.
pub row_at-update :
    (client key c k : Bytes) (row : ClientRow) (grid : DisplayGrid)
    → row_at c k (update client key row grid).rows
      ≡ (if (client == c) && (key == k) then some row else row_at c k grid.rows)
unfolding update
row_at-update client key c k row grid =
    let devices = devices_of client grid.rows in
    ground (
      arith,
      lookup-insert_ordered client c (insert_ordered key row devices) grid.rows,
      lookup-insert_ordered key k row devices,
    )

-- The columns stand in the order of the clients' names, and the devices of a column in the order of
-- their keys, so each client has one column and each device one group of fields.
abbrev pub InOrder : Map Bytes (Map Bytes ClientRow) → Type 0
InOrder rows = IsOrdered rows × All (λ entry. IsOrdered entry.1) rows

devices-IsOrdered :
    (client : Bytes) (rows : Map Bytes (Map Bytes ClientRow))
    → All (λ entry. IsOrdered entry.1) rows
    → IsOrdered (devices_of client rows)
unfolding lookup
devices-IsOrdered client [] o = tt
devices-IsOrdered client ((name, devices) ∷ rows) o = elim (Bool-cases (name == client)) [
  | inl same ↦
      let e : devices ≡ devices_of client ((name, devices) ∷ rows) = ground arith in
      subst IsOrdered e o.0
  | inr other ↦
      let e : devices_of client rows ≡ devices_of client ((name, devices) ∷ rows) = ground arith in
      subst IsOrdered e (devices-IsOrdered client rows o.1)
]

insert_ordered-All :
    (k : Bytes) (v : Map Bytes ClientRow) (rows : Map Bytes (Map Bytes ClientRow))
    → IsOrdered v
    → All (λ entry. IsOrdered entry.1) rows
    → All (λ entry. IsOrdered entry.1) (insert_ordered k v rows)
unfolding insert_ordered
insert_ordered-All k v [] h o = (h, tt)
insert_ordered-All k v ((j, w) ∷ rows) h o = elim (Bool-cases (j == k)) [
  | inl same ↦ rw same (h, o.1)
  | inr other ↦ elim (Bool-cases (bytes_ltb k j)) [
    | inl before ↦ rw (other, before) (h, o)
    | inr after ↦ rw (other, after) (o.0, insert_ordered-All k v rows h o.1)
  ]
]

-- Updates keep that order.
pub update-InOrder :
    (client key : Bytes) (row : ClientRow) (grid : DisplayGrid)
    → InOrder grid.rows
    → InOrder (update client key row grid).rows
unfolding update
update-InOrder client key row grid o =
    let devices = devices_of client grid.rows in
    let inner = insert_ordered-IsOrdered key row devices (devices-IsOrdered client grid.rows o.1) in
    (
      insert_ordered-IsOrdered client (insert_ordered key row devices) grid.rows o.0,
      insert_ordered-All client (insert_ordered key row devices) grid.rows inner o.1,
    )
