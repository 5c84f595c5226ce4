-- ===== src/Grid.antt =====
-- control_center/DisplayGrid.cpp and .h, TelemetryRow.h: the table that the control center draws.
pub mod Frame
pub mod Rows
pub mod Screen
use hardware_monitor.Device.{sensor_type_eq}
use hardware_monitor.Prelude.{
  Bool, Bytes, List, Map, Option, [], bytes, false, get_elem?, if◌then◌else◌, insert_ordered,
  length, list_eq, lookup, ltb, max, min, nat_eq, none, not, replicate, some, sub64, suc, true,
  zero, ℕ, ◌++◌, ◌+◌, ◌-◌, ◌==◌, ◌∷◌,
}

pub record ClientRow : Type 0 where
  pub fields : List (Bytes × Bytes)

pub record DisplayGrid : Type 0 where
  pub rows : Map Bytes (Map Bytes ClientRow)
  pub dirty : Bool

abbrev pub column_padding : ℕ
column_padding = 3

abbrev pub min_column_width : ℕ
min_column_width = 14

-- "\033[H\033[0J"
abbrev pub cursor_home_and_clear : Bytes
cursor_home_and_clear = 27 ∷ bytes "[H" ++ 27 ∷ bytes "[0J"

abbrev pub devices_of : Bytes → Map Bytes (Map Bytes ClientRow) → Map Bytes ClientRow
devices_of client rows = elim (lookup client rows) [ none ↦ [] | some devices ↦ devices ]

unfoldable pub update : Bytes → Bytes → ClientRow → DisplayGrid → DisplayGrid
update client_name device_key row grid = record {
  rows =
      insert_ordered client_name (insert_ordered device_key row (devices_of client_name grid.rows))
        grid.rows;
  dirty = true;
}

pub record ColumnData : Type 0 where
  pub name : Bytes
  pub fields : List (Bytes × Bytes)

-- The fields of a client's devices, with an empty field between devices.
unfoldable pub flatten_devices : Bool → Map Bytes ClientRow → List (Bytes × Bytes)
flatten_devices first_device [] = []
flatten_devices first_device ((_, row) ∷ devices) =
    (if first_device then [] else ([], []) ∷ []) ++ (row.fields ++ flatten_devices false devices)

unfoldable pub columns_of : Map Bytes (Map Bytes ClientRow) → List ColumnData
unfolding flatten_devices
columns_of [] = []
columns_of ((client_name, devices) ∷ rows) =
    record { name = client_name; fields = flatten_devices true devices } ∷ columns_of rows

-- The loop of maxima over the fields, from the width so far.
unfoldable pub widest : ℕ → List (Bytes × Bytes) → ℕ
widest width [] = width
widest width ((label, value) ∷ fields) = widest (max width (length label + 2 + length value)) fields

unfoldable pub width_of : ColumnData → ℕ
unfolding widest
width_of col = max (widest (length col.name) col.fields + column_padding) min_column_width

unfoldable pub most_rows : ℕ → List ColumnData → ℕ
most_rows rows [] = rows
most_rows rows (col ∷ columns) = most_rows (max rows (length col.fields)) columns

abbrev pub spaces : ℕ → Bytes
spaces n = replicate n b' '

unfoldable pub header_line : List ColumnData → Bytes
header_line [] = []
header_line (col ∷ columns) =
    col.name ++ (spaces (sub64 (width_of col) (length col.name)) ++ header_line columns)

unfoldable pub dash_line : List ColumnData → Bytes
dash_line [] = []
dash_line (col ∷ columns) =
    replicate (min (sub64 (width_of col) column_padding) (width_of col)) b'-'
    ++ (spaces column_padding ++ dash_line columns)

-- The text of row `r` of a column.
unfoldable pub cell_of : List (Bytes × Bytes) → ℕ → Bytes
cell_of fields r = elim (get_elem? fields r) [
  | none ↦ []
  | some (label, value) ↦ if value == [] then label else label ++ (bytes ": " ++ value)
]

abbrev pub padding : ℕ → ℕ → ℕ
padding width size = if ltb size width then width - size else 1

unfoldable pub row_line : List ColumnData → ℕ → Bytes
unfolding cell_of
row_line [] r = []
row_line (col ∷ columns) r =
    let cell = cell_of col.fields r in
    cell ++ (spaces (padding (width_of col) (length cell)) ++ row_line columns r)

-- `for (r = r; …; ++r)` with `left` rows to go, each line ended.
unfoldable pub row_lines : List ColumnData → ℕ → ℕ → List Bytes
row_lines columns r zero = []
row_lines columns r (suc left) = row_line columns r ∷ row_lines columns (r + 1) left

unfoldable pub end_lines : List Bytes → Bytes
end_lines [] = []
end_lines (line ∷ lines) = line ++ (10 ∷ end_lines lines)

abbrev pub frame_lines : List ColumnData → List Bytes
frame_lines columns =
    header_line columns ∷ dash_line columns ∷ row_lines columns 0 (most_rows 0 columns)

unfoldable pub build_frame : Map Bytes (Map Bytes ClientRow) → Bytes
unfolding columns_of
build_frame rows = elim rows [
  | [] ↦ bytes "Waiting for telemetry clients..." ++ 10 ∷ []
  | client ∷ rest ↦ end_lines (frame_lines (columns_of (client ∷ rest)))
]

-- The new grid and what is written to the terminal; the result is whether anything is.
unfoldable pub render_if_dirty : DisplayGrid → DisplayGrid × Option Bytes
render_if_dirty grid =
    if not grid.dirty
    then (grid, none)
    else (record grid { dirty = false }, some (cursor_home_and_clear ++ build_frame grid.rows))
