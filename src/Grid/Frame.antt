-- ===== src/Grid/Frame.antt =====
-- control_center/DisplayGrid.cpp: the lines of a frame are aligned.
use hardware_monitor.Prelude.{
  ap, ◌-◌, All, Bytes, List, [], arith, bytes, length, length-append, length-replicate, max, min,
  refl, replicate, sub64, sub64_lem, suc, zero, ℕ, ◌++◌, ◌+◌, ◌<◌, ◌^◌, ◌∷◌, ◌≡◌, ◌≤◌,
}
use hardware_monitor.Grid.{
  ColumnData, cell_of, column_padding, dash_line, frame_lines, header_line, most_rows, padding,
  row_line, row_lines, spaces, widest, width_of,
}

le-widest : (w : ℕ) (fields : List (Bytes × Bytes)) → w ≤ widest w fields
unfolding widest
le-widest w [] = omega arith
le-widest w ((label, value) ∷ fields) =
    omega (arith, le-widest (max w (length label + 2 + length value)) fields)

-- Every cell of a column is at most as long as the widest field.
length-cell_of-le :
    (w : ℕ) (fields : List (Bytes × Bytes)) (r : ℕ) → length (cell_of fields r) ≤ widest w fields
unfolding cell_of widest
length-cell_of-le w [] r = omega arith
length-cell_of-le w ((label, value) ∷ fields) zero = ground (
  arith,
  le-widest (max w (length label + 2 + length value)) fields,
  length-append label (bytes ": " ++ value),
)
length-cell_of-le w ((label, value) ∷ fields) (suc r) =
    length-cell_of-le (max w (length label + 2 + length value)) fields r

-- A cell leaves the padding of its column free.
cell_fits :
    (col : ColumnData) (r : ℕ) → length (cell_of col.fields r) + column_padding ≤ width_of col
unfolding width_of
cell_fits col r = omega (arith, length-cell_of-le (length col.name) col.fields r)

name_fits : (col : ColumnData) → length col.name + column_padding ≤ width_of col
unfolding width_of
name_fits col = omega (arith, le-widest (length col.name) col.fields)

-- The widths are sizes of the machine.
abbrev pub Fits : List ColumnData → Type 0
Fits = All (λ col. width_of col < 2 ^ 64)

-- A line has the text of each column at its place: the columns' texts one after the other, each
-- filled up with spaces to its column's width, and with the padding at least.
abbrev pub HasColumns : (ColumnData → Bytes) → List ColumnData → Bytes → Type 0
HasColumns text [] line = line ≡ []
HasColumns text (col ∷ columns) line =
    (gap : ℕ) × (rest : Bytes) × (line ≡ text col ++ (spaces gap ++ rest))
    × (length (text col) + gap ≡ width_of col)
    × (column_padding ≤ gap)
    × HasColumns text columns rest

-- The lines are those of the rows from `r` on.
abbrev pub HasRows : List ColumnData → ℕ → List Bytes → Type 0
HasRows columns r [] = Unit {0}
HasRows columns r (line ∷ lines) =
    HasColumns (λ col. cell_of col.fields r) columns line × HasRows columns (r + 1) lines

-- The dashes under a column's name.
abbrev pub dashes_of : ColumnData → Bytes
dashes_of col = replicate (width_of col - column_padding) b'-'

row_line-HasColumns :
    (columns : List ColumnData) (r : ℕ)
    → HasColumns (λ col. cell_of col.fields r) columns (row_line columns r)
unfolding row_line
row_line-HasColumns [] r = refl
row_line-HasColumns (col ∷ columns) r =
    let fits = cell_fits col r in
    (
      padding (width_of col) (length (cell_of col.fields r)),
      row_line columns r,
      refl,
      ground (arith, fits),
      ground (arith, fits),
      row_line-HasColumns columns r,
    )

row_lines-HasRows :
    (columns : List ColumnData) (r left : ℕ) → HasRows columns r (row_lines columns r left)
unfolding row_lines
row_lines-HasRows columns r zero = tt
row_lines-HasRows columns r (suc left) =
    (row_line-HasColumns columns r, row_lines-HasRows columns (r + 1) left)

length-row_lines :
    (columns : List ColumnData) (r left : ℕ) → length (row_lines columns r left) ≡ left
unfolding row_lines
length-row_lines columns r zero = refl
length-row_lines columns r (suc left) = ap suc (length-row_lines columns (r + 1) left)

header_line-HasColumns :
    (columns : List ColumnData)
    → Fits columns
    → HasColumns (λ col. col.name) columns (header_line columns)
unfolding header_line
header_line-HasColumns [] f = refl
header_line-HasColumns (col ∷ columns) f =
    let fits = name_fits col in
    let gap = sub64_lem (width_of col) (length col.name) in
    (
      sub64 (width_of col) (length col.name),
      header_line columns,
      refl,
      omega (arith, fits, gap, f.0),
      omega (arith, fits, gap, f.0),
      header_line-HasColumns columns f.1,
    )

dash_line-HasColumns :
    (columns : List ColumnData) → Fits columns → HasColumns dashes_of columns (dash_line columns)
unfolding dash_line
dash_line-HasColumns [] f = refl
dash_line-HasColumns (col ∷ columns) f =
    let fits = name_fits col in
    let gap = sub64_lem (width_of col) column_padding in
    let same : min (sub64 (width_of col) column_padding) (width_of col)
        ≡ width_of col - column_padding =
      omega (arith, fits, gap, f.0) in
    (
      column_padding,
      dash_line columns,
      ap (λ n. replicate n b'-' ++ (spaces column_padding ++ dash_line columns)) same,
      omega (arith, fits, length-replicate {A = ℕ} (width_of col - column_padding) b'-'),
      omega arith,
      dash_line-HasColumns columns f.1,
    )

-- A frame is a header, a separator and as many rows as the longest column has. In each of these lines
-- the text of every column (its name, its dashes, its cell of that row) starts at the same byte, the
-- sum of the widths of the columns before it, and at least three spaces stand between it and the
-- next column, so no cell overruns its column. The widths fit a size_t. Bytes are counted: a
-- character of two bytes takes one place less on the screen.
pub frame_aligned :
    (columns : List ColumnData)
    → Fits columns
    → (header dashes : Bytes) × (lines : List Bytes) × (frame_lines columns
        ≡ header ∷ dashes ∷ lines)
      × HasColumns (λ col. col.name) columns header
      × HasColumns dashes_of columns dashes
      × HasRows columns 0 lines
      × (length lines ≡ most_rows 0 columns)
frame_aligned columns f = (
  header_line columns,
  dash_line columns,
  row_lines columns 0 (most_rows 0 columns),
  refl,
  header_line-HasColumns columns f,
  dash_line-HasColumns columns f,
  row_lines-HasRows columns 0 (most_rows 0 columns),
  length-row_lines columns 0 (most_rows 0 columns),
)
