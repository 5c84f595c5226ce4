-- ===== src/Tests/Screens.antt =====
-- Witnesses of the properties of the control center's grid: two clients.
use hardware_monitor.Grid.{
  most_rows, ClientRow, ColumnData, build_frame, cursor_home_and_clear, frame_lines,
  render_if_dirty, widest, width_of,
}
use hardware_monitor.Prelude.{
  Bytes, List, [], arith, bytes, length, list_eq, nat_eq, none, some, ◌++◌, ◌∷◌, ◌≡◌, ◌⊎◌,
}
use hardware_monitor.Device.{sensor_type_eq}
use hardware_monitor.Grid.Frame.{Fits, frame_aligned, HasColumns, HasRows, dashes_of}
use hardware_monitor.Grid.Screen.{
  Event, empty_grid, render_shows_rows, renders, shown, updates, run,
}

abbrev row : ClientRow
row = record { fields = (bytes "CPU name", bytes "INTEL") ∷ (bytes "core", bytes "41.0 C") ∷ [] }

abbrev columns : List ColumnData
columns =
    record { name = bytes "lab"; fields = row.fields }
    ∷ record { name = bytes "a"; fields = [] }
    ∷ []

columns-Fits : Fits columns
unfolding width_of widest
columns-Fits = (omega arith, (omega arith, tt))

frame_aligned_example :
    (header dashes : Bytes) × (lines : List Bytes) × (frame_lines columns ≡ header ∷ dashes ∷ lines)
    × HasColumns (λ col. col.name) columns header
    × HasColumns dashes_of columns dashes
    × HasRows columns 0 lines
    × (length lines ≡ most_rows 0 columns)
frame_aligned_example = frame_aligned columns columns-Fits

abbrev events : List Event
events = updates (bytes "lab") (bytes "CPU") row ∷ renders ∷ []

render_shows_rows_example :
    let grid = (run empty_grid none events).0 in
    let screen = shown (render_if_dirty grid).1 (run empty_grid none events).1 in
    (screen ≡ some (cursor_home_and_clear ++ build_frame grid.rows))
    ⊎ ((screen ≡ none) × (grid.rows ≡ []))
render_shows_rows_example = render_shows_rows events
