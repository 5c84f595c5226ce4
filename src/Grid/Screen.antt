-- ===== src/Grid/Screen.antt =====
-- control_center/DisplayGrid.cpp: what the terminal shows after updates and renderings.
use hardware_monitor.Prelude.{
  arith, refl, Bool-cases, Bytes, List, Option, [], false, inl, inr, none, some, ◌++◌, ◌∷◌, ◌≡◌,
  ◌⊎◌,
}
use hardware_monitor.Grid.{
  ClientRow, DisplayGrid, build_frame, cursor_home_and_clear, render_if_dirty, update,
}

-- A call on the grid by the subscription's callback or by the main loop.
pub data Event : Type 0 where
  updates : (client_name device_key : Bytes) → ClientRow → Event
  renders : Event

abbrev pub shown : Option Bytes → Option Bytes → Option Bytes
shown none screen = screen
shown (some frame) screen = some frame

-- The grid, and the frame that was written last.
pub run : DisplayGrid → Option Bytes → List Event → DisplayGrid × Option Bytes
run grid screen [] = (grid, screen)
run grid screen (updates client key row ∷ es) = run (update client key row grid) screen es
run grid screen (renders ∷ es) =
    run (render_if_dirty grid).0 (shown (render_if_dirty grid).1 screen) es

abbrev pub empty_grid : DisplayGrid
empty_grid = record { rows = []; dirty = false }

-- The screen shows the rows unless the grid is dirty, and nothing until the first update.
abbrev pub IsShown : DisplayGrid → Option Bytes → Type 0
IsShown grid screen =
    grid.dirty ≡ false
    → ((screen ≡ some (cursor_home_and_clear ++ build_frame grid.rows))
        ⊎ ((screen ≡ none) × (grid.rows ≡ [])))

render-IsShown :
    (grid : DisplayGrid) (screen : Option Bytes)
    → IsShown grid screen
    → IsShown (render_if_dirty grid).0 (shown (render_if_dirty grid).1 screen)
unfolding render_if_dirty
render-IsShown grid screen s e = elim (Bool-cases grid.dirty) [
  | inl dirty ↦ inl (ground arith)
  | inr clean ↦ rw clean (s clean)
]

update-dirty :
    (client key : Bytes) (row : ClientRow) (grid : DisplayGrid)
    → (update client key row grid).dirty ≡ false
    → ⊥
unfolding update
update-dirty client key row grid e = cc

run-IsShown :
    (grid : DisplayGrid) (screen : Option Bytes) (es : List Event)
    → IsShown grid screen
    → IsShown (run grid screen es).0 (run grid screen es).1
unfolding run
run-IsShown grid screen [] s = s
run-IsShown grid screen (updates client key row ∷ es) s =
    run-IsShown (update client key row grid) screen es (λ e. absurd (not_clean e))
  where
    not_clean : (update client key row grid).dirty ≡ false → ⊥
    not_clean = update-dirty client key row grid
run-IsShown grid screen (renders ∷ es) s =
    run-IsShown (render_if_dirty grid).0 (shown (render_if_dirty grid).1 screen) es
      (render-IsShown grid screen s)

render-dirty : (grid : DisplayGrid) → (render_if_dirty grid).0.dirty ≡ false
unfolding render_if_dirty
render-dirty grid = ground arith

render-rows : (grid : DisplayGrid) → (render_if_dirty grid).0.rows ≡ grid.rows
unfolding render_if_dirty
render-rows grid = ground arith

-- Whatever updates and renderings came before on a new grid, after one more rendering the terminal
-- shows the frame of the grid's rows, or nothing was ever written and there are no rows.
pub render_shows_rows :
    (es : List Event)
    → let grid = (run empty_grid none es).0 in
      let screen = shown (render_if_dirty grid).1 (run empty_grid none es).1 in
      (screen ≡ some (cursor_home_and_clear ++ build_frame grid.rows))
      ⊎ ((screen ≡ none) × (grid.rows ≡ []))
render_shows_rows es =
    let grid = (run empty_grid none es).0 in
    let screen = (run empty_grid none es).1 in
    rw (render-rows grid) at (
      render-IsShown grid screen (run-IsShown empty_grid none es (λ e. inr (refl, refl)))
        (render-dirty grid))
