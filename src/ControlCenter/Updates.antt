-- ===== src/ControlCenter/Updates.antt =====
-- control_center/ControlCenterClient.cpp `handleSensorUpdate` and the sink and the loop of main.cpp.
pub mod EndToEnd
pub mod Shown
pub mod Latest
pub mod Schedule
use hardware_monitor.ControlCenter.{ControlCenterClient}
use hardware_monitor.Device.{sensor_type_eq}
use hardware_monitor.Grid.{ClientRow, DisplayGrid, update}
use hardware_monitor.Prelude.{
  Bool, Bytes, List, Option, [], bytes, false, if◌then◌else◌, leb, list_eq, lookup, ltb, nat_eq,
  none, some, take, true, ℕ, ◌*◌, ◌++◌, ◌+◌, ◌==◌, ◌∷◌,
}
use hardware_monitor.Service.{AddressSpace}
use hardware_monitor.Telemetry.{
  DecodedDevice, DecodedSensor, SensorDto, Variant, decode_sensor_dtos,
}
use hardware_monitor.Ua.{NodeIds}

module _ {F : Type 0} (ua : NodeIds) (sp : AddressSpace ua F) where
  -- `format_1f` is snprintf's "%.1f", `decode_binary` is UA_decodeBinary.
  module _ (format_1f : F → Bytes) (decode_binary : Bytes → Option (SensorDto F)) where
    -- The text of a value: the buffer has 32 chars, the last one for the NUL.
    unfoldable pub value_text : DecodedSensor F → Bytes
    value_text sensor =
        let val_str = take 31 (format_1f sensor.value) in
        if sensor.unit == [] then val_str else val_str ++ (bytes " " ++ sensor.unit)

    unfoldable pub sensor_fields : List (DecodedSensor F) → List (Bytes × Bytes)
    unfolding value_text
    sensor_fields [] = []
    sensor_fields (sensor ∷ sensors) =
        (bytes "  " ++ sensor.name, value_text sensor) ∷ sensor_fields sensors

    unfoldable pub row_of : DecodedDevice F → List (DecodedSensor F) → ClientRow
    unfolding sensor_fields
    row_of info sensors = record {
      fields =
          (info.name ++ (bytes " (" ++ (info.hardware_type ++ bytes ")")), [])
          ∷ sensor_fields sensors;
    }

    -- What the sink is called with, if it is.
    unfoldable pub handle_sensor_update :
        Bytes → Variant F → ControlCenterClient ua F sp → Option (Bytes × Bytes × ClientRow)
    handle_sensor_update device_node_id value c =
        elim (lookup ⦃e = list_eq⦄ device_node_id c.device_cache) [
          | none ↦ none
          | some cache ↦ some (
            cache.client_folder_name,
            cache.info.hardware_type,
            row_of cache.info (decode_sensor_dtos decode_binary value),
          )
        ]

    -- The sink that main.cpp hands over.
    abbrev pub sink : Option (Bytes × Bytes × ClientRow) → DisplayGrid → DisplayGrid
    sink none grid = grid
    sink (some (client_name, device_key, row)) grid = update client_name device_key row grid

    -- The callbacks that one `runIterate` makes, in order.
    unfoldable pub run_iterate :
        List (Bytes × Variant F) → ControlCenterClient ua F sp → DisplayGrid → DisplayGrid
    unfolding handle_sensor_update
    run_iterate [] c grid = grid
    run_iterate ((device_node_id, value) ∷ changes) c grid =
        run_iterate changes c (sink (handle_sensor_update device_node_id value c) grid)

-- Times in the ticks of the clock, which are nanoseconds.
abbrev pub tick_cadence : ℕ
tick_cadence = 100 * 1000000

abbrev pub render_interval : ℕ
render_interval = 2000 * 1000000

pub record Deadlines : Type 0 where
  pub next_tick : ℕ
  pub next_render : ℕ

-- `next_render` after a pass at `now`, and whether it renders.
unfoldable pub render_due : (now next_render : ℕ) → ℕ × Bool
render_due now next_render =
    if leb next_render now
    then (
      if leb (next_render + render_interval) now
          then now + render_interval
          else next_render + render_interval,
      true,
    )
    else (next_render, false)

-- The end of a pass: the schedule, whether the grid is rendered, and until when it sleeps.
unfoldable pub end_pass : ℕ → Deadlines → Deadlines × Bool × Option ℕ
unfolding render_due
end_pass now s =
    let next = s.next_tick + tick_cadence in
    let (next_render, renders) = render_due now s.next_render in
    if ltb now next
    then (record { next_tick = next; next_render = next_render }, renders, some next)
    else (record { next_tick = now; next_render = next_render }, renders, none)
