-- ===== src/Queue.antt =====
-- OPC_UA/ClientQueue.cpp and .h: the queue between the hardware workers and the client's sender.
pub mod Order
use hardware_monitor.Prelude.{
  Bool, Bytes, List, Option, [], false, if◌then◌else◌, none, some, true, ◌++◌, ◌∷◌,
}

pub record SensorSnapshot (F : Type 0) : Type 0 where
  pub name : Bytes
  pub value : F
  pub unit : Bytes

pub record TelemetrySnapshot (F : Type 0) : Type 0 where
  pub name : Bytes
  pub vendor : Bytes
  pub hardware_type : Bytes
  pub sensors : List (SensorSnapshot F)

pub record ClientQueue (F : Type 0) : Type 0 where
  pub queue : List (TelemetrySnapshot F)
  pub shutting_down : Bool

module _ {F : Type 0} where
  abbrev pub empty : ClientQueue F
  empty = record { queue = []; shutting_down = false }

  unfoldable pub push : TelemetrySnapshot F → ClientQueue F → ClientQueue F
  push snapshot q = if q.shutting_down then q else record q { queue = q.queue ++ snapshot ∷ [] }

  -- The predicate that `cv_.wait` waits for.
  abbrev pub is_ready : ClientQueue F → Bool
  is_ready q = elim q.queue [ [] ↦ q.shutting_down | _ ∷ _ ↦ true ]

  -- `while (!queue_.empty())`: the front goes to the end of the snapshots.
  unfoldable pub drain_loop :
      List (TelemetrySnapshot F) → List (TelemetrySnapshot F) → List (TelemetrySnapshot F)
  drain_loop [] snapshots = snapshots
  drain_loop (front ∷ rest) snapshots = drain_loop rest (snapshots ++ front ∷ [])

  -- `none` where the call still waits.
  unfoldable pub drain : ClientQueue F → Option (List (TelemetrySnapshot F) × ClientQueue F)
  unfolding drain_loop
  drain q = if is_ready q then some (drain_loop q.queue [], record q { queue = [] }) else none

  unfoldable pub shutdown : ClientQueue F → ClientQueue F
  shutdown q = record q { shutting_down = true }
