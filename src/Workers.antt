-- ===== src/Workers.antt =====
-- System_Info/HardwareManager.cpp with the workers of System_Info/hardware/pipeline_workers.
pub mod Polling
use hardware_monitor.Device.{HardwareDevice, snapshot}
use hardware_monitor.Prelude.{
  List, Option, [], if◌then◌else◌, ltb, none, some, suc, zero, ℕ, ◌++◌, ◌+◌, ◌∷◌,
}
use hardware_monitor.Queue.{ClientQueue, push}

pub record GpuPipelineWorker (F : Type 0) : Type 0 where
  pub devices : List (HardwareDevice F)
  pub queue : ClientQueue F

module _ {F : Type 0} where
  unfoldable pub all_devices : List (List (HardwareDevice F)) → List (HardwareDevice F)
  all_devices [] = []
  all_devices (pool ∷ pools) = pool ++ all_devices pools

  -- `initialize`, with the devices of the pools that the DXGI handler has made.
  unfoldable pub initialize :
      List (List (HardwareDevice F)) → GpuPipelineWorker F → GpuPipelineWorker F
  initialize pools w = record w { devices = w.devices ++ all_devices pools }

  -- The loop of `execute`; `fetch` is the virtual `fetchMetrics`.
  unfoldable pub execute_devices :
      (HardwareDevice F → HardwareDevice F)
      → List (HardwareDevice F)
      → ClientQueue F
      → List (HardwareDevice F) × ClientQueue F
  execute_devices fetch [] queue = ([], queue)
  execute_devices fetch (device ∷ devices) queue =
      let fetched = fetch device in
      let rest = execute_devices fetch devices (push (snapshot fetched) queue) in
      (fetched ∷ rest.0, rest.1)

  unfoldable pub execute :
      (HardwareDevice F → HardwareDevice F) → GpuPipelineWorker F → GpuPipelineWorker F
  execute fetch w =
      let after = execute_devices fetch w.devices w.queue in
      record { devices = after.0; queue = after.1 }

-- A pass of `IHardwarePipelineWorker::run` that ends at `now`: the next deadline, and until when the
-- thread sleeps.
unfoldable pub end_pass : (poll_interval now next : ℕ) → ℕ × Option ℕ
end_pass poll_interval now next =
    let later = next + poll_interval in if ltb now later then (later, some later) else (now, none)

-- The deadline after passes that end at these times.
unfoldable pub run_passes : (poll_interval next : ℕ) → List ℕ → ℕ
unfolding end_pass
run_passes poll_interval next [] = next
run_passes poll_interval next (now ∷ times) =
    run_passes poll_interval (end_pass poll_interval now next).0 times

-- HardwareManager: how many workers it has, and the worker that each of its threads runs.
pub record HardwareManager : Type 0 where
  pub workers : ℕ
  pub worker_threads : List ℕ

-- The loop of `StartPolling` over the workers from `i` on.
unfoldable pub start_threads : ℕ → ℕ → List ℕ → List ℕ
start_threads zero i threads = threads
start_threads (suc left) i threads = start_threads left (i + 1) (threads ++ i ∷ [])

unfoldable pub start_polling : HardwareManager → HardwareManager
start_polling m = elim m.worker_threads [
  | [] ↦ record m { worker_threads = start_threads m.workers 0 [] }
  | _ ∷ _ ↦ m
]

-- `clear` joins the threads, which have all been asked to stop; the destructor calls this too.
unfoldable pub stop_polling : HardwareManager → HardwareManager
stop_polling m = record m { worker_threads = [] }
