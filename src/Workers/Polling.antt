-- ===== src/Workers/Polling.antt =====
-- System_Info/HardwareManager.cpp and the workers: what a round queues, when rounds start, and which
-- threads run.
use hardware_monitor.Workers.{execute}
use hardware_monitor.Queue.{TelemetrySnapshot, ClientQueue, push}
use hardware_monitor.Workers.{
  GpuPipelineWorker, HardwareManager, execute_devices, run_passes, start_polling, start_threads,
  stop_polling,
}
use hardware_monitor.Prelude.{
  inl, Bool, List, [], append-nil, append_assoc, arith, false, if◌then◌else◌, inr, length, map,
  refl, suc, sym, true, zero, ℕ, ◌*◌, ◌++◌, ◌+◌, ◌<◌, ◌∙◌, ◌∷◌, ◌≡◌, ◌⊎◌,
}
use hardware_monitor.Device.{HardwareDevice, snapshot}

module _ {F : Type 0} (fetch : HardwareDevice F → HardwareDevice F) where
  abbrev pub round_of : HardwareDevice F → TelemetrySnapshot F
  round_of d = snapshot (fetch d)

  abbrev queue_of : List (TelemetrySnapshot F) → Bool → ClientQueue F
  queue_of xs b = record { queue = xs; shutting_down = b }

  by_state :
      (devices : List (HardwareDevice F)) (xs : List (TelemetrySnapshot F)) (b : Bool)
      → execute_devices fetch devices (queue_of xs b)
        ≡ (map fetch devices, if b then queue_of xs b else queue_of (xs ++ map round_of devices) b)
  unfolding execute_devices push
  by_state [] xs true = refl
  by_state [] xs false = cc (append-nil xs)
  by_state (d ∷ devices) xs true = rw (by_state devices xs true)
  by_state (d ∷ devices) xs false = rw (
    by_state devices (xs ++ round_of d ∷ []) false,
    append_assoc xs (round_of d ∷ []) (map round_of devices),
  )

  -- A round of the GPU worker fetches every device once and queues one snapshot of each, with the
  -- new readings and in the devices' order; after a shutdown of the queue it queues none.
  pub execute_lem :
      (w : GpuPipelineWorker F)
      → execute fetch w ≡ (
          if w.queue.shutting_down then record w { devices = map fetch w.devices } else record {
            devices = map fetch w.devices;
            queue = record w.queue { queue = w.queue.queue ++ map round_of w.devices };
          })
  unfolding execute
  execute_lem w = ground (arith, by_state w.devices w.queue.queue w.queue.shutting_down)

-- Each pass ends before the deadline behind it.
abbrev pub OnTime : (interval next : ℕ) → List ℕ → Type 0
OnTime interval next [] = Unit {0}
OnTime interval next (now ∷ times) =
    (now < next + interval) × OnTime interval (next + interval) times

-- While every pass ends before the deadline of the next, the deadlines lie exactly one interval
-- apart: the time that a pass takes does not add up.
pub run_passes-OnTime :
    (interval next : ℕ) (times : List ℕ)
    → OnTime interval next times
    → run_passes interval next times ≡ next + length times * interval
unfolding run_passes
run_passes-OnTime interval next [] o = omega arith
run_passes-OnTime interval next (now ∷ times) o =
    let ih = run_passes-OnTime interval (next + interval) times o.1 in grind (arith, o.0, ih)

pub data Command : Type 0 where
  starts_polling stops_polling : Command

pub run : HardwareManager → List Command → HardwareManager
run m [] = m
run m (starts_polling ∷ cs) = run (start_polling m) cs
run m (stops_polling ∷ cs) = run (stop_polling m) cs

abbrev pub count_up : ℕ → ℕ → List ℕ
count_up zero i = []
count_up (suc n) i = i ∷ count_up n (i + 1)

start_threads_lem :
    (n i : ℕ) (threads : List ℕ) → start_threads n i threads ≡ threads ++ count_up n i
unfolding start_threads
start_threads_lem zero i threads = sym (append-nil threads)
start_threads_lem (suc n) i threads =
    start_threads_lem n (i + 1) (threads ++ i ∷ [])
    ∙ append_assoc threads (i ∷ []) (count_up n (i + 1))

-- No thread runs, or each worker is run by exactly one.
abbrev pub IsPolling : HardwareManager → Type 0
IsPolling m = (m.worker_threads ≡ []) ⊎ (m.worker_threads ≡ count_up m.workers 0)

start_polling-IsPolling : (m : HardwareManager) → IsPolling m → IsPolling (start_polling m)
unfolding start_polling
start_polling-IsPolling m p = by_threads m.worker_threads refl p
  where
    by_threads : (ts : List ℕ) → m.worker_threads ≡ ts → IsPolling m → IsPolling (start_polling m)
    by_threads [] e p = inr (rw (start_polling, e) (start_threads_lem m.workers 0 []))
    by_threads (t ∷ ts) e p = rw (start_polling, e) p

run_from : (m : HardwareManager) (cs : List Command) → IsPolling m → IsPolling (run m cs)
unfolding run stop_polling
run_from m [] p = p
run_from m (starts_polling ∷ cs) p = run_from (start_polling m) cs (start_polling-IsPolling m p)
run_from m (stops_polling ∷ cs) p = run_from (stop_polling m) cs (inl refl)

-- After any starts and stops, in any order, of a manager that has not polled yet, no thread runs or
-- each worker is run by exactly one thread; a stop leaves none, and a start behind it one for each.
pub run-IsPolling :
    (workers : ℕ) (cs : List Command)
    → let m = run (record { workers = workers; worker_threads = [] }) cs in
      IsPolling m
      × ((stop_polling m).worker_threads ≡ [])
      × ((start_polling (stop_polling m)).worker_threads ≡ count_up m.workers 0)
unfolding start_polling stop_polling
run-IsPolling workers cs =
    let m = run (record { workers = workers; worker_threads = [] }) cs in
    (
      run_from (record { workers = workers; worker_threads = [] }) cs (inl refl),
      refl,
      start_threads_lem m.workers 0 [],
    )
