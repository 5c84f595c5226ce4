-- ===== src/Queue/Order.antt =====
-- OPC_UA/ClientQueue.cpp: what a schedule of calls by the workers and the sender hands over.
use hardware_monitor.Prelude.{
  refl, if◌then◌else◌, Bool, append-nil, append_assoc, List, [], arith, false, none, some, sym,
  true, ◌++◌, ◌∙◌, ◌∷◌, ◌≡◌,
}
use hardware_monitor.Queue.{push, shutdown, ClientQueue, TelemetrySnapshot, drain, drain_loop}

-- A call by some thread; the mutex makes each call one step.
pub data Call (F : Type 0) : Type 0 where
  pushes : TelemetrySnapshot F → Call F
  drains : Call F
  shuts_down : Call F

module _ {F : Type 0} where
  drain_loop_lem : (xs out : List (TelemetrySnapshot F)) → drain_loop xs out ≡ out ++ xs
  unfolding drain_loop
  drain_loop_lem [] out = sym (append-nil out)
  drain_loop_lem (x ∷ xs) out = drain_loop_lem xs (out ++ x ∷ []) ∙ append_assoc out (x ∷ []) xs

  -- `drain` waits exactly while the queue is empty and not shut down. When it returns it hands over
  -- the whole queue in its order and leaves it empty.
  drain_lem :
      (q : ClientQueue F)
      → drain q ≡ elim q.queue [
        | [] ↦ if q.shutting_down then some ([], record q { queue = [] }) else none
        | _ ∷ _ ↦ some (q.queue, record q { queue = [] })
      ]
  unfolding drain
  drain_lem q = ground (arith, drain_loop_lem q.queue [])

  -- A schedule: the queue after it, and all that its drains handed over. A drain that would wait
  -- changes nothing.
  pub run : ClientQueue F → List (Call F) → List (TelemetrySnapshot F) × ClientQueue F
  unfolding push drain shutdown
  run q [] = ([], q)
  run q (pushes s ∷ cs) = run (push s q) cs
  run q (shuts_down ∷ cs) = run (shutdown q) cs
  run q (drains ∷ cs) = elim (drain q) [
    | none ↦ run q cs
    | some (batch, q') ↦ let (out, q'') = run q' cs in (batch ++ out, q'')
  ]

  -- The snapshots pushed before the first shutdown.
  pub accepted : Bool → List (Call F) → List (TelemetrySnapshot F)
  accepted true cs = []
  accepted false [] = []
  accepted false (pushes s ∷ cs) = s ∷ accepted false cs
  accepted false (drains ∷ cs) = accepted false cs
  accepted false (shuts_down ∷ cs) = []

  abbrev queue_of : List (TelemetrySnapshot F) → Bool → ClientQueue F
  queue_of xs b = record { queue = xs; shutting_down = b }

  drained :
      (xs : List (TelemetrySnapshot F)) (b : Bool) (cs : List (Call F))
      → (run (queue_of [] b) cs).0 ++ (run (queue_of [] b) cs).1.queue ≡ accepted b cs
      → (drain_loop xs [] ++ (run (queue_of [] b) cs).0) ++ (run (queue_of [] b) cs).1.queue
        ≡ xs ++ accepted b cs
  drained xs b cs ih = rw (drain_loop_lem xs [], append_assoc xs, ih)

  in_order :
      (xs : List (TelemetrySnapshot F)) (b : Bool) (cs : List (Call F))
      → (run (queue_of xs b) cs).0 ++ (run (queue_of xs b) cs).1.queue ≡ xs ++ accepted b cs
  unfolding run accepted
  in_order xs true [] = sym (append-nil xs)
  in_order xs false [] = sym (append-nil xs)
  in_order xs true (pushes s ∷ cs) = in_order xs true cs
  in_order xs false (pushes s ∷ cs) =
      in_order (xs ++ s ∷ []) false cs ∙ append_assoc xs (s ∷ []) (accepted false cs)
  in_order xs true (shuts_down ∷ cs) = in_order xs true cs
  in_order xs false (shuts_down ∷ cs) = in_order xs true cs
  in_order [] true (drains ∷ cs) = in_order [] true cs
  in_order [] false (drains ∷ cs) = in_order [] false cs
  in_order (x ∷ xs) true (drains ∷ cs) = drained (x ∷ xs) true cs (in_order [] true cs)
  in_order (x ∷ xs) false (drains ∷ cs) = drained (x ∷ xs) false cs (in_order [] false cs)

  -- Under every schedule of pushes, drains and a shutdown, what the drains handed over followed by
  -- what is still queued is the old queue followed by the accepted snapshots: none is lost,
  -- repeated or overtaken, and none is taken after the shutdown.
  pub run_in_order :
      (q : ClientQueue F) (cs : List (Call F))
      → (run q cs).0 ++ (run q cs).1.queue ≡ q.queue ++ accepted q.shutting_down cs
  run_in_order q cs = in_order q.queue q.shutting_down cs

  run-shutting_down :
      (xs : List (TelemetrySnapshot F)) (cs : List (Call F))
      → (run (queue_of xs true) cs).1.shutting_down ≡ true
  unfolding run
  run-shutting_down xs [] = refl
  run-shutting_down xs (pushes s ∷ cs) = run-shutting_down xs cs
  run-shutting_down xs (shuts_down ∷ cs) = run-shutting_down xs cs
  run-shutting_down [] (drains ∷ cs) = run-shutting_down [] cs
  run-shutting_down (x ∷ xs) (drains ∷ cs) = run-shutting_down [] cs

  drain_shut_down :
      (xs : List (TelemetrySnapshot F)) (b : Bool)
      → b ≡ true
      → drain (queue_of xs b) ≡ some (xs, queue_of [] true)
  unfolding drain
  drain_shut_down [] true e = refl
  drain_shut_down [] false e = absurd (cc e)
  drain_shut_down (x ∷ xs) true e = rw (drain_loop_lem (x ∷ xs) [])
  drain_shut_down (x ∷ xs) false e = absurd (cc e)

  -- After a shutdown, and whatever calls follow it, the next drain does not wait: it returns and
  -- leaves an empty queue that is still shut down, and all drains since the shutdown have together
  -- handed over exactly what was queued at the shutdown, in its order.
  pub run-shutdown-drains :
      (q : ClientQueue F) (cs : List (Call F))
      → (batch : List (TelemetrySnapshot F)) × (drain (run (shutdown q) cs).1
          ≡ some (batch, record { queue = []; shutting_down = true }))
        × ((run (shutdown q) cs).0 ++ batch ≡ q.queue)
  unfolding shutdown accepted
  run-shutdown-drains q cs =
      let after = (run (queue_of q.queue true) cs).1 in
      (
        after.queue,
        drain_shut_down after.queue after.shutting_down (run-shutting_down q.queue cs),
        in_order q.queue true cs ∙ append-nil q.queue,
      )
