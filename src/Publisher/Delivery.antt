-- ===== src/Publisher/Delivery.antt =====
-- System_Info/SystemInfoClient.cpp and OPC_UA/client.cpp: how `sendTelemetryPayload` ends.
use hardware_monitor.Prelude.{
  Option, none, refl, some, subst, sym, ◌⊎◌, Bool, List, [], arith, false, inl, inr, true, ◌↔◌, ◌∷◌,
  ◌≡◌, ◌≢◌,
}
use hardware_monitor.Publisher.{
  send_telemetry_payload, Publisher, Sending, Sent, after_sending, build_telemetry_payload,
  send_all, send_drained, sent, waits, when_drained,
}
use hardware_monitor.Queue.{drain_loop, empty, ClientQueue, TelemetrySnapshot, drain, is_ready}
use hardware_monitor.Service.{AddressSpace, Result, bad, ok}
use hardware_monitor.Ua.{NodeIds}

module _ {F : Type 0} (ua : NodeIds) (sp : AddressSpace ua F) where
  open ua use {NodeId}

  -- With a folder: the end of a call whose queue was drained, or could not be.
  abbrev pub Ends : Bool → Publisher ua F sp × Result Sent → Type 0
  Ends ready (p', r) =
      (r ≢ ok (sent false)) × ((r ≡ ok waits) ↔ (ready ≡ false)) × (p'.queue.queue ≡ [])

  after_sending-Ends :
      (p : Publisher ua F sp) (q : ClientQueue F) (r : Sending ua sp × Result (Unit {0}))
      → q.queue ≡ []
      → Ends true (after_sending ua sp p q r)
  after_sending-Ends p q (st, ok _) e = (λ x. absurd (cc x), ground arith, e)
  after_sending-Ends p q (st, bad _) e = (λ x. absurd (cc x), ground arith, e)

  send_drained-Ends :
      (p : Publisher ua F sp) (client_folder : NodeId) (drained : List (TelemetrySnapshot F))
      (q : ClientQueue F)
      → q.queue ≡ []
      → Ends true (send_drained ua sp p client_folder drained q)
  send_drained-Ends p client_folder [] q e = (λ x. absurd (cc x), ground arith, e)
  send_drained-Ends p client_folder (first ∷ rest) q e =
      after_sending-Ends p q
        (send_all ua sp client_folder p.client_name (first ∷ rest)
          (build_telemetry_payload ua sp (first ∷ rest)) (p.server, p.device_nodes))
        e

  drain_cases :
      (q : ClientQueue F)
      → ((is_ready q ≡ true) × (drain q ≡ some (drain_loop q.queue [], record q { queue = [] })))
        ⊎ ((is_ready q ≡ false) × (drain q ≡ none) × (q.queue ≡ []))
  unfolding drain
  drain_cases q = ground arith

  when_drained-Ends :
      (p : Publisher ua F sp) (client_folder : NodeId)
      → Ends (is_ready p.queue) (when_drained ua sp p client_folder (drain p.queue))
  when_drained-Ends p client_folder = elim (drain_cases p.queue) [
    | inl (ready, e) ↦
        subst (λ b. Ends b (when_drained ua sp p client_folder (drain p.queue))) (sym ready)
          (subst (λ d. Ends true (when_drained ua sp p client_folder d)) (sym e)
            (send_drained-Ends p client_folder (drain_loop p.queue.queue [])
              (record p.queue { queue = [] }) refl))
    | inr (waiting, e, empty) ↦
        subst (λ b. Ends b (when_drained ua sp p client_folder (drain p.queue))) (sym waiting)
          (subst (λ d. Ends false (when_drained ua sp p client_folder d)) (sym e)
            ((λ x. absurd (cc x)), ground arith, empty))
  ]

  -- Without a folder the call returns false and changes nothing.
  abbrev pub EndsAs : Publisher ua F sp → Option NodeId → Publisher ua F sp × Result Sent → Type 0
  EndsAs p none (p', r) = (p' ≡ p) × (r ≡ ok (sent false))
  EndsAs p (some client_folder) after = Ends (is_ready p.queue) after

  -- Before `addNodes` has set a folder, a call changes nothing and returns false. From then on it
  -- never returns false, waits exactly while the queue is empty and not shut down, and leaves the
  -- queue empty, also where an exception of the server ends it before all is sent.
  pub send_telemetry_payload-EndsAs :
      (p : Publisher ua F sp) → EndsAs p p.client_folder (send_telemetry_payload ua sp p)
  unfolding send_telemetry_payload
  send_telemetry_payload-EndsAs p = by_folder p.client_folder
    where
      by_folder :
          (f : Option NodeId)
          → EndsAs p f (elim f [
            | none ↦ (p, ok (sent false))
            | some client_folder ↦ when_drained ua sp p client_folder (drain p.queue)
          ])
      by_folder none = (refl, refl)
      by_folder (some client_folder) = when_drained-Ends p client_folder
