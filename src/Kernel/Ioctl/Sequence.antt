-- ===== src/Kernel/Ioctl/Sequence.antt =====
-- The handler of IOCTL_GET_DATA of both CPU drivers: any number of requests, one after the other.
use hardware_monitor.Kernel.Ioctl.Safe.{IsBuffer, IsRestoring, evt_io_device_control-IsSafe}
use hardware_monitor.Kernel.Ioctl.Metrics.{IsLawful}
use hardware_monitor.Prelude.{All, List, Option, [], ap, none, refl, some, ◌∙◌, ◌∷◌, ◌≡◌}
use hardware_monitor.Kernel.Ioctl.{Request, Affinities, CpuDriver, evt_io_device_control}

-- The requests of the queue, which dispatches them sequentially, on one thread.
pub serve :
    {S : Type 0} (drv : CpuDriver S) (af : Affinities)
    → List (Request af)
    → S
    → af.Thread
    → Option (S × af.Thread)
serve drv af [] s thread = some (s, thread)
serve drv af (r ∷ requests) s thread = elim (evt_io_device_control drv af r s thread) [
  | none ↦ none
  | some done ↦ serve drv af requests done.globals done.thread
]

pub serve-Wf :
    {S : Type 0} (Wf : S → Type 0) (drv : CpuDriver S) (af : Affinities)
    → IsLawful Wf drv
    → IsRestoring af
    → (requests : List (Request af)) (s : S) (thread : af.Thread) → All IsBuffer requests
    → Wf s
    → (s' : S) × (serve drv af requests s thread ≡ some (s', thread)) × Wf s'
unfolding serve
serve-Wf Wf drv af lawful restoring [] s thread fits wf = (s, refl, wf)
serve-Wf Wf drv af lawful restoring (r ∷ requests) s thread (fit, fits) wf =
    let (done, e, same, wf') =
      evt_io_device_control-IsSafe Wf drv af lawful restoring r s thread wf fit in
    let (s', served, wf'') =
      serve-Wf Wf drv af lawful restoring requests done.globals done.thread fits wf' in
    (s', rw (serve, e) (served ∙ ap (λ t. some (s', t)) same), wf'')
