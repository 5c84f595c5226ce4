-- ===== src/Kernel/Loaded.antt =====
-- drivers/windows/CPU: a driver from its load on.
use hardware_monitor.Kernel.Amd.{amd_driver}
use hardware_monitor.Kernel.Amd.Entry.{driver_entry_lem}
use hardware_monitor.Kernel.Amd.Lawful.{amd_driver-IsLawful}
use hardware_monitor.Kernel.Intel.{intel_driver}
use hardware_monitor.Kernel.Intel.Entry.{driver_entry-IsWellFormed}
use hardware_monitor.Kernel.Intel.Lawful.{intel_driver-IsLawful}
use hardware_monitor.Kernel.Ioctl.{Affinities, Request}
use hardware_monitor.Kernel.Ioctl.Safe.{IsBuffer, IsRestoring}
use hardware_monitor.Kernel.Ioctl.Sequence.{serve, serve-Wf}
use hardware_monitor.Prelude.{All, List, some, ◌≡◌}
use hardware_monitor.Kernel.Amd
use hardware_monitor.Kernel.Intel

-- From the load of either driver on, whatever the processor and the kernel answer: any sequence of
-- requests is handled to its end without an access outside the output buffers and the driver's
-- array of core states, and leaves the affinity of the thread as it was. The memory of each request
-- is as large as its length says, and reverting an affinity takes back what the first change of it
-- saved.
pub loaded_drivers_are_safe :
    (af : Affinities)
    → IsRestoring af
    → (requests : List (Request af)) (thread : af.Thread) → All IsBuffer requests
    → (amd_boot : Amd.Entry.Boot) (intel_boot : Intel.Entry.Boot)
    → ((g : Amd.Globals) × (serve amd_driver af requests (Amd.Entry.driver_entry amd_boot).0 thread
          ≡ some (g, thread)))
      × ((g : Intel.Globals) × (serve intel_driver af requests
              (Intel.Entry.driver_entry intel_boot).0
              thread
            ≡ some (g, thread)))
loaded_drivers_are_safe af restoring requests thread fits amd_boot intel_boot =
    let (g, e, _) =
      serve-Wf Amd.Lawful.IsWellFormed amd_driver af Amd.Lawful.amd_driver-IsLawful restoring
        requests (Amd.Entry.driver_entry amd_boot).0 thread fits
        (Amd.Entry.driver_entry_lem amd_boot).0 in
    let (g', e', _) =
      serve-Wf Intel.Lawful.IsWellFormed intel_driver af Intel.Lawful.intel_driver-IsLawful
        restoring requests (Intel.Entry.driver_entry intel_boot).0 thread fits
        (Intel.Entry.driver_entry-IsWellFormed intel_boot) in
    ((g, e), (g', e'))
