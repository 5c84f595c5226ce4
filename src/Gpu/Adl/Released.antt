-- ===== src/Gpu/Adl/Released.antt =====
-- System_Info/hardware/GPU/AMD/AMDLiveGPUMetrics.cpp: what a fetch through ADL keeps.
use hardware_monitor.Gpu.Adl.Faults.{
  LacksCaps, LogReadsOutside, ReadsOutside, fetch_od8-none_iff, od_version-none_iff,
}
use hardware_monitor.Gpu.Adl.Ranges.{
  InRange, add_entry-InRange, fetch_od5-InRange, fetch_od6-InRange, fetch_odn-InRange,
}
use hardware_monitor.Prelude.{
  append-nil, sym, append_assoc, Bool, ap, false, subst, ◌++◌, ◌↔◌, ◌∙◌, ◌⊎◌, gtb, pos, refl, suc,
  zero, ℕ, ◌&&◌, Bool-cases, List, Option, Option-cases, [], inl, inr, none, some, true, ℤ, ◌∷◌,
  ◌≡◌,
}
use hardware_monitor.Gpu.Adl.{
  od_version, is_indexed, with_device, with_log, Resource, creates, destroys, fetch_adl_metrics,
  fetch_od8, starts, stops, Adl, LogEntry, LogSensor, add_entries, add_entry, fetch_od5, fetch_od6,
  fetch_odn, read_log,
}
use hardware_monitor.Gpu.{Sensors}
use hardware_monitor.Floats.{Floats}

module _ (fl : Floats) where
  -- If there is a result, its values are in range.
  abbrev EndsClean : Option (Sensors fl) → Type 0
  EndsClean none = Unit {0}
  EndsClean (some ss) = InRange fl ss

  add_entries-InRange :
      (n : ℕ) (ids : List LogSensor) (entries : LogSensor → LogEntry) (ss : Sensors fl)
      → InRange fl ss
      → EndsClean (add_entries fl n ids entries ss)
  unfolding add_entries
  add_entries-InRange n [] entries ss r = r
  add_entries-InRange n (id ∷ ids) entries ss r = elim (Bool-cases (is_indexed n id)) [
    | inr outside ↦ rw outside tt
    | inl inside ↦ rw inside (
        add_entries-InRange n ids entries (add_entry fl id (entries id) ss)
          (add_entry-InRange fl id (entries id) ss r))
  ]

  -- How many devices and logs are open after these calls; `none` if one is closed that is not open.
  abbrev pub open_after : List Resource → ℕ × ℕ → Option (ℕ × ℕ)
  open_after [] counts = some counts
  open_after (creates ∷ rs) (devices, logs) = open_after rs (suc devices, logs)
  open_after (starts ∷ rs) (devices, logs) = open_after rs (devices, suc logs)
  open_after (stops ∷ rs) (devices, zero) = none
  open_after (stops ∷ rs) (devices, suc logs) = open_after rs (devices, logs)
  open_after (destroys ∷ rs) (zero, logs) = none
  open_after (destroys ∷ rs) (suc devices, logs) = open_after rs (devices, logs)

  -- After these calls as many devices and logs are open as before, whatever follows.
  abbrev IsBalanced : List Resource → Type 0
  IsBalanced calls =
      (rs : List Resource) (devices logs : ℕ)
      → open_after (calls ++ rs) (devices, logs) ≡ open_after rs (devices, logs)

  -- If there is a result, its values are in range and its calls are balanced.
  abbrev Clean : Option (Sensors fl × List Resource) → Type 0
  Clean none = Unit {0}
  Clean (some (ss, calls)) = InRange fl ss × IsBalanced calls

  with_log-Clean :
      (started : Bool) (inside : Sensors fl → Option (Sensors fl)) (ss : Sensors fl)
      → InRange fl ss
      → EndsClean (inside ss)
      → Clean (with_log fl started inside ss)
  unfolding with_log
  with_log-Clean false inside ss r clean = (r, (λ rs devices logs. refl))
  with_log-Clean true inside ss r clean = elim (Option-cases (inside ss)) [
    | inl e ↦ rw (with_log, e) tt
    | inr (ss', e) ↦ rw (with_log, e) (subst EndsClean e clean, (λ rs devices logs. refl))
  ]

  with_device-Clean :
      (created : Bool) (inside : Sensors fl → Option (Sensors fl × List Resource)) (ss : Sensors fl)
      → InRange fl ss
      → Clean (inside ss)
      → Clean (with_device fl created inside ss)
  unfolding with_device
  with_device-Clean false inside ss r clean = (r, (λ rs devices logs. refl))
  with_device-Clean true inside ss r clean = elim (Option-cases (inside ss)) [
    | inl e ↦ rw (with_device, e) tt
    | inr ((ss', calls), e) ↦
        let (r', balanced) = subst Clean e clean in
        rw (with_device, e)
          (
            r',
            (λ rs devices logs.
                ap (λ l. open_after l (suc devices, logs)) (append_assoc calls (destroys ∷ []) rs)
                ∙ balanced (destroys ∷ rs) (suc devices) logs),
          )
  ]

  read_log-EndsClean :
      (n : ℕ) (ids : Option (List LogSensor)) (entries : Option (LogSensor → LogEntry))
      (ss : Sensors fl)
      → InRange fl ss
      → EndsClean (read_log fl n ids entries ss)
  unfolding read_log
  read_log-EndsClean n none entries ss r = r
  read_log-EndsClean n (some ids) none ss r = r
  read_log-EndsClean n (some ids) (some entries) ss r = add_entries-InRange n ids entries ss r

  fetch_od8-Clean :
      (a : Adl) (version : ℤ) (ss : Sensors fl) → InRange fl ss → Clean (fetch_od8 fl a version ss)
  unfolding fetch_od8
  fetch_od8-Clean a version ss r =
      elim (Bool-cases (gtb version (pos 7) && (a.pmlog_loaded && a.pmlog_supported))) [
        | inr unsupported ↦ rw unsupported (r, (λ rs devices logs. refl))
        | inl supported ↦ rw supported (
            with_device-Clean a.device_create _ ss r (
              with_log-Clean a.sharememory_start _ ss r
                (read_log-EndsClean a.max_sensors a.sensor_list a.sharememory_read ss r)))
      ]

  -- A fetch, whatever ADL answers, faults exactly if it calls a function for the caps that is not
  -- there, or the log of a card of version 8 or higher is opened and read and lists a sensor outside
  -- the array. If it does not fault, it keeps every value in the range of its type if all were, and
  -- has given back every device and log that it has opened, each after it was opened.
  pub fetch_adl_metrics_lem :
      (a : Adl) (ss : Sensors fl)
      → InRange fl ss
      → ((fetch_adl_metrics fl a ss ≡ none) ↔ (LacksCaps fl a ⊎ ReadsOutside fl a))
        × ((ss' : Sensors fl) (calls : List Resource)
            → fetch_adl_metrics fl a ss ≡ some (ss', calls)
            → InRange fl ss' × (open_after calls (0, 0) ≡ some (0, 0)))
  unfolding fetch_adl_metrics
  fetch_adl_metrics_lem a ss r =
      let before = fetch_odn fl a (fetch_od6 fl a (fetch_od5 fl a ss)) in
      let kept : InRange fl before =
        fetch_odn-InRange fl a _ (fetch_od6-InRange fl a _ (fetch_od5-InRange fl a ss r)) in
      let (forth, back) = od_version-none_iff fl a.overdrive2_caps a.overdrive_caps in
      elim (Option-cases (od_version a.overdrive2_caps a.overdrive_caps)) [
        | inl e ↦
            let faults : fetch_adl_metrics fl a ss ≡ none = rw (fetch_adl_metrics, e) refl in
            (((λ _. inl (forth e)), (λ _. faults)), (λ ss' calls e'. absurd (cc (faults, e'))))
        | inr (version, e) ↦
            let runs : fetch_adl_metrics fl a ss ≡ fetch_od8 fl a version before =
              rw (fetch_adl_metrics, e) refl in
            let (outside, faults) = fetch_od8-none_iff fl a version before in
            (
              (
                (λ e'. inr (version, e, outside (sym runs ∙ e'))),
                (λ h. elim h [
                  | inl lacks ↦ absurd (cc (back lacks, e))
                  | inr (version', e', log) ↦
                      let same : version' ≡ version = cc (e, e') in
                      runs ∙ faults (subst (LogReadsOutside fl a) same log)
                ]),
              ),
              (λ ss' calls e'.
                  let (r', balanced) =
                    subst Clean (sym runs ∙ e') (fetch_od8-Clean a version before kept) in
                  (r', ap (λ l. open_after l (0, 0)) (sym (append-nil calls)) ∙ balanced [] 0 0)),
            )
      ]
