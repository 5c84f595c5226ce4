-- ===== src/Gpu/Adl/Faults.antt =====
-- System_Info/hardware/GPU/AMD/AMDLiveGPUMetrics.cpp: when a fetch through ADL faults.
use hardware_monitor.Prelude.{
  Bool, false, ◌↔◌, ◌⊎◌, gtb, pos, refl, ℕ, ◌&&◌, Bool-cases, List, Option, [], arith, inl, inr,
  none, some, true, ℤ, ◌∷◌, ◌≡◌,
}
use hardware_monitor.Gpu.Adl.{
  od_version, is_indexed, with_device, with_log, Resource, fetch_od8, Adl, LogEntry, LogSensor,
  add_entries, add_entry, read_log,
}
use hardware_monitor.Gpu.{Query, Sensors}
use hardware_monitor.Floats.{Floats}

module _ (fl : Floats) where
  open fl use {Float, of_int}

  -- Some sensor of the list is outside the array.
  abbrev pub HasOutside : (max_sensors : ℕ) → List LogSensor → Type 0
  HasOutside n [] = ⊥
  HasOutside n (id ∷ ids) = (is_indexed n id ≡ false) ⊎ HasOutside n ids

  add_entries-none_iff :
      (n : ℕ) (ids : List LogSensor) (entries : LogSensor → LogEntry) (ss : Sensors fl)
      → (add_entries fl n ids entries ss ≡ none) ↔ HasOutside n ids
  unfolding add_entries
  add_entries-none_iff n [] entries ss = ((λ e. absurd (cc e)), (λ h. absurd h))
  add_entries-none_iff n (id ∷ ids) entries ss =
      let (forth, back) = add_entries-none_iff n ids entries (add_entry fl id (entries id) ss) in
      elim (Bool-cases (is_indexed n id)) [
        | inr outside ↦ rw outside ((λ e. inl refl), (λ h. refl))
        | inl inside ↦
            rw inside
              ((λ e. inr (forth e)), (λ h. elim h [ inl e ↦ absurd (cc e) | inr h ↦ back h ]))
      ]

  -- The fetch calls a function that is not there.
  abbrev pub LacksCaps : Adl → Type 0
  LacksCaps a =
      (a.overdrive2_caps ≡ none) ⊎ ((a.overdrive2_caps ≡ some none) × (a.overdrive_caps ≡ none))

  pub od_version-none_iff :
      (first second : Query ℤ)
      → (od_version first second ≡ none)
        ↔ ((first ≡ none) ⊎ ((first ≡ some none) × (second ≡ none)))
  unfolding od_version
  od_version-none_iff none second = ((λ e. inl refl), (λ h. refl))
  od_version-none_iff (some (some v)) second =
      ((λ e. absurd (cc e)), (λ h. elim h [ inl e ↦ absurd (cc e) | inr (e, _) ↦ absurd (cc e) ]))
  od_version-none_iff (some none) none = ((λ e. inr (refl, refl)), (λ h. refl))
  od_version-none_iff (some none) (some none) =
      ((λ e. absurd (cc e)), (λ h. elim h [ inl e ↦ absurd (cc e) | inr (_, e) ↦ absurd (cc e) ]))
  od_version-none_iff (some none) (some (some v)) =
      ((λ e. absurd (cc e)), (λ h. elim h [ inl e ↦ absurd (cc e) | inr (_, e) ↦ absurd (cc e) ]))

  -- The log of a card of this version is opened and read, and lists a sensor outside the array.
  abbrev pub LogReadsOutside : Adl → ℤ → Type 0
  LogReadsOutside a version =
      (ids : List LogSensor) × (entries : LogSensor → LogEntry) × ((gtb version (pos 7)
          && (a.pmlog_loaded && a.pmlog_supported))
        ≡ true)
      × (a.device_create ≡ true)
      × (a.sharememory_start ≡ true)
      × (a.sensor_list ≡ some ids)
      × (a.sharememory_read ≡ some entries)
      × HasOutside a.max_sensors ids

  abbrev pub ReadsOutside : Adl → Type 0
  ReadsOutside a =
      (version : ℤ) × (od_version a.overdrive2_caps a.overdrive_caps ≡ some version)
      × LogReadsOutside a version

  read_log-faults :
      (n : ℕ) (list : Option (List LogSensor)) (read : Option (LogSensor → LogEntry))
      (ss : Sensors fl)
      → read_log fl n list read ss ≡ none
      → (ids : List LogSensor) × (entries : LogSensor → LogEntry) × (list ≡ some ids)
        × (read ≡ some entries)
        × HasOutside n ids
  unfolding read_log
  read_log-faults n none read ss e = absurd (cc e)
  read_log-faults n (some ids) none ss e = absurd (cc e)
  read_log-faults n (some ids) (some entries) ss e =
      (ids, entries, refl, refl, (add_entries-none_iff n ids entries ss).0 e)

  with_log-faults :
      (started : Bool) (inside : Sensors fl → Option (Sensors fl)) (ss : Sensors fl)
      → with_log fl started inside ss ≡ none
      → (started ≡ true) × (inside ss ≡ none)
  unfolding with_log
  with_log-faults started inside ss e = ground (arith, e)

  with_device-faults :
      (created : Bool) (inside : Sensors fl → Option (Sensors fl × List Resource)) (ss : Sensors fl)
      → with_device fl created inside ss ≡ none
      → (created ≡ true) × (inside ss ≡ none)
  unfolding with_device
  with_device-faults created inside ss e = ground (arith, e)

  -- What the last block does inside the log, and with the device.
  abbrev log_read : Adl → Sensors fl → Option (Sensors fl)
  log_read a = read_log fl a.max_sensors a.sensor_list a.sharememory_read

  abbrev logged : Adl → Sensors fl → Option (Sensors fl × List Resource)
  logged a = with_log fl a.sharememory_start (log_read a)

  pub fetch_od8-none_iff :
      (a : Adl) (version : ℤ) (ss : Sensors fl)
      → (fetch_od8 fl a version ss ≡ none) ↔ LogReadsOutside a version
  unfolding fetch_od8 with_device with_log read_log
  fetch_od8-none_iff a version ss = (
    (λ e. elim (Bool-cases (gtb version (pos 7) && (a.pmlog_loaded && a.pmlog_supported))) [
      | inr unsupported ↦ absurd (ground (arith, unsupported, e))
      | inl supported ↦
          let opened : with_device fl a.device_create (logged a) ss ≡ none =
            ground (arith, supported, e) in
          let (created, e) = with_device-faults a.device_create (logged a) ss opened in
          let (started, e) = with_log-faults a.sharememory_start (log_read a) ss e in
          let (ids, entries, listed, read, outside) =
            read_log-faults a.max_sensors a.sensor_list a.sharememory_read ss e in
          (ids, entries, supported, created, started, listed, read, outside)
    ]),
    (λ (ids, entries, supported, created, started, listed, read, outside).
        rw
          (
            supported,
            created,
            started,
            listed,
            read,
            with_device,
            with_log,
            read_log,
            (add_entries-none_iff a.max_sensors ids entries ss).1 outside,
          )
          refl),
  )
