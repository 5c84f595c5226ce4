-- ===== src/Gpu/NvidiaPool/Divides.antt =====
-- System_Info/hardware/GPU/NVIDIA/NvidiaPool.cpp: when looking for cards divides by zero.
use hardware_monitor.Prelude.{
  Option, subst, sym, ◌∙◌, Bool-cases, List, [], arith, inl, inr, none, refl, some, suc, true, zero,
  ℕ, ℤ, ◌++◌, ◌+◌, ◌<◌, ◌↔◌, ◌∷◌, ◌≡◌, ◌≢◌, ◌≤◌, ◌⊎◌,
}
use hardware_monitor.Device.{HardwareDevice}
use hardware_monitor.Floats.{Floats}
use hardware_monitor.Gpu.Nvidia.{fetch_metrics, avg_temp}
use hardware_monitor.Gpu.NvidiaPool.{NvLibrary, nvidia_device, enumerate_from, enumerate_devices}

avg_temp-cases :
    (temps : List ℤ)
    → ((avg_temp temps ≡ none) × (temps ≡ []))
      ⊎ ((a : ℤ) × (avg_temp temps ≡ some a) × (temps ≢ []))
unfolding avg_temp
avg_temp-cases [] = inl (refl, refl)
avg_temp-cases (t ∷ temps) = inr (_, refl, λ e. cc e)

result-cases : {A : Type 0} → (x : Option A) → (x ≡ none) ⊎ ((a : A) × (x ≡ some a))
result-cases none = inl refl
result-cases (some a) = inr (a, refl)

module _ (fl : Floats) (l : NvLibrary) where
  open fl use {Float}

  -- A card with a handle that reports no thermal sensor, also because the query failed.
  abbrev pub IsBlind : ℕ → Type 0
  IsBlind i = (l.handle i ≡ true) × ((l.metrics i).current_temps ≡ [])

  nvidia_device-IsBlind : (i : ℕ) → nvidia_device fl l i ≡ none → IsBlind i
  unfolding nvidia_device fetch_metrics
  nvidia_device-IsBlind i d = elim (Bool-cases (l.handle i)) [
    | inl h ↦ elim (avg_temp-cases (l.metrics i).current_temps) [
      | inl (_, z) ↦ (h, z)
      | inr (a, e, _) ↦ absurd (cc (rw (nvidia_device, fetch_metrics, h, e) at d))
    ]
    | inr h ↦ absurd (cc (rw (nvidia_device, fetch_metrics, h) at d))
  ]

  nvidia_device-none : (i : ℕ) → IsBlind i → nvidia_device fl l i ≡ none
  unfolding nvidia_device fetch_metrics avg_temp
  nvidia_device-none i (h, z) = rw (nvidia_device, fetch_metrics, h, avg_temp, z)

  nvidia_device-cases :
      (i : ℕ)
      → ((nvidia_device fl l i ≡ none) × IsBlind i)
        ⊎ ((dev : HardwareDevice Float) × (nvidia_device fl l i ≡ some dev) × ¬ IsBlind i)
  nvidia_device-cases i = elim (result-cases (nvidia_device fl l i)) [
    | inl d ↦ inl (d, nvidia_device-IsBlind i d)
    | inr (dev, d) ↦ inr (dev, d, λ blind. cc (d, nvidia_device-none i blind))
  ]

  one_more :
      (left i : ℕ) (devices : List (HardwareDevice Float)) (dev : HardwareDevice Float)
      → nvidia_device fl l i ≡ some dev
      → enumerate_from fl l (suc left) i devices
        ≡ enumerate_from fl l left (i + 1) (devices ++ dev ∷ [])
  unfolding enumerate_from
  one_more left i devices dev d = rw (enumerate_from, d)

  enumerate_from-IsBlind :
      (left i : ℕ) (devices : List (HardwareDevice Float))
      → enumerate_from fl l left i devices ≡ none
      → (k : ℕ) × (k < i + left) × IsBlind k
  unfolding enumerate_from
  enumerate_from-IsBlind zero i devices e = absurd (cc e)
  enumerate_from-IsBlind (suc left) i devices e = elim (nvidia_device-cases i) [
    | inl (_, blind) ↦ (i, omega arith, blind)
    | inr (dev, d, _) ↦
        let e' : enumerate_from fl l left (i + 1) (devices ++ dev ∷ []) ≡ none =
          sym (one_more left i devices dev d) ∙ e in
        let (k, below, blind) = enumerate_from-IsBlind left (i + 1) (devices ++ dev ∷ []) e' in
        (k, omega (arith, below), blind)
  ]

  enumerate_from-none :
      (left i : ℕ) (devices : List (HardwareDevice Float)) (k : ℕ)
      → i ≤ k
      → k < i + left
      → IsBlind k
      → enumerate_from fl l left i devices ≡ none
  unfolding enumerate_from
  enumerate_from-none zero i devices k from below blind = absurd (omega (arith, from, below))
  enumerate_from-none (suc left) i devices k from below blind = elim (nvidia_device-cases i) [
    | inl (d, _) ↦ rw (enumerate_from, d)
    | inr (dev, d, sees) ↦
        let other : k ≢ i = λ e. sees (subst IsBlind e blind) in
        one_more left i devices dev d
        ∙ enumerate_from-none left (i + 1) (devices ++ dev ∷ []) k (omega (arith, from, other))
            (omega (arith, below)) blind
  ]

  -- Looking for the cards of NVIDIA divides by zero exactly if one of the cards that NVAPI lists
  -- has a handle and no thermal sensor.
  pub enumerate_devices-none_iff :
      (devices : List (HardwareDevice Float))
      → (enumerate_devices fl l devices ≡ none) ↔ ((k : ℕ) × (k < l.gpu_cnt) × IsBlind k)
  unfolding enumerate_devices
  enumerate_devices-none_iff devices = (
    (λ e.
        let (k, below, blind) = enumerate_from-IsBlind l.gpu_cnt 0 devices e in
        (k, omega (arith, below), blind)),
    (λ h.
        let (k, below, blind) = h in
        enumerate_from-none l.gpu_cnt 0 devices k (omega arith) (omega (arith, below)) blind),
  )
