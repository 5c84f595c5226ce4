-- ===== src/Gpu/AmdPool/Buses.antt =====
-- System_Info/hardware/GPU/AMD/AMDPool.cpp: each physical card is registered once.
use hardware_monitor.Gpu.AmdPool.{is_seen, AdapterInfo, is_active, select}
use hardware_monitor.Device.{sensor_type_eq}
use hardware_monitor.Prelude.{
  All, Bool, Bool-cases, List, Option, [], arith, false, if◌then◌else◌, inl, inr, list_eq, nat_eq,
  refl, true, ℕ, ◌++◌, ◌+◌, ◌==◌, ◌↔◌, ◌∷◌, ◌≡◌, ◌⊎◌,
}

-- The bus numbers of the adapters that become devices.
abbrev pub buses : List (ℕ × AdapterInfo) → List ℕ
buses [] = []
buses ((_, info) ∷ rest) = info.bus_number ∷ buses rest

abbrev pub NoRepeat : List ℕ → Type 0
NoRepeat [] = Unit {0}
NoRepeat (b ∷ bs) = (is_seen b bs ≡ false) × NoRepeat bs

-- Some adapter from index `i` on is active and on this bus.
abbrev pub HasActive : ℕ → (ℕ → Option Bool) → ℕ → List AdapterInfo → Type 0
HasActive b active i [] = ⊥
HasActive b active i (info ∷ infos) =
    ((is_active (active i) ≡ true) × (info.bus_number ≡ b)) ⊎ HasActive b active (i + 1) infos

seen-append :
    (b c : ℕ) (bs : List ℕ) → is_seen b (bs ++ c ∷ []) ≡ (if is_seen b bs then true else c == b)
seen-append b c [] = ground arith
seen-append b c (x ∷ bs) = ground (arith, seen-append b c bs)

abbrev AreFresh : List ℕ → List ℕ → Type 0
AreFresh old = All (λ b. is_seen b old ≡ false)

shrink : (old : List ℕ) (c : ℕ) (bs : List ℕ) → AreFresh (old ++ c ∷ []) bs → AreFresh old bs
shrink old c [] a = tt
shrink old c (b ∷ bs) (first, rest) =
    (ground (arith, seen-append b c old, first), shrink old c bs rest)

unseen : (old : List ℕ) (c : ℕ) (bs : List ℕ) → AreFresh (old ++ c ∷ []) bs → is_seen c bs ≡ false
unseen old c [] a = refl
unseen old c (b ∷ bs) (first, rest) =
    ground (arith, seen-append b c old, first, unseen old c bs rest)

module _ (active : ℕ → Option Bool) where
  select-AreFresh :
      (i : ℕ) (infos : List AdapterInfo) (old : List ℕ)
      → AreFresh old (buses (select active i infos old))
  unfolding select
  select-AreFresh i [] old = tt
  select-AreFresh i (info ∷ infos) old =
      let skipped = select-AreFresh (i + 1) infos old in
      elim (Bool-cases (is_active (active i))) [
        | inr inactive ↦ rw (inactive, select) skipped
        | inl found ↦ elim (Bool-cases (is_seen info.bus_number old)) [
          | inl known ↦ rw (found, known, select) skipped
          | inr fresh ↦
              rw (found, fresh, select)
                (
                  fresh,
                  shrink old info.bus_number _
                      (select-AreFresh (i + 1) infos (old ++ info.bus_number ∷ [])),
                )
        ]
      ]

  select-NoRepeat :
      (i : ℕ) (infos : List AdapterInfo) (old : List ℕ)
      → NoRepeat (buses (select active i infos old))
  unfolding select
  select-NoRepeat i [] old = tt
  select-NoRepeat i (info ∷ infos) old =
      let skipped = select-NoRepeat (i + 1) infos old in
      let next = old ++ info.bus_number ∷ [] in
      let taken = select-NoRepeat (i + 1) infos next in
      elim (Bool-cases (is_active (active i))) [
        | inr inactive ↦ rw (inactive, select) skipped
        | inl found ↦ elim (Bool-cases (is_seen info.bus_number old)) [
          | inl known ↦ rw (found, known, select) skipped
          | inr fresh ↦
              rw (found, fresh, select)
                (unseen old info.bus_number _ (select-AreFresh (i + 1) infos next), taken)
        ]
      ]

  select_complete :
      (b i : ℕ) (infos : List AdapterInfo) (old : List ℕ)
      → HasActive b active i infos
      → (is_seen b old ≡ true) ⊎ (is_seen b (buses (select active i infos old)) ≡ true)
  unfolding select
  select_complete b i [] old h = absurd h
  select_complete b i (info ∷ infos) old h = ground (
    arith,
    h,
    select_complete b (i + 1) infos old,
    select_complete b (i + 1) infos (old ++ info.bus_number ∷ []),
    seen-append b info.bus_number old,
  )

  select_sound :
      (b i : ℕ) (infos : List AdapterInfo) (old : List ℕ)
      → is_seen b (buses (select active i infos old)) ≡ true
      → HasActive b active i infos
  unfolding select
  select_sound b i [] old h = absurd (cc h)
  select_sound b i (info ∷ infos) old h = ground (
    arith,
    h,
    select_sound b (i + 1) infos old,
    select_sound b (i + 1) infos (old ++ info.bus_number ∷ []),
  )

  -- The adapters that become devices are on different buses, and a bus has one exactly if an active
  -- adapter is on it.
  pub select-NoRepeat_iff :
      (infos : List AdapterInfo)
      → NoRepeat (buses (select active 0 infos []))
        × ((b : ℕ)
            → (is_seen b (buses (select active 0 infos [])) ≡ true) ↔ HasActive b active 0 infos)
  select-NoRepeat_iff infos = (
    select-NoRepeat 0 infos [],
    λ b. (select_sound b 0 infos [], λ h. found b (select_complete b 0 infos [] h)),
  )
    where
      found :
          (b : ℕ)
          → (is_seen b [] ≡ true) ⊎ (is_seen b (buses (select active 0 infos [])) ≡ true)
          → is_seen b (buses (select active 0 infos [])) ≡ true
      found b (inl e) = absurd (cc e)
      found b (inr e) = e
