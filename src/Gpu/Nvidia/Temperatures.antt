-- ===== src/Gpu/Nvidia/Temperatures.antt =====
-- System_Info/hardware/GPU/NVIDIA/NvidiaLiveGPUMetrics.cpp: average and hotspot temperature.
use hardware_monitor.Prelude.{
  Option, ◌≢◌, none, refl, some, subst, sym, ◌≡◌, All, Bool-cases, List, [], arith, gtb, inl, inr,
  length, negsuc, pos, pos_part, quot, suc, ℕ, ℤ, ◌*◌, ◌+ℤ◌, ◌+◌, ◌/◌, ◌<◌, ◌∷◌, ◌≤ℤ◌, ◌≤◌,
}
use hardware_monitor.Gpu.Nvidia.{avg_temp, hotspot_temp, hotspot_from, sum_temps}
use native.Mathlib.Nat.{div-lt_iff_lt-mul}

abbrev IsBound : ℤ → List ℤ → ℤ → Type 0
IsBound start temps bound = (start ≤ℤ bound) × All (λ t. t ≤ℤ bound) temps

hotspot_from-IsBound : (start : ℤ) (temps : List ℤ) → IsBound start temps (hotspot_from start temps)
unfolding hotspot_from
hotspot_from-IsBound start [] = (omega arith, tt)
hotspot_from-IsBound start (t ∷ temps) = elim (Bool-cases (gtb t start)) [
  | inl above ↦
      let (h, rest) = hotspot_from-IsBound t temps in
      let e : hotspot_from t temps ≡ hotspot_from start (t ∷ temps) = rw above in
      subst (IsBound start (t ∷ temps)) e (ground (arith, h, above), (h, rest))
  | inr below ↦
      let (h, rest) = hotspot_from-IsBound start temps in
      let e : hotspot_from start temps ≡ hotspot_from start (t ∷ temps) = rw below in
      subst (IsBound start (t ∷ temps)) e (h, (ground (arith, h, below), rest))
]

pos_part-add : (a b : ℤ) → pos_part (a +ℤ b) ≤ pos_part a + pos_part b
unfolding ◌+ℤ◌
pos_part-add a b = ground arith

sum_from-le :
    (h : ℕ) (sum : ℤ) (temps : List ℤ)
    → All (λ t. pos_part t ≤ h) temps
    → pos_part (sum_temps sum temps) ≤ pos_part sum + h * length temps
unfolding sum_temps
sum_from-le h sum [] a = omega arith
sum_from-le h sum (t ∷ temps) (first, rest) =
    let ih = sum_from-le h (sum +ℤ t) temps rest in
    let step = pos_part-add sum t in grind (arith, ih, step, first)

sum_temps-le :
    (h : ℕ) (temps : List ℤ)
    → All (λ t. pos_part t ≤ h) temps
    → pos_part (sum_temps (pos 0) temps) ≤ h * length temps
sum_temps-le h temps a = omega (arith, sum_from-le h (pos 0) temps a)

quot-le : (h n : ℕ) (a : ℤ) → 0 < n → pos_part a ≤ h * n → quot a n ≤ℤ pos h
quot-le h n (pos a) filled le =
    let lt : a / n < suc h = (div-lt_iff_lt-mul filled).1 (grind (arith, le, filled)) in
    omega (arith, lt)
quot-le h n (negsuc a) filled le = ground arith

to_pos : (h : ℤ) → pos 0 ≤ℤ h → (n : ℕ) × (h ≡ pos n)
to_pos (pos n) le = (n, refl)
to_pos (negsuc n) le = absurd (ground arith)

below_pos : (n : ℕ) (temps : List ℤ) → All (λ t. t ≤ℤ pos n) temps → All (λ t. pos_part t ≤ n) temps
below_pos n [] a = tt
below_pos n (pos t ∷ temps) (first, rest) = (omega (arith, first), below_pos n temps rest)
below_pos n (negsuc t ∷ temps) (first, rest) = (omega arith, below_pos n temps rest)

average-le :
    (t : ℤ) (temps : List ℤ) (h : ℤ)
    → IsBound (pos 0) (t ∷ temps) h
    → quot (sum_temps (pos 0) (t ∷ temps)) (length (t ∷ temps)) ≤ℤ h
average-le t temps h (positive, above) =
    let ts = t ∷ temps in
    let (n, q) = to_pos h positive in
    let below = below_pos n ts (subst (λ x. All (λ u. u ≤ℤ x) ts) q above) in
    subst (λ x. quot (sum_temps (pos 0) ts) (length ts) ≤ℤ x) (sym q)
      (quot-le n (length ts) (sum_temps (pos 0) ts) (omega arith) (sum_temps-le n ts below))

-- No average of no sensors, or one that is at most the hotspot temperature.
abbrev pub IsAverage : List ℤ → Option ℤ → Type 0
IsAverage temps none = temps ≡ []
IsAverage temps (some avg) = (temps ≢ []) × (avg ≤ℤ hotspot_temp temps)

-- The hotspot temperature is not negative and at least every sensor's temperature; there is no
-- average, since the code divides by zero, exactly if the card has counted no sensor, and otherwise
-- the average is at most the hotspot temperature.
pub hotspot_temp_lem :
    (temps : List ℤ)
    → (pos 0 ≤ℤ hotspot_temp temps)
      × All (λ t. t ≤ℤ hotspot_temp temps) temps
      × IsAverage temps (avg_temp temps)
unfolding hotspot_temp avg_temp
hotspot_temp_lem [] = (omega arith, tt, refl)
hotspot_temp_lem (t ∷ temps) =
    let bound = hotspot_from-IsBound (pos 0) (t ∷ temps) in
    (
      bound.0,
      bound.1,
      ((λ e. absurd (cc e)), average-le t temps (hotspot_from (pos 0) (t ∷ temps)) bound),
    )
