-- ===== src/Driver/Protocol.antt =====
-- System_Info/driver_client/DriverClient.cpp: how `runDriver` ends.
use hardware_monitor.Driver.{
  is_valid, DriverClient, IoError, Outcome, Pass, Response, again, failure, is_too_small, looping,
  other_error, run_driver, CpuData, Machine, data_size, ends, header_size, pass, returned, run_loop,
  success,
}
use hardware_monitor.Prelude.{
  false, zero-add, add-zero, Bool-cases, arith, inl, inr, ltb, refl, sym, true, ◌∙◌, Bool, List, [],
  suc, take, zero, ℕ, ◌*◌, ◌+◌, ◌≡◌, ◌≤◌, ◌⊎◌,
}

-- A success of DeviceIoControl whose announced entries fit the bytes written.
abbrev pub Delivers : Machine → List CpuData → Type 0
Delivers m entries =
    (n size bytes_ret entry_count : ℕ) × (all : List CpuData) × (m.control n size
      ≡ success bytes_ret entry_count all)
    × (entries ≡ take entry_count all)
    × (header_size + entry_count * data_size ≤ bytes_ret)

module _ (m : Machine) where
  -- Either nothing is returned and the stored data stays, or delivered entries are both.
  abbrev Sound : List CpuData → List CpuData → List CpuData → Type 0
  Sound old entries kept = ((entries ≡ []) × (kept ≡ old)) ⊎ (Delivers m entries × (kept ≡ entries))

  pass-Sound :
      (old : List CpuData) (n size : ℕ) (first : Bool) (entries kept : List CpuData)
      → pass m old n size first ≡ ends entries kept
      → Sound old entries kept
  unfolding pass
  pass-Sound old n size first entries kept h = by_response (m.control n size) refl
    where
      by_response : (r : Response) → m.control n size ≡ r → Sound old entries kept
      by_response (failure err required_size) e = inl (ground (arith, e, h))
      by_response (success bytes_ret entry_count all) e =
          elim (Bool-cases (ltb bytes_ret (header_size + entry_count * data_size))) [
            | inl short ↦ inl (ground (arith, e, h))
            | inr enough ↦ inr (
              (n, size, bytes_ret, entry_count, all, e, ground (arith, e, h), ground arith),
              ground (arith, e, h),
            )
          ]

  run_loop-Sound :
      (old : List CpuData) (fuel n size : ℕ) (first : Bool) (entries kept : List CpuData)
      → run_loop m old fuel n size first ≡ returned entries kept
      → Sound old entries kept
  unfolding run_loop
  run_loop-Sound old zero n size first entries kept h = cc
  run_loop-Sound old (suc fuel) n size first entries kept h =
      by_pass (pass m old n size first) refl
        (λ size' first'. run_loop-Sound old fuel (suc n) size' first' entries kept)
    where
      by_pass :
          (p : Pass)
          → pass m old n size first ≡ p
          → ((size' : ℕ) (first' : Bool)
              → run_loop m old fuel (suc n) size' first' ≡ returned entries kept
              → Sound old entries kept)
          → Sound old entries kept
      by_pass (ends xs ys) e ih =
          let o : returned xs ys ≡ returned entries kept = rw (← h) (rw (e, run_loop)) in
          pass-Sound old n size first entries kept (e ∙ cc o)
      by_pass (again size' first') e ih = ih size' first' (sym (rw (← h) (rw (e, run_loop))))

  -- What `runDriver` returns: nothing, with the stored data as it was; or the entries of a
  -- successful call that the written bytes hold in full, which are also the new stored data.
  pub run_driver_sound :
      (fuel : ℕ) (c : DriverClient) (entries kept : List CpuData)
      → run_driver fuel m c ≡ returned entries kept
      → ((entries ≡ []) × (kept ≡ c.ret_data)) ⊎ (Delivers m entries × (kept ≡ entries))
  unfolding run_driver
  run_driver_sound fuel c entries kept h =
      ground (arith, run_loop-Sound c.ret_data fuel 0 header_size true entries kept)

  -- A pass whose call succeeds ends the loop.
  pub data Returns : Outcome → Type 0 where
    returns : (entries kept : List CpuData) → Returns (returned entries kept)

  one-add : (k : ℕ) → 1 + k ≡ suc k
  one-add k = omega arith

  suc-add_comm : (n k : ℕ) → suc n + k ≡ n + suc k
  suc-add_comm n k = omega arith

  run_loop-Returns :
      (old : List CpuData) (k n size : ℕ) (first : Bool)
      → ((s : ℕ) → (b c : ℕ) × (xs : List CpuData) × (m.control (n + k) s ≡ success b c xs))
      → Returns (run_loop m old (suc k) n size first)
  unfolding run_loop
  run_loop-Returns old zero n size first answers =
      let (b, c, xs, e) = answers size in
      let e' : m.control n size ≡ success b c xs = rw (← add-zero n) e in success_returns b c xs e'
    where
      success_returns :
          (b c : ℕ) (xs : List CpuData)
          → m.control n size ≡ success b c xs
          → Returns (run_loop m old 1 n size first)
      success_returns b c xs e = elim (Bool-cases (ltb b (header_size + c * data_size))) [
        | inl short ↦ rw (run_loop, e, pass, short) (returns [] old)
        | inr enough ↦ rw (run_loop, e, pass, enough) (returns (take c xs) (take c xs))
      ]
  run_loop-Returns old (suc k) n size first answers = by_pass (pass m old n size first) refl (λ s f.
      run_loop-Returns old k (suc n) s f
        (λ t. let (b, c, xs, e) = answers t in (b, c, xs, rw (suc-add_comm n k) e)))
    where
      by_pass :
          (p : Pass)
          → pass m old n size first ≡ p
          → ((s : ℕ) (f : Bool) → Returns (run_loop m old (suc k) (suc n) s f))
          → Returns (run_loop m old (suc (suc k)) n size first)
      by_pass (ends entries kept) e ih = rw (e, run_loop) (returns entries kept)
      by_pass (again s f) e ih = rw (e, run_loop) (ih s f)

  -- If the driver succeeds at some call, whatever the buffer size, then `runDriver` returns by then.
  pub run_driver-Returns :
      (k : ℕ) (c : DriverClient)
      → ((s : ℕ) → (b n : ℕ) × (xs : List CpuData) × (m.control k s ≡ success b n xs))
      → Returns (run_driver (suc k) m c)
  unfolding run_driver
  run_driver-Returns k c answers = elim (Bool-cases (is_valid c)) [
    | inr closed ↦ rw closed (returns [] c.ret_data)
    | inl opened ↦ elim (Bool-cases (m.allocates 0)) [
      | inr failed ↦ rw (opened, failed) (returns [] c.ret_data)
      | inl allocated ↦
          rw (opened, allocated)
            (run_loop-Returns c.ret_data k 0 header_size true (λ s. rw (zero-add k) (answers s)))
    ]
  ]

  run_loop_hangs :
      (old : List CpuData) (fuel n size : ℕ)
      → ((k s : ℕ) → (r : ℕ) × (m.control (n + k) s ≡ failure other_error r))
      → run_loop m old fuel n size false ≡ looping
  unfolding run_loop
  run_loop_hangs old zero n size fails = refl
  run_loop_hangs old (suc fuel) n size fails =
      let (r, e) = fails 0 size in
      let e' : m.control n size ≡ failure other_error r = rw (← add-zero n) e in
      rw (run_loop, pass, e')
        (run_loop_hangs old fuel (suc n) size
          (λ k s. let (q, d) = fails (suc k) s in (q, rw (suc-add_comm n k) d)))

  -- Where the driver first asks for a larger buffer and from then on fails for another reason,
  -- `runDriver` never returns.
  pub run_driver_hangs :
      (fuel : ℕ) (c : DriverClient) (err : IoError) (required : ℕ)
      → c.h_device ≡ true
      → m.allocates 0 ≡ true
      → m.allocates 1 ≡ true
      → is_too_small err ≡ true
      → m.control 0 header_size ≡ failure err required
      → ((n s : ℕ) → (r : ℕ) × (m.control (suc n) s ≡ failure other_error r))
      → run_driver fuel m c ≡ looping
  unfolding run_driver
  run_driver_hangs fuel c err required valid first second small asks fails =
      rw (valid, first) (hangs fuel)
    where
      hangs : (f : ℕ) → run_loop m c.ret_data f 0 header_size true ≡ looping
      hangs zero = refl
      hangs (suc f) =
          rw (run_loop, pass, asks, small, second)
            (run_loop_hangs c.ret_data f 1 required
              (λ k s. let (r, e) = fails k s in (r, rw (one-add k) e)))
