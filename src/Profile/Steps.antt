-- ===== src/Profile/Steps.antt =====
-- What the single steps of the choice leave of the memory budget.
use native.Mathlib.Nat.{div-mul-le_self, lt-div-mul-add, mul-le-mul_right, eq-zero-or-pos}
use bigcp.Base.{
  ℕ, ◌+◌, ◌-◌, ◌*◌, ◌/◌, ◌≤◌, ◌<◌, ◌≡◌, subst, min, max, inl, inr, true, false, Option, some, ok,
  arith, ltb, Bool-cases,
}
use bigcp.Counters.{u64_max}
use bigcp.Profile.Data.{TuneOptions, TransportProfile}
use bigcp.Profile.Choice.{
  Topology, cap_chunk, saturating_mul, per_worker, worker_budget, cap_workers, choose_transport,
}

pub cap_chunk-le :
    (m threshold buffers wanted chunk : ℕ)
    → cap_chunk (some m) false threshold buffers wanted ≡ ok chunk
    → chunk * buffers ≤ m
unfolding cap_chunk
cap_chunk-le m threshold buffers wanted chunk h =
    let under : chunk ≤ (m - threshold) / buffers = ground arith in
    omega (arith, mul-le-mul_right buffers under, div-mul-le_self (m - threshold) buffers)

-- The clamped quotient of what is left: so many workers fit.
fits_left : (left worker : ℕ) → worker ≤ left → max 1 (min (left / worker) 256) * worker ≤ left
fits_left left worker h = elim (eq-zero-or-pos worker) [
  | inl z ↦ rw z (omega arith)
  | inr p ↦ elim (eq-zero-or-pos (left / worker)) [
    | inl q ↦
        let short : left < 0 * worker + worker =
          subst (λ k. left < k * worker + worker) q (lt-div-mul-add p) in
        absurd (omega arith)
    | inr q ↦
        let under : max 1 (min (left / worker) 256) ≤ left / worker = omega arith in
        omega (arith, mul-le-mul_right worker under, div-mul-le_self left worker)
  ]
]

pub worker_budget-fits :
    (m threshold buffers chunk : ℕ) (t : Topology) (budget : Option ℕ) (led : ℕ)
    → t.same_spindle ≡ false
    → chunk * buffers ≤ m
    → m ≤ u64_max
    → worker_budget (some m) t threshold buffers chunk ≡ ok budget
    → chunk * buffers + cap_workers budget led * per_worker t.redirector threshold chunk ≤ m
unfolding worker_budget
worker_budget-fits m threshold buffers chunk t budget led s c u h =
    elim (Bool-cases (ltb left worker)) [
      | inl l ↦ absurd (ground arith)
      | inr l ↦
          let given : budget ≡ some (max 1 (min (left / worker) 256)) = ground arith in
          let workers : ℕ = cap_workers budget led in
          let under : cap_workers budget led ≤ max 1 (min (left / worker) 256) =
            rw given (omega arith) in
          let enough : worker ≤ left = ground arith in
          omega (arith, mul-le-mul_right worker under, fits_left left worker enough)
    ]
  where
    worker : ℕ
    worker = per_worker t.redirector threshold chunk

    left : ℕ
    left = m - saturating_mul chunk buffers

pub choose_transport-workers :
    (tune : TuneOptions) (t : Topology) (threshold chunk workers : ℕ)
    (chosen : TransportProfile × ℕ)
    → t.same_spindle ≡ false
    → choose_transport tune t threshold chunk workers ≡ ok chosen
    → chosen.1 ≡ workers
unfolding choose_transport
choose_transport-workers tune t threshold chunk workers chosen s h = ground arith

pub choose_transport-phases :
    (tune : TuneOptions) (t : Topology) (m threshold chunk workers : ℕ)
    (chosen : TransportProfile × ℕ)
    → t.same_spindle ≡ true
    → tune.memory_bytes ≡ some m
    → choose_transport tune t threshold chunk workers ≡ ok chosen
    → (chosen.1 ≡ 1) × (max chunk threshold ≤ chosen.0.burst_bytes) × (chosen.0.burst_bytes ≤ m)
unfolding choose_transport
choose_transport-phases tune t m threshold chunk workers chosen s b h = ground arith
