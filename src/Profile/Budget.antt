-- ===== src/Profile/Budget.antt =====
-- The memory budget bounds the buffers that a run holds.
use bigcp.Base.{
  ℕ, ◌+◌, ◌*◌, ◌≤◌, ◌≡◌, sym, ap, subst, ◌∙◌, max, inl, inr, ◌⊎◌, true, false, Option, some,
  Outcome, ok, bind-ok, arith, Bool-cases,
}
use bigcp.Counters.{u64_max}
use bigcp.Profile.Data.{
  DeviceClass, TuneOptions, DeviceInfo, SideProfile, CopyProfile, TransportProfile, Refusal,
  default_large_threshold,
}
use bigcp.Profile.Sides.{unwrap_or, validate_tuning, side_profile, with_threads}
use bigcp.Profile.Choice.{
  Topology, cap_chunk, per_worker, worker_budget, cap_workers, choose_transport, check_threshold,
  check_chunk, coordinator_buffers, topology, led_workers, composed_chunk, profile_with,
  with_budget, with_chunk, with_capped, with_threshold, compose, select_copy_profile,
}
use bigcp.Profile.Steps.{
  cap_chunk-le, worker_budget-fits, choose_transport-workers, choose_transport-phases,
}

-- The buffers of the profile that was chosen under a budget of `m` bytes: one staging buffer and one
-- worker if the disk is shared and rotational, else the coordinator's chunks and what each worker
-- holds.
abbrev pub IsWithinBudget : ℕ → ℕ → Topology → CopyProfile → Type 0
IsWithinBudget m threshold topology profile =
    ((topology.same_spindle ≡ true)
      × (profile.workers ≡ 1)
      × (max profile.chunk_bytes threshold ≤ profile.transport.burst_bytes)
      × (profile.transport.burst_bytes ≤ m))
    ⊎ ((topology.same_spindle ≡ false)
        × (profile.chunk_bytes * coordinator_buffers topology
              + profile.workers * per_worker topology.redirector threshold profile.chunk_bytes
            ≤ m))

ok_injective : {a b : CopyProfile} → ◌≡◌ {A = Outcome Refusal CopyProfile} (ok a) (ok b) → a ≡ b
ok_injective e = cc

check_threshold-ok : (n threshold : ℕ) → check_threshold n ≡ ok threshold → threshold ≡ n
check_threshold-ok n threshold h = ground arith

check_chunk-ok : (n chunk : ℕ) → check_chunk n ≡ ok chunk → chunk ≡ n
check_chunk-ok n chunk h = ground arith

module _ (tune : TuneOptions) (source_info destination_info : DeviceInfo)
    (source destination : SideProfile) (m : ℕ) (profile : CopyProfile)
    (b : tune.memory_bytes ≡ some m) (u : m ≤ u64_max) where
  abbrev parts : Topology
  parts = topology tune source_info destination_info source destination

  profile_with-IsWithinBudget :
      (threshold chunk : ℕ) (budget : Option ℕ) (chosen : TransportProfile × ℕ)
      → (parts.same_spindle ≡ false → chunk * coordinator_buffers parts ≤ m)
      → worker_budget (some m) parts threshold (coordinator_buffers parts) chunk ≡ ok budget
      → choose_transport tune parts threshold chunk
          (cap_workers budget (led_workers tune source_info destination_info source destination))
        ≡ ok chosen
      → profile_with tune source_info destination_info source destination chunk budget chosen
        ≡ ok profile
      → IsWithinBudget m threshold parts profile
  profile_with-IsWithinBudget threshold chunk budget (transport, workers) c w x e =
      let same = ok_injective e in
      let chunk_is : chunk ≡ profile.chunk_bytes = ap (λ (p : CopyProfile). p.chunk_bytes) same in
      let workers_is : workers ≡ profile.workers = ap (λ (p : CopyProfile). p.workers) same in
      let transport_is : transport ≡ profile.transport =
        ap (λ (p : CopyProfile). p.transport) same in
      elim (Bool-cases parts.same_spindle) [
        | inl t ↦
            let r =
              choose_transport-phases tune parts m threshold chunk _ (transport, workers) t b x in
            inl (t, sym workers_is ∙ r.0, rw⁻¹ (chunk_is, transport_is) r.1, rw⁻¹ transport_is r.2)
        | inr f ↦
            let r =
              choose_transport-workers tune parts threshold chunk _ (transport, workers) f x in
            let n =
              worker_budget-fits m threshold (coordinator_buffers parts) chunk parts budget _ f
                (c f) u w in
            inr (f, rw⁻¹ (chunk_is, workers_is) (rw r n))
      ]

  small :
      (threshold capped chunk : ℕ)
      → cap_chunk tune.memory_bytes parts.same_spindle threshold
          (coordinator_buffers parts)
          (composed_chunk tune source_info destination_info source destination)
        ≡ ok capped
      → check_chunk capped ≡ ok chunk
      → parts.same_spindle ≡ false
      → chunk * coordinator_buffers parts ≤ m
  small threshold capped chunk c k f =
      let known =
        subst
          (λ o.
            cap_chunk o parts.same_spindle threshold (coordinator_buffers parts)
              (composed_chunk tune source_info destination_info source destination)
            ≡ ok capped)
          b c in
      let apart =
        subst
          (λ t.
            cap_chunk (some m) t threshold (coordinator_buffers parts)
              (composed_chunk tune source_info destination_info source destination)
            ≡ ok capped)
          f known in
      rw (check_chunk-ok capped chunk k)
        (cap_chunk-le m threshold (coordinator_buffers parts) _ capped apart)

  -- Everything behind the threshold.
  with_threshold-IsWithinBudget :
      (threshold : ℕ)
      → with_threshold tune source_info destination_info source destination threshold ≡ ok profile
      → IsWithinBudget m threshold parts profile
  with_threshold-IsWithinBudget threshold h =
      let (capped, c, h2) =
        bind-ok
          (cap_chunk tune.memory_bytes parts.same_spindle threshold (coordinator_buffers parts)
            wanted)
          (with_capped tune source_info destination_info source destination threshold) profile h in
      let (chunk, k, h3) =
        bind-ok _ (with_chunk tune source_info destination_info source destination threshold)
          profile h2 in
      let (budget, w, h4) =
        bind-ok _ (with_budget tune source_info destination_info source destination threshold chunk)
          profile h3 in
      let (chosen, x, h5) =
        bind-ok _ (profile_with tune source_info destination_info source destination chunk budget)
          profile h4 in
      profile_with-IsWithinBudget threshold chunk budget chosen (small threshold capped chunk c k)
        (subst (λ o. worker_budget o parts threshold (coordinator_buffers parts) chunk ≡ ok budget)
          b w)
        x h5
    where
      wanted : ℕ
      wanted = composed_chunk tune source_info destination_info source destination

-- A profile that is chosen under a memory budget below 2 ^ 64 bytes keeps to it: on a shared
-- rotational disk one worker and a staging buffer inside the budget that holds a chunk and a whole
-- small file, otherwise the chunks of the coordinator together with what every worker holds.
pub select-IsWithinBudget :
    (cores : ℕ) (source_info destination_info : DeviceInfo)
    (source_override destination_override : DeviceClass) (tune : TuneOptions) (m : ℕ)
    (profile : CopyProfile)
    → tune.memory_bytes ≡ some m
    → m ≤ u64_max
    → select_copy_profile cores source_info destination_info source_override destination_override
        tune
      ≡ ok profile
    → IsWithinBudget m
        (unwrap_or default_large_threshold tune.large_threshold)
        (topology tune source_info destination_info
          (with_threads tune.threads (side_profile source_info source_override cores true))
          (with_threads tune.threads
            (side_profile destination_info destination_override cores false)))
        profile
unfolding select_copy_profile compose
select-IsWithinBudget cores source_info destination_info source_override destination_override tune m
      profile b u h =
    let source = with_threads tune.threads (side_profile source_info source_override cores true) in
    let destination =
      with_threads tune.threads (side_profile destination_info destination_override cores false) in
    let (_, _, h1) =
      bind-ok (validate_tuning tune)
        (λ _. compose tune source_info destination_info source destination) profile h in
    let (threshold, t, h2) =
      bind-ok (check_threshold (unwrap_or default_large_threshold tune.large_threshold))
        (with_threshold tune source_info destination_info source destination) profile h1 in
    subst
      (λ n.
        IsWithinBudget m n (topology tune source_info destination_info source destination) profile)
      (check_threshold-ok _ threshold t)
      (with_threshold-IsWithinBudget tune source_info destination_info source destination m profile
        b u threshold h2)
