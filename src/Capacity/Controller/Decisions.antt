-- ===== src/Capacity/Controller/Decisions.antt =====
-- capacity_controller.py: when a request runs, waits or is turned away.
use whooshd.Base.{
  ◌↔◌, Bool, ◌&&◌, not, ltb, leb, ltb, inr, inl, Option, Bool-cases, ◌⊎◌, ℕ, ◌≡◌, true, false,
  arith, ◌≤◌, ◌<◌, ◌+◌,
}
use whooshd.Capacity.Controller.{
  queue, critical, evidence, context_of, evaluate, is_high, effective_active_limit, CapacityProfile,
  reject, Host, CapacityContext, CapacityEvaluation, run, decide, overflows, lane_has_room,
}
use whooshd.Capacity.Profile.{high}
use whooshd.Config.{Config}

-- A slot is free for the request, globally and in its lane.
abbrev pub HasRoom : CapacityContext → ℕ → Type 0
HasRoom ctx limit =
    (ctx.active_jobs < limit) × (lane_has_room ctx.lane_max_concurrent ctx.lane_active_jobs ≡ true)

-- High memory pressure holds back the last slot below the limit.
abbrev pub IsHeldBack : Config → CapacityContext → ℕ → Type 0
IsHeldBack cfg ctx limit =
    (cfg.capacity_memory_pressure_deny ≡ true)
    × (ctx.memory_pressure ≡ high)
    × (limit ≤ ctx.active_jobs + 1)

abbrev pub CanHold : CapacityContext → CapacityEvaluation → Type 0
CanHold ctx e = (overflows e.context ≡ false) × (ctx.runtime_ready ≡ true)

module _ (cfg : Config) (ctx : CapacityContext) (e : CapacityEvaluation) where
  decide-run :
      (decide cfg ctx e).action ≡ run
      → CanHold ctx e
        × HasRoom ctx e.effective_active_limit
        × (¬ IsHeldBack cfg ctx e.effective_active_limit)
  unfolding decide
  decide-run h = ((ground arith, ground arith), (ground arith, ground arith), λ b. ground arith)

  held_test :
      (cfg.capacity_memory_pressure_deny
          && (is_high ctx.memory_pressure && leb e.effective_active_limit (ctx.active_jobs + 1)))
        ≡ true
      → IsHeldBack cfg ctx e.effective_active_limit
  held_test h = (ground arith, ground arith, ground arith)

  run-decide :
      CanHold ctx e
      → HasRoom ctx e.effective_active_limit
      → (¬ IsHeldBack cfg ctx e.effective_active_limit)
      → (decide cfg ctx e).action ≡ run
  unfolding decide
  run-decide c r n =
      elim (Bool-cases (
        cfg.capacity_memory_pressure_deny
        && (is_high ctx.memory_pressure && leb e.effective_active_limit (ctx.active_jobs + 1)))) [
          | inl t ↦ absurd (n (held_test t))
          | inr f ↦ ground arith
        ]

  decide-reject :
      (decide cfg ctx e).action ≡ reject
      → (overflows e.context ≡ true)
        ⊎ ((ctx.runtime_ready ≡ false)
            ⊎ ((¬ HasRoom ctx e.effective_active_limit) × (ctx.max_queue_depth ≤ ctx.queue_depth)))
  unfolding decide
  decide-reject h = elim (Bool-cases (overflows e.context)) [
    | inl t ↦ inl t
    | inr f ↦ elim (Bool-cases ctx.runtime_ready) [
      | inr n ↦ inr (inl n)
      | inl r ↦ inr (inr (λ b. ground arith, ground arith))
    ]
  ]

  reject-decide :
      ((overflows e.context ≡ true)
        ⊎ ((ctx.runtime_ready ≡ false)
            ⊎ ((¬ HasRoom ctx e.effective_active_limit) × (ctx.max_queue_depth ≤ ctx.queue_depth))))
      → (decide cfg ctx e).action ≡ reject
  unfolding decide
  reject-decide (inl t) = ground arith
  reject-decide (inr (inl n)) = ground arith
  reject-decide (inr (inr (n, full))) =
      elim (Bool-cases (
        ltb ctx.active_jobs e.effective_active_limit
        && lane_has_room ctx.lane_max_concurrent ctx.lane_active_jobs)) [
          | inl t ↦ absurd (n (ground arith, ground arith))
          | inr f ↦ ground arith
        ]

module _ (cfg : Config) (ctx : CapacityContext) (e : CapacityEvaluation) where
  decide-queue :
      (decide cfg ctx e).action ≡ queue
      → (overflows e.context ≡ false)
        × (((¬ HasRoom ctx e.effective_active_limit) × (ctx.queue_depth < ctx.max_queue_depth))
            ⊎ IsHeldBack cfg ctx e.effective_active_limit)
  unfolding decide
  decide-queue h =
      elim (Bool-cases (
        ltb ctx.active_jobs e.effective_active_limit
        && lane_has_room ctx.lane_max_concurrent ctx.lane_active_jobs)) [
          | inl t ↦ (ground arith, inr (held_test cfg ctx e (ground arith)))
          | inr f ↦ (ground arith, inl (λ (room, lane). ground arith, ground arith))
        ]

abbrev pub fits_context : CapacityContext → Bool
fits_context ctx = not (overflows (context_of ctx ctx.context_budgets))

module _ (cfg : Config) (host : Host) (profile : Option CapacityProfile)
    (ctx : CapacityContext) where
  -- A request runs exactly when it fits its model's budgets, the runtime is ready, its lane and
  -- the broker each have a free slot, and high memory pressure does not hold back the last one;
  -- further free slots are given out under high pressure too.
  pub evaluate_run_iff : ((evaluate cfg host profile ctx).action ≡ run) ↔ (
      (fits_context ctx ≡ true)
      × (ctx.runtime_ready ≡ true)
      × HasRoom ctx (effective_active_limit cfg host profile ctx.memory_pressure)
      × (¬ IsHeldBack cfg ctx (effective_active_limit cfg host profile ctx.memory_pressure)))
  unfolding evaluate evidence
  evaluate_run_iff =
      let e = evidence cfg host profile ctx in
      (
        λ h. let (c, r, n) = decide-run cfg ctx e h in (ground arith, c.1, r, n),
        λ h. run-decide cfg ctx e (ground arith, h.1) h.2 h.3,
      )

  -- A request is rejected exactly when it does not fit its model's budgets, the runtime is not
  -- ready, or no slot is free for it and the queue is full. Every other request that does not run
  -- is queued.
  pub evaluate_reject_iff : ((evaluate cfg host profile ctx).action ≡ reject) ↔ (
      (fits_context ctx ≡ false)
      ⊎ ((ctx.runtime_ready ≡ false)
          ⊎ ((¬ HasRoom ctx (effective_active_limit cfg host profile ctx.memory_pressure))
              × (ctx.max_queue_depth ≤ ctx.queue_depth))))
  unfolding evaluate evidence
  evaluate_reject_iff =
      let e = evidence cfg host profile ctx in
      (
        λ h. elim (decide-reject cfg ctx e h) [ inl t ↦ inl (ground arith) | inr rest ↦ inr rest ],
        λ h. elim h [
          | inl t ↦ reject-decide cfg ctx e (inl (ground arith))
          | inr rest ↦ reject-decide cfg ctx e (inr rest)
        ],
      )

  -- A request is queued only if it fits its model's budgets, and either no slot is free for it and
  -- the queue is not full, or high memory pressure holds the slot back.
  pub evaluate_queue :
      (evaluate cfg host profile ctx).action ≡ queue
      → (fits_context ctx ≡ true)
        × (((¬ HasRoom ctx (effective_active_limit cfg host profile ctx.memory_pressure))
              × (ctx.queue_depth < ctx.max_queue_depth))
            ⊎ IsHeldBack cfg ctx (effective_active_limit cfg host profile ctx.memory_pressure))
  unfolding evaluate evidence
  evaluate_queue h =
      let (fit, why) = decide-queue cfg ctx (evidence cfg host profile ctx) h in (ground arith, why)

  -- The queue's bound is not kept under high memory pressure: a ready request that fits its budgets
  -- and finds the last slot held back is queued, however full the queue already is.
  pub evaluate_held_back :
      fits_context ctx ≡ true
      → ctx.runtime_ready ≡ true
      → HasRoom ctx (effective_active_limit cfg host profile ctx.memory_pressure)
      → IsHeldBack cfg ctx (effective_active_limit cfg host profile ctx.memory_pressure)
      → (depth : ℕ)
      → (evaluate cfg host profile (record ctx { queue_depth = depth })).action ≡ queue
  unfolding evaluate evidence decide
  evaluate_held_back f r room held depth = ground arith

  -- Critical pressure holds nothing back: with a free slot, a request that fits runs.
  pub evaluate_critical :
      fits_context ctx ≡ true
      → ctx.runtime_ready ≡ true
      → ctx.memory_pressure ≡ critical
      → HasRoom ctx (effective_active_limit cfg host profile critical)
      → (evaluate cfg host profile ctx).action ≡ run
  unfolding evaluate evidence decide
  evaluate_critical f r c room = ground arith
