-- ===== src/Capacity/Controller/Limit.antt =====
-- capacity_controller.py: the effective active limit.
use whooshd.Base.{
  subst, ℕ, refl, inl, inr, ◌≡◌, Option, none, some, arith, ap, ◌≤◌, ◌<◌, max, min, same→eq,
  Option-cases,
}
use whooshd.Capacity.Controller.{
  Host, host_status, profile_rejection, eligible_profile, ceiling, pressed, effective_active_limit,
  CapacityContext, evidence, decide, evaluate, calibrate, limit_in,
}
use whooshd.Capacity.Profile.{MemoryPressureClass, normal, CapacityProfile}
use whooshd.Config.{Config, CapacityMode, fixed, adaptive}

pressed_bounds :
    (cfg : Config) (pressure : MemoryPressureClass) (n : ℕ)
    → (1 ≤ pressed cfg pressure n) × (pressed cfg pressure n ≤ max n 1)
unfolding pressed
pressed_bounds cfg pressure n = ground arith

calibrate_bounds :
    (cfg : Config) (pressure : MemoryPressureClass) (p : Option CapacityProfile)
    → (1 ≤ calibrate cfg pressure p) × (calibrate cfg pressure p ≤ ceiling cfg)
calibrate_bounds cfg pressure none = omega arith
calibrate_bounds cfg pressure (some p) =
    let b = pressed_bounds cfg pressure (min (ceiling cfg) p.recommended_active_concurrency) in
    (b.0, omega (arith, b.1))

limit_in_bounds :
    (m : CapacityMode) (cfg : Config) (pressure : MemoryPressureClass) (p : Option CapacityProfile)
    → (1 ≤ limit_in m cfg pressure p) × (limit_in m cfg pressure p ≤ ceiling cfg)
limit_in_bounds fixed cfg pressure p = omega arith
limit_in_bounds adaptive cfg pressure p = calibrate_bounds cfg pressure p

-- In either mode, with any profile and under any memory pressure, at least one request may run,
-- and never more than the operator's ceiling.
pub effective_active_limit_bounds :
    (cfg : Config) (host : Host) (profile : Option CapacityProfile) (pressure : MemoryPressureClass)
    → (1 ≤ effective_active_limit cfg host profile pressure)
      × (effective_active_limit cfg host profile pressure ≤ ceiling cfg)
unfolding effective_active_limit
effective_active_limit_bounds cfg host profile pressure =
    limit_in_bounds cfg.capacity_mode cfg pressure (eligible_profile cfg host profile)

pressed-le :
    (cfg : Config) (pressure : MemoryPressureClass) (n : ℕ)
    → pressed cfg pressure n ≤ pressed cfg normal n
unfolding pressed
pressed-le cfg pressure n = ground arith

-- Memory pressure never raises the limit above what it is under normal pressure.
pub effective_active_limit-pressure :
    (cfg : Config) (host : Host) (profile : Option CapacityProfile) (pressure : MemoryPressureClass)
    → effective_active_limit cfg host profile pressure
      ≤ effective_active_limit cfg host profile normal
unfolding effective_active_limit
effective_active_limit-pressure cfg host profile pressure =
    by_mode cfg.capacity_mode (eligible_profile cfg host profile)
  where
    by_mode :
        (m : CapacityMode) (p : Option CapacityProfile)
        → limit_in m cfg pressure p ≤ limit_in m cfg normal p
    by_mode fixed p = omega arith
    by_mode adaptive none = omega arith
    by_mode adaptive (some p) = pressed-le cfg pressure _

-- The profile was recorded for the configured model, runtime and machine.
pub record IsOfTarget (cfg : Config) (p : CapacityProfile) : Type 0 where
  pub model : cfg.capacity_model_id ≡ some p.model_id
  pub runtime : cfg.capacity_runtime ≡ some p.runtime
  pub machine : cfg.capacity_machine_class ≡ some p.machine_class

accepted-IsOfTarget :
    (cfg : Config) (host : Host) (p : CapacityProfile)
    → profile_rejection cfg host p ≡ none
    → IsOfTarget cfg p
unfolding profile_rejection host_status
accepted-IsOfTarget cfg host p h = elim (Option-cases cfg.capacity_model_id) [
  | inl e ↦ absurd (ground arith)
  | inr (m, em) ↦ elim (Option-cases cfg.capacity_runtime) [
    | inl e ↦ absurd (ground arith)
    | inr (r, er) ↦ elim (Option-cases cfg.capacity_machine_class) [
      | inl e ↦ absurd (ground arith)
      | inr (c, ec) ↦ record {
        model = ground (arith, same→eq p.model_id m);
        runtime = ground (arith, same→eq p.runtime r);
        machine = ground (arith, same→eq p.machine_class c);
      }
    ]
  ]
]

eligible-IsOfTarget :
    (cfg : Config) (host : Host) (profile : Option CapacityProfile) {p : CapacityProfile}
    → eligible_profile cfg host profile ≡ some p
    → (profile ≡ some p) × IsOfTarget cfg p
unfolding eligible_profile
eligible-IsOfTarget cfg host none h = cc
eligible-IsOfTarget cfg host (some q) {p} h =
    let e : q ≡ p = ground arith in
    (ap some e, subst (λ x. IsOfTarget cfg x) e (accepted-IsOfTarget cfg host q (ground arith)))

limit_in-lt-ceiling :
    (m : CapacityMode) (cfg : Config) (pressure : MemoryPressureClass) (p : Option CapacityProfile)
    → limit_in m cfg pressure p < ceiling cfg
    → (m ≡ adaptive) × ((q : CapacityProfile) × (p ≡ some q))
limit_in-lt-ceiling fixed cfg pressure p h = absurd (omega arith)
limit_in-lt-ceiling adaptive cfg pressure none h = absurd (omega arith)
limit_in-lt-ceiling adaptive cfg pressure (some q) h = (refl, (q, refl))

-- The limit falls below the operator's ceiling only in adaptive mode, and only by a profile of
-- exactly the configured model, runtime and machine class.
pub effective_active_limit-lt-ceiling :
    (cfg : Config) (host : Host) (profile : Option CapacityProfile) (pressure : MemoryPressureClass)
    → effective_active_limit cfg host profile pressure < ceiling cfg
    → (cfg.capacity_mode ≡ adaptive)
      × ((p : CapacityProfile) × (profile ≡ some p) × IsOfTarget cfg p)
unfolding effective_active_limit
effective_active_limit-lt-ceiling cfg host profile pressure h =
    let (m, (q, e)) =
      limit_in-lt-ceiling cfg.capacity_mode cfg pressure (eligible_profile cfg host profile) h in
    let (e', t) = eligible-IsOfTarget cfg host profile e in (m, (q, e', t))

-- In fixed mode no profile and no host changes any verdict of the controller.
pub evaluate_fixed :
    (cfg : Config) (host other : Host) (profile spare : Option CapacityProfile)
    (ctx : CapacityContext)
    → cfg.capacity_mode ≡ fixed
    → evaluate cfg host profile ctx ≡ evaluate cfg other spare ctx
unfolding evaluate evidence effective_active_limit
evaluate_fixed cfg host other profile spare ctx f = ap (decide cfg ctx) (rw f)
