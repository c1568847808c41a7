-- ===== src/Examples/Policy.antt =====
-- Concrete runs of admission, capacity and scheduling.
use whooshd.Base.{
  All, List, count, ℕ, ◌≡◌, ◌≤◌, ◌<◌, ◌+◌, ◌↔◌, refl, inl, inr, String, Bool, true, false, none,
  some, [], ◌∷◌, In, arith, same,
}
use whooshd.Batching.{BatchCandidate, analyze}
use whooshd.Batching.Groups.{IsGroup, count_members, analyze_shares}
use whooshd.Capacity.Controller.{CapacityContext, evaluate, run, effective_active_limit, ceiling}
use whooshd.Capacity.Controller.Decisions.{HasRoom, IsHeldBack, fits_context, evaluate_run_iff}
use whooshd.Capacity.Controller.Limit.{effective_active_limit_bounds}
use whooshd.Capacity.Controller.Cache.{Disk, get_profile, new as empty_cache}
use whooshd.Capacity.Controller.Cache.Coherence.{History, IsCoherent, get_profile_fresh}
use whooshd.Capacity.Cost.{RequestCost, default}
use whooshd.Capacity.Profile.{
  CapacityProfile, ContextBudgets, MemoryPressureClass, high, critical, normal,
}
use whooshd.Config.{Config, adaptive, fifo}
use whooshd.Examples.{desk}
use whooshd.Scheduler.{SchedulerCandidate, new as no_decisions}
use whooshd.Scheduler.Fairness.{Waits, chosen, chosen-max_bypass}

abbrev moment : CapacityContext
moment = record {
  active_jobs = 1;
  queue_depth = 0;
  max_queue_depth = 4;
  runtime_ready = true;
  memory_pressure = high;
  requested_estimated_tokens = none;
  request_cost = none;
  context_budgets = none;
  lane = none;
  lane_max_concurrent = none;
  lane_active_jobs = 0;
}

abbrev limit_at : MemoryPressureClass → ℕ
limit_at pressure = effective_active_limit desk none none pressure

evaluate_run_iff_example : ((evaluate desk none none moment).action ≡ run) ↔ (
    (fits_context moment ≡ true)
    × (true ≡ true)
    × HasRoom moment (limit_at high)
    × (¬ IsHeldBack desk moment (limit_at high)))
evaluate_run_iff_example = evaluate_run_iff desk none none moment

abbrev profiled : Config
profiled = record desk {
  capacity_mode = adaptive;
  capacity_model_id = some "m";
  capacity_runtime = some "mlx";
  capacity_machine_class = some "small";
}

abbrev budgets : ContextBudgets
budgets = record {
  hard_max_tokens = some 100;
  recommended_max_tokens = none;
  interactive_max_tokens = none;
  max_output_tokens = some 40;
  max_input_tokens = some 80;
  multimodal_token_estimate = none;
}

abbrev small : CapacityProfile
small = record {
  model_id = "m";
  runtime = "mlx";
  machine_class = "small";
  host_memory_bytes = none;
  recommended_active_concurrency = 1;
  context_budgets = some budgets;
}

effective_active_limit_bounds_example :
    (1 ≤ effective_active_limit profiled none (some small) critical)
    × (effective_active_limit profiled none (some small) critical ≤ ceiling profiled)
effective_active_limit_bounds_example =
    effective_active_limit_bounds profiled none (some small) critical

below_ceiling : effective_active_limit profiled none (some small) normal < ceiling profiled
unfolding effective_active_limit same
below_ceiling = omega arith

abbrev cost : ℕ → RequestCost
cost n = record {
  input_tokens = n;
  output_tokens = 10;
  multimodal_tokens = 0;
  total_tokens = n + 10;
  input_is_exact = false;
  multimodal_is_exact = true;
  output_is_exact = false;
  has_unknown_cost = false;
  output_limit_source = default;
  structured_prompt_tokens = 0;
  media_parts = 0;
}

abbrev waiting_since : String → ℕ → Bool → SchedulerCandidate
waiting_since rid at ready = record {
  request_id = rid;
  queued_at = at;
  model = none;
  stream = false;
  threadwake_cache_ready = ready;
  bypass_count = 0;
}

abbrev plain : Config
plain = record desk { scheduler_policy = fifo }

abbrev old : SchedulerCandidate
old = waiting_since "a" 1 false

abbrev warm : SchedulerCandidate
warm = waiting_since "b" 2 true

old-Waits : Waits "a" 1 (old ∷ warm ∷ [])
unfolding same
old-Waits = record {
  present = (old, inl refl, refl, refl);
  eldest = (inl (refl, refl), (inr (refl, omega arith), tt));
}

chosen-max_bypass_example :
    In (some "a") (chosen desk no_decisions ((old ∷ warm ∷ []) ∷ (old ∷ warm ∷ []) ∷ []))
chosen-max_bypass_example =
    chosen-max_bypass "a" 1 desk no_decisions ((old ∷ warm ∷ []) ∷ (old ∷ warm ∷ []) ∷ [])
      (old-Waits, (old-Waits, tt)) (omega arith)

abbrev tie : SchedulerCandidate
tie = waiting_since "c" 1 true

abbrev disk : Disk
disk = record { mtime = λ path. some 3; load = λ path. some small }

abbrev history : History
history s = some small

cache_IsCoherent : IsCoherent history (empty_cache (some "p.json"))
unfolding empty_cache
cache_IsCoherent = record { profile = λ s p e h. cc; failure = λ s e. cc }

get_profile_fresh_example :
    ((get_profile desk disk (empty_cache (some "p.json"))).1 ≡ some small)
    × IsCoherent history (get_profile desk disk (empty_cache (some "p.json"))).0
unfolding empty_cache same
get_profile_fresh_example =
    get_profile_fresh history desk disk (empty_cache (some "p.json")) "p.json" (λ path. refl)
      cache_IsCoherent refl

abbrev short : String → String → BatchCandidate
short rid model = record {
  request_id = rid;
  queued_at = 0;
  model = model;
  backend = none;
  stream = false;
  estimated_prompt_tokens = some 5;
  max_tokens = some 7;
  sampling_class = none;
  has_image = false;
}

abbrev three_short : List BatchCandidate
three_short = short "a" "m" ∷ short "b" "n" ∷ short "c" "m" ∷ []

analyze_shares_example :
    ((p : BatchCandidate → Bool)
      → count_members p (analyze 2 100 three_short true).groups ≡ count p three_short)
    × All (λ g. IsGroup 2 100 g) (analyze 2 100 three_short true).groups
analyze_shares_example = analyze_shares 2 100 three_short
