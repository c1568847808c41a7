-- ===== src/Capacity/Budget.antt =====
-- whooshd/capacity_context.py: a request's cost against its model's context budgets.
pub mod Limits
use whooshd.Base.{ℕ, ◌+◌, Bool, true, false, Option, none, some, ltb, if◌then◌else◌}
use whooshd.Capacity.Cost.{RequestCost, CostStatus, exact, estimated, unknown, cost_status}
use whooshd.Capacity.Profile.{
  ContextBudget, ContextBudgets, ContextDecisionReason, hard, recommended, interactive, max_input,
  max_output, within_interactive, within_recommended, above_recommended, above_hard,
  above_input_limit, above_output_limit, no_budget,
}

pub record ContextEvaluation : Type 0 where
  pub reason : ContextDecisionReason
  pub budget : Option ContextBudget
  pub total_tokens : ℕ
  pub within_budget : Bool
  pub over_limit : Bool
  pub breached_budget : Option ContextBudget
  pub cost_is_exact : Bool
  pub cost_status : CostStatus
  pub cost : RequestCost
  pub budgets : Option ContextBudgets  -- the maxima that the source copies field by field

abbrev is_exact : CostStatus → Bool
is_exact exact = true
is_exact _ = false

-- `limit is not None and value > limit`.
abbrev pub exceeds : ℕ → Option ℕ → Bool
exceeds n none = false
exceeds n (some limit) = ltb limit n

-- A breach rejects; every other outcome admits.
breach : RequestCost → ContextBudgets → ContextDecisionReason → ContextBudget → ContextEvaluation
unfolding cost_status
breach c b reason which = record {
  reason = reason;
  budget = some which;
  total_tokens = c.total_tokens;
  within_budget = false;
  over_limit = true;
  breached_budget = some which;
  cost_is_exact = is_exact (cost_status c);
  cost_status = cost_status c;
  cost = c;
  budgets = some b;
}

admit :
    RequestCost
    → Option ContextBudgets
    → ContextDecisionReason
    → Option ContextBudget
    → ContextEvaluation
unfolding cost_status
admit c b reason which = record {
  reason = reason;
  budget = which;
  total_tokens = c.total_tokens;
  within_budget = true;
  over_limit = false;
  breached_budget = none;
  cost_is_exact = is_exact (cost_status c);
  cost_status = cost_status c;
  cost = c;
  budgets = b;
}

-- The checks, in the source's order, once there are budgets.
evaluate_budgets : RequestCost → ContextBudgets → ContextEvaluation
unfolding breach admit
evaluate_budgets c b =
    if exceeds c.output_tokens b.max_output_tokens
    then breach c b above_output_limit max_output
    else if exceeds (c.input_tokens + c.multimodal_tokens) b.max_input_tokens
    then breach c b above_input_limit max_input
    else if exceeds c.total_tokens b.hard_max_tokens
    then breach c b above_hard hard
    else if exceeds c.total_tokens b.recommended_max_tokens
    then admit c (some b) above_recommended (some recommended)
    else if exceeds c.total_tokens b.interactive_max_tokens
    then admit c (some b) within_recommended (some recommended)
    else admit c (some b) within_interactive (some interactive)

unfoldable pub evaluate_context : RequestCost → Option ContextBudgets → ContextEvaluation
unfolding admit evaluate_budgets
evaluate_context c none = admit c none no_budget none
evaluate_context c (some b) = evaluate_budgets c b
