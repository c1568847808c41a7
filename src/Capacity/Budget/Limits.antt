-- ===== src/Capacity/Budget/Limits.antt =====
-- capacity_context.py: which requests `evaluate_context` rejects.
use whooshd.Base.{ℕ, ◌+◌, ◌≤◌, ◌≡◌, refl, ◌↔◌, false, not, Option, none, some, arith, is_some}
use whooshd.Capacity.Budget.{exceeds, evaluate_context}
use whooshd.Capacity.Cost.{RequestCost}
use whooshd.Capacity.Profile.{ContextBudgets}

-- A declared limit holds for the number; an undeclared one always does.
abbrev pub Within : ℕ → Option ℕ → Type 0
Within n none = Unit
Within n (some limit) = n ≤ limit

-- What the model can take: its own output limit, its input limit for text and media together, and
-- its hard ceiling for the whole request.
pub record Fits (c : RequestCost) (b : ContextBudgets) : Type 0 where
  pub output : Within c.output_tokens b.max_output_tokens
  pub input : Within (c.input_tokens + c.multimodal_tokens) b.max_input_tokens
  pub total : Within c.total_tokens b.hard_max_tokens

Within→exceeds : (n : ℕ) (limit : Option ℕ) → Within n limit → exceeds n limit ≡ false
Within→exceeds n none h = refl
Within→exceeds n (some l) h = ground arith

exceeds→Within : (n : ℕ) (limit : Option ℕ) → exceeds n limit ≡ false → Within n limit
exceeds→Within n none h = tt
exceeds→Within n (some l) h = ground arith

module _ (c : RequestCost) (b : ContextBudgets) where
  fits : Fits c b → (evaluate_context c (some b)).over_limit ≡ false
  unfolding evaluate_context
  fits f = ground (
    arith,
    Within→exceeds c.output_tokens b.max_output_tokens f.output,
    Within→exceeds (c.input_tokens + c.multimodal_tokens) b.max_input_tokens f.input,
    Within→exceeds c.total_tokens b.hard_max_tokens f.total,
  )

  checks :
      (evaluate_context c (some b)).over_limit ≡ false
      → (exceeds c.output_tokens b.max_output_tokens ≡ false)
        × (exceeds (c.input_tokens + c.multimodal_tokens) b.max_input_tokens ≡ false)
        × (exceeds c.total_tokens b.hard_max_tokens ≡ false)
  unfolding evaluate_context
  checks h = ground arith

  -- A request is let through exactly when it fits the model in each direction and in total; the
  -- recommended and the interactive budgets reject nothing. The other verdicts of the evaluation
  -- agree with this one.
  pub evaluate_context_iff :
      (((evaluate_context c (some b)).over_limit ≡ false) ↔ Fits c b)
      × ((evaluate_context c (some b)).within_budget ≡ not (evaluate_context c (some b)).over_limit)
      × (is_some (evaluate_context c (some b)).breached_budget
          ≡ (evaluate_context c (some b)).over_limit)
  unfolding evaluate_context
  evaluate_context_iff = (
    (
      λ h.
          let (o, i, t) = checks h in
          record {
            output = exceeds→Within _ _ o;
            input = exceeds→Within _ _ i;
            total = exceeds→Within _ _ t;
          },
      fits,
    ),
    ground arith,
    ground arith,
  )

Within-le : (m n : ℕ) (limit : Option ℕ) → m ≤ n → Within n limit → Within m limit
Within-le m n none le h = tt
Within-le m n (some l) le h = omega arith

-- A request that costs no more in any direction than one that is let through is let through.
pub evaluate_context_mono :
    (c d : RequestCost) (b : ContextBudgets)
    → c.input_tokens ≤ d.input_tokens
    → c.output_tokens ≤ d.output_tokens
    → c.multimodal_tokens ≤ d.multimodal_tokens
    → c.total_tokens ≤ d.total_tokens
    → (evaluate_context d (some b)).over_limit ≡ false
    → (evaluate_context c (some b)).over_limit ≡ false
evaluate_context_mono c d b i o m t h =
    let f = (evaluate_context_iff d b).0.0 h in
    (evaluate_context_iff c b).0.1 (record {
      output = Within-le _ _ b.max_output_tokens o f.output;
      input = Within-le _ _ b.max_input_tokens (omega arith) f.input;
      total = Within-le _ _ b.hard_max_tokens t f.total;
    })
