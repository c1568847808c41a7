-- ===== src/Capacity/Cost/Bounds.antt =====
-- capacity_context.py: what an estimate promises.
use whooshd.Base.{
  max, zero, suc, ◌||◌, if◌then◌else◌, refl, ◌↔◌, suc, ◌↔◌, is_some, true, Bool, ◌≡◌, ℕ, ◌+◌, ◌*◌,
  ◌≤◌, ◌<◌, Option, none, some, arith, length,
}
use whooshd.Capacity.Cost.{
  exact, message_text_and_media, unknown, estimate_request_cost, cost_status, TokenCounter,
  count_tokens, media_cost, Chars, ChatCompletionRequest, effective_output_limit, fallback_tokens,
}

-- The heuristic rounds up: its tokens cover the text, by fewer than one token too many.
pub fallback_tokens_bounds :
    (t : Chars) → (length t ≤ 4 * fallback_tokens t) × (4 * fallback_tokens t < length t + 4)
unfolding fallback_tokens
fallback_tokens_bounds t = omega arith

abbrev pub stated_or : Option ℕ → ℕ → ℕ
stated_or none n = n
stated_or (some m) n = m

abbrev stated : Option ℕ → Option ℕ → Bool
stated a b = is_some a || is_some b

module _ {Json : Type 0} (r : ChatCompletionRequest Json) (n : ℕ) where
  -- The reservation is the larger of the limits that the request states, so it bounds what may be
  -- generated whichever of them is obeyed; where it states none it is the default, and not exact.
  pub effective_output_limit_lem :
      ((effective_output_limit r n).0 ≡ (
        if stated r.max_tokens r.max_completion_tokens
        then max (stated_or r.max_tokens 0) (stated_or r.max_completion_tokens 0)
        else n))
      × ((effective_output_limit r n).1 ≡ stated r.max_tokens r.max_completion_tokens)
  unfolding effective_output_limit
  effective_output_limit_lem = ground arith

  count_tokens_exact :
      (t : Chars) (counter : Option TokenCounter)
      → (count_tokens t counter).1 ≡ true
      → is_some counter ≡ true
  unfolding count_tokens
  count_tokens_exact t counter h = ground arith

  media_cost_unknown :
      (media : ℕ) (unit : Option ℕ)
      → ((media_cost media unit).1 ≡ true) ↔ ((0 < media) × (stated_or unit 0 ≡ 0))
  unfolding media_cost
  media_cost_unknown zero unit = (λ h. cc, λ h. absurd (omega arith))
  media_cost_unknown (suc m) none = (λ h. (omega arith, refl), λ h. refl)
  media_cost_unknown (suc m) (some zero) = (λ h. (omega arith, refl), λ h. refl)
  media_cost_unknown (suc m) (some (suc e)) = (λ h. cc, λ h. absurd (omega arith))

  module _ (dumps : Json → Chars) (counter : Option TokenCounter) (unit : Option ℕ) where
    -- The status is unknown exactly when there is media and no price for it, and the total is the
    -- sum of the three parts.
    pub estimate_request_cost-unknown :
        ((cost_status (estimate_request_cost dumps r counter unit n) ≡ unknown)
          ↔ ((0 < (message_text_and_media r.messages).1) × (stated_or unit 0 ≡ 0)))
        × ((estimate_request_cost dumps r counter unit n).total_tokens
            ≡ (estimate_request_cost dumps r counter unit n).input_tokens
              + (estimate_request_cost dumps r counter unit n).output_tokens
              + (estimate_request_cost dumps r counter unit n).multimodal_tokens)
    unfolding estimate_request_cost cost_status
    estimate_request_cost-unknown = (
      (
        λ h. (media_cost_unknown (message_text_and_media r.messages).1 unit).0 (ground arith),
        λ h. ground (arith, (media_cost_unknown (message_text_and_media r.messages).1 unit).1 h),
      ),
      ground arith,
    )

    -- An estimate that calls itself exact has no media, reserves a stated limit, and was counted
    -- by a tokenizer.
    pub estimate_request_cost-exact :
        cost_status (estimate_request_cost dumps r counter unit n) ≡ exact
        → ((message_text_and_media r.messages).1 ≡ 0)
          × (stated r.max_tokens r.max_completion_tokens ≡ true)
          × (is_some counter ≡ true)
    unfolding estimate_request_cost cost_status
    estimate_request_cost-exact h = (ground arith, ground arith, ground arith)
