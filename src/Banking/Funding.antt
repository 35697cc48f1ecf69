-- ===== src/Banking/Funding.antt =====
-- apps/banking-adapter-mock/src/handoff/funding-decision.ts
use Prim.Native.String.{◌++◌}
use oneandro_clone.Prelude.{ℕ, String, Bool, Option, none, some, leb, if◌then◌else◌}

pub data FundingDecision : Type 0 where
  fund : FundingDecision
  reject : String → FundingDecision

-- The probability of an approval, in percent.
unfoldable pub approval_probability : ℕ → ℕ
approval_probability score = if leb 680 score then 95 else if leb 620 score then 80 else 10

-- `random_below p` is whether `random()` is below p percent, and `show` prints a number.
unfoldable pub decide_funding_outcome : (ℕ → String) → Option ℕ → (ℕ → Bool) → FundingDecision
decide_funding_outcome show none random_below = reject "No credit score on file for this lead."
decide_funding_outcome show (some score) random_below =
    if random_below (approval_probability score)
    then fund
    else reject (
        "Partner bank declined funding for credit score "
        ++ (show score ++ " (simulated decision)."))
