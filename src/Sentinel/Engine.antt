-- ===== src/Sentinel/Engine.antt =====
-- crates/sentinel/src/engine.rs and effect.rs: the engine's answers, and how they resume the transition. The HTTP
-- request is a parameter, which yields no response when it fails.
use shield_net.Prelude.{ℕ, Option, none, some, ◌∷◌, ◌++◌, Bytes, digits}
use shield_net.Sentinel.Types.{
  B256, SafeTransaction, RuleId, CheckOutcome, approved, denied, unknown, Effect, engine_check,
  Resume, engine_check_result,
}

-- `Display for RuleId`: "R-{section}.{rule}", whose numbers are below 2^32 and so of at most ten digits.
unfoldable pub rule_to_string : RuleId → Bytes
rule_to_string r = 82 ∷ 45 ∷ (digits 10 r.section ++ 46 ∷ digits 10 r.rule)

pub data Response : Type 0 where
  secure abstain : Response
  insecure : (rule : RuleId) → Response

-- `SecurityCheck::execute`, on what the request gave.
unfoldable pub execute : Option Response → CheckOutcome
execute (some secure) = approved
execute (some (insecure rule)) = denied rule
execute (some abstain) = unknown
execute none = unknown

unfoldable pub perform_effect :
    (security_check : (block : ℕ) → SafeTransaction → (request_id : B256) → Option Response)
    → Effect
    → Resume
unfolding execute
perform_effect security_check (engine_check request_id transaction block) =
    engine_check_result request_id (execute (security_check block transaction request_id))
