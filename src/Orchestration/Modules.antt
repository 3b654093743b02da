-- ===== src/Orchestration/Modules.antt =====
-- What src/conversation_agent/orchestration/coordinator.py is built from, and what its tasks share. The
-- modules are functions; numbers are formatted by parameters.
use safety_grounded_agent.Prelude.{ℕ, String, Option, none, some, List, [], ◌∷◌, string_has_eq}
use safety_grounded_agent.Text.{Text}
use safety_grounded_agent.Time.{Datetime}
use safety_grounded_agent.Json.{Json}
use safety_grounded_agent.Policy.Models.{Confidence, PolicyDecision}
use safety_grounded_agent.Policy.Normalization.{Unicode}
use safety_grounded_agent.Rag.{RagClient, RagResult}
use safety_grounded_agent.Orchestration.TaskRouter.{IntentResult, TaskRoute}
use safety_grounded_agent.Orchestration.Models.{AgentStep}
use safety_grounded_agent.Orchestration.Words.{compact}

-- What the coordinator reads of a customer profile; a score comes with its level or status.
pub record Profile : Type 0 where
  pub customer_name : String
  pub aliases : List String
  pub sales_stage : String
  pub deal_score : Option (ℕ × String)
  pub health_score : Option (ℕ × String)
  pub high_priority_risk_count : ℕ

-- `policy` gives `none` where it raises; `show` formats a whole number, `decimals` a confidence with two
-- decimals, and `plain_float` a confidence by itself; `of_codes` is the text of the code points.
pub record Coordinator : Type 0 where
  pub unicode : Unicode
  pub policy : Text → Option PolicyDecision
  pub route_intent : Text → IntentResult
  pub route_task : Text → Option IntentResult → TaskRoute
  pub list_all : List Profile
  pub load : Text → Option Profile
  pub rag_client : RagClient
  pub show : ℕ → String
  pub decimals : Confidence → String
  pub plain_float : Confidence → String
  pub of_codes : Text → String
  -- microseconds in whole milliseconds
  pub to_ms : ℕ → ℕ
  -- `src["source_id"]` and `src["title"]` as a text; `none` is a `KeyError`
  pub source_id : Json → Option String
  pub title : Json → Option String

-- What the clock gives: the latencies of the steps, and the time of the result.
pub record Timing : Type 0 where
  pub policy_ms : ℕ
  pub route_ms : ℕ
  pub task_ms : ℕ
  pub total_ms : ℕ
  pub finished_at : Datetime

-- What a task comes to, with the steps that it adds to the trace. It raises where the retrieval raises or
-- a source has no identifier or title.
pub record Executed : Type 0 where
  pub response : String
  pub rag_result : Option RagResult
  pub confidence : Confidence
  pub steps : List AgentStep

-- All items, or none where one is missing.
abbrev pub all_of : (Json → Option String) → List Json → Option (List String)
all_of read [] = some []
all_of read (v ∷ vs) = elim (read v) [
  | none ↦ none
  | some s ↦ elim (all_of read vs) [ none ↦ none | some rest ↦ some (s ∷ rest) ]
]

module _ (c : Coordinator) where
  abbrev pub summary : Text → Text
  summary user_text = compact c.unicode.is_space user_text
