-- ===== src/Orchestration/Tests.antt =====
-- Routes of concrete requests.
use safety_grounded_agent.Prelude.{◌≡◌, refl, false, some, [], ◌∷◌, nat_eq}
use safety_grounded_agent.Text.{codes, contains}
use safety_grounded_agent.Policy.Models.{hundredths}
use safety_grounded_agent.Policy.Normalization.{Unicode}
use safety_grounded_agent.Policy.Stance.{lstrip, rstrip}
use safety_grounded_agent.Orchestration.TaskRouter.{email_draft, IntentResult, email_task, route}

abbrev plain : Unicode
plain = record {
  nfkc = λ c. c ∷ [];
  is_control = λ c. false;
  lower = λ c. c ∷ [];
  is_space = λ c. nat_eq c 32;
  casefold = λ t. t;
}

abbrev email : IntentResult
email = record {
  intent = email_draft;
  confidence = hundredths 95;
  reasoning = "";
  alternative_intents = [];
}

-- The e-mail comes before the question, although the text asks for one.
email_first : (route plain (λ t. t) (codes " 合同邮件 ") (some email)).task ≡ email_task
unfolding route contains lstrip rstrip
email_first = refl
