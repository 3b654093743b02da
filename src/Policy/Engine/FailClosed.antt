-- ===== src/Policy/Engine/FailClosed.antt =====
-- What an answer of the classifier is worth: only a well-formed answer that names a status gives that
-- status, and every other outcome of the call is UNCERTAIN with confidence 0.
use safety_grounded_agent.Prelude.{
  String, ◌≡◌, refl, ◌≢◌, ◌⊎◌, inl, inr, true, Option, none, some, [], map, arith, Option-cases,
  string_has_eq,
}
use safety_grounded_agent.Text.{codes}
use safety_grounded_agent.Policy.Models.{
  PolicyStatus, uncertain, PolicyDecision, hundredths, decision,
}
use safety_grounded_agent.Policy.Engine.{
  Value, bool_value, other_value, text_value, int_value, float_value, list_value, ClassifierDict,
  ClassifierResult, raised, a_decision, a_text, a_dict, something_else, Coerced, fine, raises,
  status_value_of, status_named, text_or, texts_or_empty, confidence_or, coerce_dict,
  coerce_classifier_result, classify,
}
use safety_grounded_agent.Policy.Engine.Fields.{
  status_name, status_named-name, name_of_status, IsUnit, IsText, IsTexts, MissingOr, unit-reads,
  IsUnit-valid, text-reads, IsText-valid, texts-reads, IsTexts-valid,
}

-- What a dictionary has to say to be taken at its word.
pub record IsValidDict (d : ClassifierDict) : Type 0 where
  pub confidence : MissingOr IsUnit d.confidence
  pub reason : MissingOr IsText d.reason
  pub matched_rules : MissingOr IsTexts d.matched_rules
  pub warnings : MissingOr IsTexts d.warnings

module _ (upper : String → String) where
  -- The answer names the status, in a form that the contract with a classifier allows.
  abbrev pub Names : ClassifierResult → PolicyStatus → Type 0
  Names (raised name) st = ⊥
  Names (a_decision d finite) st = (finite ≡ true) × (d.status ≡ st)
  Names (a_text s) st = upper s ≡ status_name st
  Names (a_dict d) st =
      IsValidDict d × ((s : String) × (d.status ≡ some (text_value s)) × (upper s ≡ status_name st))
  Names something_else st = ⊥

  -- The outcome that the contract does not allow, which no caller can take for an assurance.
  pub record FailsClosed (d : PolicyDecision) : Type 0 where
    pub is_uncertain : d.status ≡ uncertain
    pub no_confidence : d.confidence ≡ 0
    pub warned : d.warnings ≢ []

  status-valid :
      (v : Option Value) (st : PolicyStatus)
      → status_value_of upper v ≡ some st
      → (s : String) × (v ≡ some (text_value s)) × (upper s ≡ status_name st)
  status-valid (some (text_value s)) st h = (s, refl, name_of_status (upper s) st h)
  status-valid none st h = cc
  status-valid (some (int_value n)) st h = cc
  status-valid (some (float_value n)) st h = cc
  status-valid (some (bool_value b)) st h = cc
  status-valid (some (list_value items)) st h = cc
  status-valid (some other_value) st h = cc

  status-reads :
      (d : ClassifierDict) (s : String) (st : PolicyStatus)
      → d.status ≡ some (text_value s)
      → upper s ≡ status_name st
      → status_value_of upper d.status ≡ some st
  status-reads d s st e named = rw (e, named) (status_named-name st)

  dict-reads :
      (d : ClassifierDict) (st : PolicyStatus)
      → IsValidDict d
      → status_value_of upper d.status ≡ some st
      → (p : PolicyDecision) × (coerce_dict upper d ≡ fine p) × (p.status ≡ st)
  unfolding coerce_dict
  dict-reads d st valid named =
      let (c, ec) = unit-reads (hundredths 65) d.confidence valid.confidence in
      let (r, er) = text-reads "LLM fallback 分类" d.reason valid.reason in
      let (m, em) = texts-reads d.matched_rules valid.matched_rules in
      let (w, ew) = texts-reads d.warnings valid.warnings in
      (
        record {
          status = st;
          reason = r;
          matched_rules = map codes m;
          warnings = w;
          classifier_used = true;
          confidence = c;
        },
        ground arith,
        refl,
      )

  dict-valid :
      (d : ClassifierDict) (p : PolicyDecision)
      → coerce_dict upper d ≡ fine p
      → IsValidDict d
        × (status_value_of upper d.status ≡ some p.status)
        × (p.classifier_used ≡ true)
  unfolding coerce_dict
  dict-valid d p h = elim (Option-cases (status_value_of upper d.status)) [
    | inl missing ↦ absurd (ground arith)
    | inr (st, es) ↦ elim (Option-cases (confidence_or (hundredths 65) d.confidence)) [
      | inl missing ↦ absurd (ground arith)
      | inr (c, ec) ↦ elim (Option-cases (text_or "LLM fallback 分类" d.reason)) [
        | inl missing ↦ absurd (ground arith)
        | inr (r, er) ↦ elim (Option-cases (texts_or_empty d.matched_rules)) [
          | inl missing ↦ absurd (ground arith)
          | inr (m, em) ↦ elim (Option-cases (texts_or_empty d.warnings)) [
            | inl missing ↦ absurd (ground arith)
            | inr (w, ew) ↦ (
              record {
                confidence = (IsUnit-valid (hundredths 65) d.confidence c ec (omega arith)).0;
                reason = IsText-valid "LLM fallback 分类" d.reason r er;
                matched_rules = IsTexts-valid d.matched_rules m em;
                warnings = IsTexts-valid d.warnings w ew;
              },
              ground arith,
              ground arith,
            )
          ]
        ]
      ]
    ]
  ]

  coerce-reads :
      (r : ClassifierResult) (st : PolicyStatus)
      → Names r st
      → (p : PolicyDecision) × (coerce_classifier_result upper r ≡ fine p) × (p.status ≡ st)
  unfolding coerce_classifier_result
  coerce-reads (raised name) st m = elim m [ ]
  coerce-reads (a_decision d finite) st (is_finite, same) =
      (record d { classifier_used = true }, ground arith, same)
  coerce-reads (a_text s) st m =
      let read : status_named (upper s) ≡ some st = rw m (status_named-name st) in
      (
        record (decision st "LLM fallback 分类" (hundredths 65)) { classifier_used = true },
        ground arith,
        refl,
      )
  coerce-reads (a_dict d) st (valid, (s, e, named)) =
      dict-reads d st valid (status-reads d s st e named)
  coerce-reads something_else st m = elim m [ ]

  coerce-valid :
      (r : ClassifierResult) (p : PolicyDecision)
      → coerce_classifier_result upper r ≡ fine p
      → Names r p.status × (p.classifier_used ≡ true)
  unfolding coerce_classifier_result
  coerce-valid (raised name) p h = cc
  coerce-valid (a_decision d finite) p h = ((ground arith, ground arith), ground arith)
  coerce-valid (a_text s) p h = elim (Option-cases (status_named (upper s))) [
    | inl missing ↦ absurd (ground arith)
    | inr (st, e) ↦ (name_of_status (upper s) p.status (ground arith), ground arith)
  ]
  coerce-valid (a_dict d) p h =
      let (valid, named, used) = dict-valid d p h in
      ((valid, status-valid d.status p.status named), used)
  coerce-valid something_else p h = cc

  Coerced-cases :
      (c : Coerced PolicyDecision)
      → ((p : PolicyDecision) × (c ≡ fine p)) ⊎ ((n : String) × (c ≡ raises n))
  Coerced-cases (fine p) = inl (p, refl)
  Coerced-cases (raises n) = inr (n, refl)

  classify-fine :
      (r : ClassifierResult) (p : PolicyDecision)
      → coerce_classifier_result upper r ≡ fine p
      → classify upper r ≡ p
  unfolding classify
  classify-fine r p e = ground arith

  classify-raises :
      (r : ClassifierResult) (n : String)
      → coerce_classifier_result upper r ≡ raises n
      → FailsClosed (classify upper r) × ((classify upper r).classifier_used ≡ true)
  unfolding classify
  classify-raises r n e = (
    record {
      is_uncertain = ground arith;
      no_confidence = ground arith;
      warned = λ h. ground arith;
    },
    ground arith,
  )

  -- A well-formed answer that names a status gives that status.
  pub classify_named :
      (r : ClassifierResult) (st : PolicyStatus) → Names r st → (classify upper r).status ≡ st
  classify_named r st m = let (p, e, same) = coerce-reads r st m in rw (classify-fine r p e) same

  -- Each verdict on a call of the classifier is named by a well-formed answer, or it is UNCERTAIN with
  -- confidence 0 and a warning: an exception or a malformed answer never gives SAFE. The decision says
  -- that the classifier was used.
  pub classify-FailsClosed :
      (r : ClassifierResult)
      → (Names r (classify upper r).status ⊎ FailsClosed (classify upper r))
        × ((classify upper r).classifier_used ≡ true)
  classify-FailsClosed r = elim (Coerced-cases (coerce_classifier_result upper r)) [
    | inl (p, e) ↦
        let (named, used) = coerce-valid r p e in rw (classify-fine r p e) (inl named, used)
    | inr (n, e) ↦ let (closed, used) = classify-raises r n e in (inr closed, used)
  ]
