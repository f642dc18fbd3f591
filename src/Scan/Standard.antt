-- ===== src/Scan/Standard.antt =====
-- The suggestions of a scan (src/suggestion/engine.py).
use shelf_life_copilot.Prelude.{
  String, ◌≡◌, refl, Option, none, List, [], ◌∷◌, Result, ok, err, Error, arith, >>=-eq-ok,
}
use shelf_life_copilot.Models.Batch.{Batch, Alert}
use shelf_life_copilot.Models.Customer.{CustomerConfig, includes}
use shelf_life_copilot.Models.Suggestion.{Suggestion, validate_suggestion}
use shelf_life_copilot.Scan.{
  Provider, validate_payload, suggest, suggestion_of, add_outcome, outcomes,
}

-- What every suggestion of the engine is: of the customer, with the feedback that was given, valid, and
-- marked as standard exactly if the customer has enabled its action.
pub record IsSuggested (c : CustomerConfig) (feedback : Option String) (s : Suggestion)
    : Type 0 where
  pub customer : s.customer_id ≡ c.customer_id
  pub with_feedback : s.user_feedback ≡ feedback
  pub standard : s.is_standard ≡ includes c.enabled_actions s.action
  pub valid : validate_suggestion s ≡ ok s

validated : (s : Suggestion) {r : Suggestion} → validate_suggestion s ≡ ok r → s ≡ r
unfolding validate_suggestion
validated s h = ground arith

-- A suggestion that the engine returns is valid, is about the batch and the customer that were asked for,
-- and is marked as standard exactly if the customer has enabled its action.
pub suggest-IsSuggested :
    (pr : Provider) (b : Batch) (a : Alert) (c : CustomerConfig) (feedback : Option String)
    {s : Suggestion}
    → suggest pr b a c feedback ≡ ok s
    → IsSuggested c feedback s × (s.batch_id ≡ b.batch_id)
unfolding suggest
suggest-IsSuggested pr b a c feedback {s} h =
    let (raw, _, h2) = >>=-eq-ok (pr.call_with_tool b a c feedback) _ h in
    let (p, _, h3) = >>=-eq-ok (validate_payload raw) _ h2 in
    let same = validated (suggestion_of pr b c feedback p) h3 in
    rw (← same) (
      record { customer = refl; with_feedback = refl; standard = refl; valid = rw (← same) at h3 },
      refl,
    )

-- Each alert is answered, in order: by a suggestion that the engine has made for its batch, or, when the
-- engine has failed on it, by its batch's id among the errors.
pub data Answers (pr : Provider) (c : CustomerConfig)
    : List (Batch × Alert) → List Suggestion → List String → Type 0 where
  none_left : Answers pr c [] [] []
  suggested :
      {b : Batch} {a : Alert} {found : List (Batch × Alert)} {good : List Suggestion}
      {bad : List String}
      → (s : Suggestion) → suggest pr b a c none ≡ ok s
      → s.batch_id ≡ b.batch_id
      → IsSuggested c none s
      → Answers pr c found good bad
      → Answers pr c ((b, a) ∷ found) (s ∷ good) bad
  failed :
      {b : Batch} {a : Alert} {found : List (Batch × Alert)} {good : List Suggestion}
      {bad : List String}
      → (e : Error) → suggest pr b a c none ≡ err e
      → Answers pr c found good bad
      → Answers pr c ((b, a) ∷ found) good (b.batch_id ∷ bad)

added-Answers :
    (pr : Provider) (c : CustomerConfig) (b : Batch) (a : Alert) (found : List (Batch × Alert))
    (m : Result Suggestion) (rest : List Suggestion × List String)
    → suggest pr b a c none ≡ m
    → Answers pr c found rest.0 rest.1
    → Answers pr c
        ((b, a) ∷ found)
        (add_outcome b.batch_id m rest).0
        (add_outcome b.batch_id m rest).1
added-Answers pr c b a found (ok s) (good, bad) e h =
    let (valid, about) = suggest-IsSuggested pr b a c none e in suggested s e about valid h
added-Answers pr c b a found (err x) (good, bad) e h = failed x e h

pub outcomes-Answers :
    (pr : Provider) (c : CustomerConfig) (found : List (Batch × Alert))
    → Answers pr c found (outcomes pr c found).0 (outcomes pr c found).1
unfolding outcomes
outcomes-Answers pr c [] = none_left
outcomes-Answers pr c ((b, a) ∷ rest) =
    added-Answers pr c b a rest (suggest pr b a c none) (outcomes pr c rest) refl
      (outcomes-Answers pr c rest)
