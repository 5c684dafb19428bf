-- ===== src/Tool/Broadcast/Responses.antt =====
-- The answers of the agents of a broadcast in its response.
use a2a_gateway_mcp.Prelude.{
  or_swap, or_false, ℕ, ◌≡◌, refl, ap, ◌∙◌, Bool, true, false, not, ◌||◌, Option, none, some, List,
  [], ◌∷◌, String, ◌==◌, if◌then◌else◌, is_some,
}
use a2a_gateway_mcp.GoMap
use a2a_gateway_mcp.GoMap.{GoMap, IsFunctional, then_value}
use a2a_gateway_mcp.Tool.Broadcast.{BroadcastMessageInput, AgentOutcome, is_failed}
use a2a_gateway_mcp.Tool.Broadcast.Accounts.{broadcast-Tells}
use a2a_gateway_mcp.Tool.Broadcast.Agent.{broadcast_to_agent, fan_out, build_response, response_of}
use a2a_gateway_mcp.Tool.Broadcast.Outcome.{IsConsistent}
use a2a_gateway_mcp.Tool.Send.{Environment, Live}

-- Is the alias one of the list?
abbrev pub occurs : String → List String → Bool
occurs k [] = false
occurs k (j ∷ js) = (j == k) || occurs k js

module _ (E : Environment) where
  -- The outcome of the alias that came last, over one from before.
  abbrev pub last_outcome :
      ℕ
      → ℕ
      → BroadcastMessageInput
      → String
      → List String
      → Option AgentOutcome
      → Live E
      → Option AgentOutcome
  last_outcome now timeout input k [] before s = before
  last_outcome now timeout input k (alias ∷ order) before s =
      let (outcome, s') = broadcast_to_agent E now timeout alias input s in
      last_outcome now timeout input k order (if alias == k then some outcome else before) s'

  lookup-fan_out :
      (now timeout : ℕ) (input : BroadcastMessageInput) (k : String) (order : List String)
      (m : GoMap AgentOutcome) (s : Live E)
      → GoMap.lookup k (fan_out E now timeout input order m s).0
        ≡ last_outcome now timeout input k order (GoMap.lookup k m) s
  unfolding fan_out
  lookup-fan_out now timeout input k [] m s = refl
  lookup-fan_out now timeout input k (alias ∷ order) m s =
      let (outcome, s') = broadcast_to_agent E now timeout alias input s in
      lookup-fan_out now timeout input k order (GoMap.insert alias outcome m) s'
      ∙ ap (λ before. last_outcome now timeout input k order before s')
          (GoMap.lookup-insert alias k outcome m)

  fan_out-IsFunctional :
      (now timeout : ℕ) (input : BroadcastMessageInput) (order : List String)
      (m : GoMap AgentOutcome) (s : Live E)
      → IsFunctional m
      → IsFunctional (fan_out E now timeout input order m s).0
  unfolding fan_out
  fan_out-IsFunctional now timeout input [] m s f = f
  fan_out-IsFunctional now timeout input (alias ∷ order) m s f =
      let (outcome, s') = broadcast_to_agent E now timeout alias input s in
      fan_out-IsFunctional now timeout input order (GoMap.insert alias outcome m) s'
        (GoMap.insert-IsFunctional alias outcome f)

  some_if :
      {A : Type 0} (b : Bool) (a : A) (before : Option A)
      → is_some (if b then some a else before) ≡ (b || is_some before)
  some_if true a before = refl
  some_if false a before = refl

  some_last_outcome :
      (now timeout : ℕ) (input : BroadcastMessageInput) (k : String) (order : List String)
      (before : Option AgentOutcome) (s : Live E)
      → is_some (last_outcome now timeout input k order before s)
        ≡ (occurs k order || is_some before)
  some_last_outcome now timeout input k [] before s = refl
  some_last_outcome now timeout input k (alias ∷ order) before s =
      let (outcome, s') = broadcast_to_agent E now timeout alias input s in
      some_last_outcome now timeout input k order (if alias == k then some outcome else before) s'
      ∙ (ap (λ b. occurs k order || b) (some_if (alias == k) outcome before)
          ∙ or_swap (alias == k) (occurs k order) (is_some before))

  -- Where there is an outcome, it is consistent.
  abbrev Sound : Option AgentOutcome → Type 0
  Sound none = Unit
  Sound (some o) = IsConsistent E o

  choice-Sound :
      (b : Bool) (o : AgentOutcome) (before : Option AgentOutcome)
      → IsConsistent E o
      → Sound before
      → Sound (if b then some o else before)
  choice-Sound true o before c p = c
  choice-Sound false o before c p = p

  last_outcome-Sound :
      (now timeout : ℕ) (input : BroadcastMessageInput) (k : String) (order : List String)
      (before : Option AgentOutcome) (s : Live E)
      → Sound before
      → Sound (last_outcome now timeout input k order before s)
  last_outcome-Sound now timeout input k [] before s p = p
  last_outcome-Sound now timeout input k (alias ∷ order) before s p =
      let (outcome, s') = broadcast_to_agent E now timeout alias input s in
      last_outcome-Sound now timeout input k order (if alias == k then some outcome else before) s'
        (choice-Sound (alias == k) outcome before (broadcast-Tells E now timeout alias input s).0 p)

  -- Is there an outcome that is no failure?
  abbrev pub is_reported : Option AgentOutcome → Bool
  is_reported none = false
  is_reported (some o) = not (is_failed E o.result.status)

  some_response :
      (o : Option AgentOutcome) → Sound o → is_some (then_value (response_of E) o) ≡ is_reported o
  some_response none p = refl
  some_response (some o) p = p

  -- In whichever order the agents of a broadcast run, each of its aliases has an outcome and no other
  -- name has; the response has, for each name, the response of its last outcome; and so an agent is
  -- in the response exactly if its outcome is neither an error nor skipped.
  pub fan_out-response :
      (now timeout : ℕ) (input : BroadcastMessageInput) (order : List String) (k : String)
      (s : Live E)
      → let last = last_outcome now timeout input k order none s in
        let response = build_response E (fan_out E now timeout input order GoMap.empty s).0 in
        (is_some last ≡ occurs k order)
        × (GoMap.lookup k response ≡ then_value (response_of E) last)
        × (is_some (GoMap.lookup k response) ≡ is_reported last)
  unfolding build_response
  fan_out-response now timeout input order k s =
      let last = last_outcome now timeout input k order none s in
      let value : GoMap.lookup k
            (build_response E (fan_out E now timeout input order GoMap.empty s).0)
          ≡ then_value (response_of E) last =
        GoMap.lookup-filter_map (response_of E) k
          (fan_out-IsFunctional now timeout input order GoMap.empty s GoMap.empty-IsFunctional)
        ∙ ap (then_value (response_of E)) (
            lookup-fan_out now timeout input k order GoMap.empty s
            ∙ ap (λ before. last_outcome now timeout input k order before s)
                (GoMap.lookup-empty k)) in
      (
        some_last_outcome now timeout input k order none s ∙ or_false (occurs k order),
        value,
        ap is_some value
            ∙ some_response last (last_outcome-Sound now timeout input k order none s tt),
      )
