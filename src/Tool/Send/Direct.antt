-- ===== src/Tool/Send/Direct.antt =====
-- What a message on the direct transport leaves behind, its retry included.
use a2a_gateway_mcp.Prelude.{
  subst, ◌≡◌, refl, ap, ◌∙◌, Option, none, some, String, if◌then◌else◌, Bool-cases, inl, inr,
}
use a2a_gateway_mcp.GoMap
use a2a_gateway_mcp.Registry.Clients.Cache.{fresh}
use a2a_gateway_mcp.Tool.Retry.{needs_retry, resolve_client_with_auth_retry, retry_once}
use a2a_gateway_mcp.Errors.{ok, Error}
use a2a_gateway_mcp.Health.Classify.{
  ConnectionOutcome, outcome_success, outcome_connection_error, outcome_context_canceled,
  classify_error,
}
use a2a_gateway_mcp.Health.Tracker
use a2a_gateway_mcp.Health.Tracker.{HealthTracker}
use a2a_gateway_mcp.History.Recorder.{RecordInput}
use a2a_gateway_mcp.Registry.Clients.{ClientResolver}
use a2a_gateway_mcp.Registry.Resolved.{ResolveResult}
use a2a_gateway_mcp.Tool.Background.{unrecognized_result, SendMessageResult}
use a2a_gateway_mcp.Tool.Send.{
  Environment, SendMessageInput, SendRequest, Stores, Live, record_health_outcome, successful,
  outcome_health,
}
use a2a_gateway_mcp.Tool.Send.Answer.{record_history, history_input}
use a2a_gateway_mcp.Tool.Send.Handle.{send_direct, send_with, after_send}
use a2a_gateway_mcp.Tool.Send.Recording.{Always, IsEntry, Noted, process-Noted, history-IsEntry}
use a2a_gateway_mcp.Tool.Stream.Handling.{Handled}

-- What the outcome of the calls of an agent means for its health: an agent that is known by its URL
-- alone has none, and a cancellation says nothing.
abbrev pub health_after : ResolveResult → Option Error → HealthTracker → HealthTracker
health_after resolved none t =
    if resolved.is_alias then Tracker.record_success resolved.alias t else t
health_after resolved (some e) t =
    if resolved.is_alias
    then (elim (classify_error (some e)) [
      | outcome_connection_error ↦ Tracker.record_failure resolved.alias t
      | outcome_success ↦ t
      | outcome_context_canceled ↦ t
    ])
    else t

module _ (E : Environment) where
  open E use {sdk, record_input, World}

  by_outcome :
      (outcome : ConnectionOutcome) (alias : String) (s : Stores E)
      → (outcome_health E outcome alias s).health ≡ (elim outcome [
        | outcome_connection_error ↦ Tracker.record_failure alias s.health
        | outcome_success ↦ s.health
        | outcome_context_canceled ↦ s.health
      ])
  by_outcome outcome_connection_error alias s = refl
  by_outcome outcome_success alias s = refl
  by_outcome outcome_context_canceled alias s = refl

  failure_health :
      (resolved : ResolveResult) (e : Error) (s : Stores E)
      → (record_health_outcome E resolved e s).health ≡ health_after resolved (some e) s.health
  unfolding record_health_outcome
  failure_health resolved e s = elim (Bool-cases resolved.is_alias) [
    | inl q ↦ rw q (by_outcome (classify_error (some e)) resolved.alias s)
    | inr q ↦ rw q refl
  ]

  pub success_health :
      (resolved : ResolveResult) (s : Stores E)
      → (successful E resolved s).health ≡ health_after resolved none s.health
  success_health resolved s = elim (Bool-cases resolved.is_alias) [
    | inl q ↦ rw q refl
    | inr q ↦ rw q refl
  ]

  -- The health is that of the outcome, and there is one entry more in the history.
  abbrev Concluded :
      SendMessageInput → ResolveResult → Option Error → Live E → Handled × Live E → Type 0
  Concluded input resolved e s (h, s') =
      (s'.stores.health ≡ health_after resolved e s.stores.health)
      × ((i : RecordInput) × (s'.log ≡ record_input i s.log) × IsEntry E input h.structured i)

  Noted-Concluded :
      (input : SendMessageInput) (resolved : ResolveResult) (s before : Live E)
      (out : Option (Handled × Live E))
      → before.stores.health ≡ health_after resolved none s.stores.health
      → before.log ≡ s.log
      → Always E (Noted E input before) out
      → Always E (Concluded input resolved none s) out
  Noted-Concluded input resolved s before none p l q = tt
  Noted-Concluded input resolved s before (some (h, s')) p l (health, (i, log, entry)) =
      (health ∙ p, (i, log ∙ ap (record_input i) l, entry))

  after_send-Concluded :
      (input : SendMessageInput) (sr : SendRequest E)
      (out : Option Error × (ClientResolver sdk × (SendMessageResult × World))) (s : Live E)
      → Always E (Concluded input sr.resolved out.0 s) (after_send E input sr out s)
  unfolding record_history
  after_send-Concluded input sr (some e, (clients, (response, w))) s = (
    failure_health sr.resolved e (record (s.stores) { clients = clients }),
    (history_input E input none none, refl, history-IsEntry E input none none refl),
  )
  after_send-Concluded input sr (none, (clients, (response, w))) s =
      let stores = successful E sr.resolved (record (s.stores) { clients = clients }) in
      Noted-Concluded input sr.resolved s (record s { stores = stores; world = w }) _
        (success_health sr.resolved (record (s.stores) { clients = clients })) refl
        (process-Noted E input sr response (record s { stores = stores; world = w }))

  -- The call that is tried, with its outcome.
  abbrev calls :
      SendRequest E
      → sdk.Client
      → SendMessageResult × World
      → Option Error × (SendMessageResult × World)
  calls sr = send_with E sr.request

  -- The outcome that counts: of the one more try after an error of authentication, of the first one
  -- otherwise.
  abbrev pub last_error : SendRequest E → sdk.Client → sdk.Client → World → Option Error
  last_error sr stale renewed w =
      let first = calls sr stale (unrecognized_result, w) in
      if needs_retry first.0 then (calls sr renewed first.1).0 else first.0

  Always-some :
      (P : Handled × Live E → Type 0) (out : Option (Handled × Live E)) (r : Handled × Live E)
      → out ≡ some r
      → Always E P out
      → P r
  Always-some P out r e = subst (Always E P) e

  -- A direct send that returns, to an agent whose client is cached and where a new one can be made,
  -- counts for the health of its alias once, by the outcome of the last try: a success, a failure if that was an error of the connection, and nothing
  -- for a cancellation. And it adds one entry to the history, with the identifiers of the output; but
  -- the entry never has a text of the answer, nor says that there was an error.
  pub direct-Concluded :
      (input : SendMessageInput) (sr : SendRequest E) (renewed : sdk.Client) (h : Handled)
      (s s' : Live E)
      → GoMap.lookup sr.resolved.url s.stores.clients.clients ≡ some sr.client
      → fresh sdk s.stores.agents sr.resolved ≡ ok renewed
      → send_direct E input sr s ≡ some (h, s')
      → (s'.stores.health
          ≡ health_after sr.resolved (last_error sr sr.client renewed s.world) s.stores.health)
        × ((i : RecordInput) × (s'.log ≡ record_input i s.log) × IsEntry E input h.structured i)
  unfolding send_direct
  direct-Concluded input sr renewed h s s' cached made e =
      let out =
        resolve_client_with_auth_retry sdk (calls sr) s.stores.agents sr.resolved s.stores.clients
          (unrecognized_result, s.world) in
      let counted =
        (retry_once sdk (calls sr) s.stores.agents sr.resolved sr.client renewed s.stores.clients
          (unrecognized_result, s.world) cached made).0 in
      let (health, history) =
        Always-some (Concluded input sr.resolved out.0 s) (after_send E input sr out s) (h, s') e
          (after_send-Concluded input sr out s) in
      (health ∙ ap (λ r. health_after sr.resolved r s.stores.health) counted, history)
