-- ===== src/Tool/Broadcast/Outcome.antt =====
-- What every agent of a broadcast comes to, whichever way it goes.
use a2a_gateway_mcp.Prelude.{
  ◌≡◌, refl, ap, ◌∙◌, Bool, true, false, not, Option, none, some, List, [], ◌∷◌, String,
  if◌then◌else◌, is_some,
}
use a2a_gateway_mcp.Errors.{Error, Result, ok, err, text, error_text, errorf}
use a2a_gateway_mcp.A2a.{
  Artifact, TaskState, submitted, working, completed, failed, canceled, input_required,
  auth_required, rejected, other, Message, Task,
}
use a2a_gateway_mcp.Health.Classify.{
  ConnectionOutcome, outcome_success, outcome_connection_error, outcome_context_canceled,
  classify_error,
}
use a2a_gateway_mcp.Registry.Clients.{ClientResolver, resolve, evict}
use a2a_gateway_mcp.Registry.Resolved.{ResolveResult}
use a2a_gateway_mcp.Tool.Background.{
  SendMessageResult, task_result, message_result, unrecognized_result,
}
use a2a_gateway_mcp.Tool.Broadcast.{
  outcome_health, with_stores, StreamState, BroadcastMessageInput, AgentOutcome, refused,
  handle_broadcast_task_result, is_failed, broadcast_entry, record_broadcast_history,
  record_broadcast_health_outcome, told, failing,
}
use a2a_gateway_mcp.Tool.Broadcast.Transports.{
  again, with_retry, of_stream, after_stream, of_answer, after_send,
}
use a2a_gateway_mcp.Tool.Retry.{is_auth_error}
use a2a_gateway_mcp.Tool.Send.{Environment, Live}
use a2a_gateway_mcp.Tool.Stream.{StreamResult, build_task_from_state}

module _ (E : Environment) where
  open E use {limiting, sdk, decode_string, sprintf, record_input}

  -- There is a response exactly where the result is no failure, and a task or message of the result
  -- is the one of the response.
  abbrev pub IsConsistent : AgentOutcome → Type 0
  IsConsistent o = is_some o.response ≡ not (is_failed E o.result.status)

  task-IsConsistent :
      (state : TaskState) (message : Option Message) (id context_id : String)
      (artifacts : List (Option Artifact))
      → IsConsistent (
          handle_broadcast_task_result E (record {
            id = id;
            context_id = context_id;
            status = record { state = state; message = message };
            artifacts = artifacts;
          }))
  unfolding handle_broadcast_task_result
  task-IsConsistent completed m i c a = refl
  task-IsConsistent input_required m i c a = refl
  task-IsConsistent auth_required m i c a = refl
  task-IsConsistent failed m i c a = refl
  task-IsConsistent canceled m i c a = refl
  task-IsConsistent submitted m i c a = refl
  task-IsConsistent working m i c a = refl
  task-IsConsistent rejected m i c a = refl
  task-IsConsistent (other s) m i c a = refl

  any_task-IsConsistent : (t : Task) → IsConsistent (handle_broadcast_task_result E t)
  any_task-IsConsistent t =
      task-IsConsistent t.status.state t.status.message t.id t.context_id t.artifacts

  answer-IsConsistent : (r : SendMessageResult) → IsConsistent (of_answer E r)
  answer-IsConsistent (message_result msg) = refl
  answer-IsConsistent (task_result task) = any_task-IsConsistent task
  answer-IsConsistent unrecognized_result = refl

  terminated-IsConsistent :
      (b : Bool) (t : Task)
      → IsConsistent (
          if b
          then handle_broadcast_task_result E t
          else refused "error" "no terminal event received")
  terminated-IsConsistent true t = any_task-IsConsistent t
  terminated-IsConsistent false t = refl

  stream-IsConsistent :
      (task : Option Task) (message : Option Message) (b : Bool) (state : StreamState)
      → IsConsistent (
          of_stream E
            (record { task = task; message = message; terminated_by_status = b; state = state }))
  stream-IsConsistent (some t) m b state = any_task-IsConsistent t
  stream-IsConsistent none (some m) b state = refl
  stream-IsConsistent none none b state = terminated-IsConsistent b (build_task_from_state state)

  -- The stores that a broadcast only reads, and the history.
  abbrev pub Spares : Live E → Live E → Type 0
  Spares s s' =
      (s'.stores.agents ≡ s.stores.agents)
      × (s'.stores.contexts ≡ s.stores.contexts)
      × (s'.stores.caller_cards ≡ s.stores.caller_cards)
      × (s'.stores.inbox ≡ s.stores.inbox)
      × (s'.log ≡ s.log)

  pub spared : (s s' s'' : Live E) → Spares s s' → Spares s' s'' → Spares s s''
  spared s s' s'' (a, b, c, d, e) (a', b', c', d', e') = (a' ∙ a, b' ∙ b, c' ∙ c, d' ∙ d, e' ∙ e)

  pub choice-Spares :
      {A : Type 0} (b : Bool) (s : Live E) (x y : A × Live E)
      → Spares s x.1
      → Spares s y.1
      → Spares s (if b then x else y).1
  choice-Spares true s x y p q = p
  choice-Spares false s x y p q = q

  again-Spares :
      {A : Type 0} (resolved : ResolveResult) (call : sdk.Client → Live E → Result A × Live E)
      (e : Error) (out : Result sdk.Client × ClientResolver sdk) (s : Live E)
      → ((client : sdk.Client) (s : Live E) → Spares s (call client s).1)
      → Spares s (again E resolved call e out s).1
  again-Spares resolved call e (ok client, clients) s h = h client _
  again-Spares resolved call e (err e', clients) s h = (refl, refl, refl, refl, refl)

  pub retry-Spares :
      {A : Type 0} (resolved : ResolveResult) (call : sdk.Client → Live E → Result A × Live E)
      (r : Result A) (s : Live E)
      → ((client : sdk.Client) (s : Live E) → Spares s (call client s).1)
      → Spares s (with_retry E resolved call (r, s)).1
  retry-Spares resolved call (ok a) s h = (refl, refl, refl, refl, refl)
  retry-Spares resolved call (err e) s h =
      choice-Spares (is_auth_error e) s _ _
        (again-Spares resolved call e
          (resolve sdk s.stores.agents resolved (evict sdk resolved.url s.stores.clients)) s h)
        (refl, refl, refl, refl, refl)

  health-Spares :
      (o : ConnectionOutcome) (alias : String) (s : Live E)
      → Spares s (with_stores E (outcome_health E o alias) s)
  health-Spares outcome_success alias s = (refl, refl, refl, refl, refl)
  health-Spares outcome_connection_error alias s = (refl, refl, refl, refl, refl)
  health-Spares outcome_context_canceled alias s = (refl, refl, refl, refl, refl)

  failing-Spares : (alias : String) (e : Error) (s : Live E) → Spares s (failing E alias e s)
  unfolding record_broadcast_health_outcome
  failing-Spares alias e s = health-Spares (classify_error (some e)) alias s

  -- The outcome is consistent; what a broadcast only reads stays, and one entry more says how it went.
  abbrev pub Tells : String → BroadcastMessageInput → Live E → AgentOutcome × Live E → Type 0
  Tells alias input s (o, s') =
      IsConsistent o
      × (s'.stores.agents ≡ s.stores.agents)
      × (s'.stores.contexts ≡ s.stores.contexts)
      × (s'.stores.caller_cards ≡ s.stores.caller_cards)
      × (s'.stores.inbox ≡ s.stores.inbox)
      × (s'.log ≡ record_input (broadcast_entry E alias input o.result) s.log)

  pub told-Tells :
      (alias : String) (input : BroadcastMessageInput) (s : Live E) (out : AgentOutcome × Live E)
      → IsConsistent out.0
      → Spares s out.1
      → Tells alias input s (told E alias input out)
  unfolding record_broadcast_history
  told-Tells alias input s (o, s') c (a, b, d, e, l) =
      (c, a, b, d, e, ap (record_input (broadcast_entry E alias input o.result)) l)

  pub after_stream-told :
      (alias : String) (input : BroadcastMessageInput) (s : Live E)
      (out : Result StreamResult × Live E)
      → Spares s out.1
      → Tells alias input s (told E alias input (after_stream E alias out))
  after_stream-told alias input s (err e, s') p =
      told-Tells alias input s (after_stream E alias (err e, s')) refl (
        let shown = errorf "%s" (text (error_text sprintf e) ∷ []) in
        spared s s' (failing E alias shown s') p (failing-Spares alias shown s'))
  after_stream-told alias input s (ok r, s') p =
      told-Tells alias input s (after_stream E alias (ok r, s'))
        (stream-IsConsistent r.task r.message r.terminated_by_status r.state) p

  pub after_send-told :
      (alias : String) (input : BroadcastMessageInput) (s : Live E)
      (out : Result SendMessageResult × Live E)
      → Spares s out.1
      → Tells alias input s (told E alias input (after_send E alias out))
  after_send-told alias input s (err e, s') p =
      told-Tells alias input s (after_send E alias (err e, s')) refl
        (spared s s' (failing E alias e s') p (failing-Spares alias e s'))
  after_send-told alias input s (ok r, s') p =
      told-Tells alias input s (after_send E alias (ok r, s')) (answer-IsConsistent r) p
