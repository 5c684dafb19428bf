-- ===== src/Tool/Send/Conversation.antt =====
-- The conversation with an agent over several messages: the context of an answer goes out with the
-- next message, and what an answer without an error is.
use a2a_gateway_mcp.Prelude.{
  ℕ, ◌≡◌, refl, ap, ◌∙◌, sym, true, false, Option, none, some, String, ◌==◌, if◌then◌else◌, eq_refl,
  Bool-cases, inl, inr,
}
use a2a_gateway_mcp.Errors.{ok}
use a2a_gateway_mcp.A2a.{Message, Task}
use a2a_gateway_mcp.Registry.Contexts
use a2a_gateway_mcp.Registry.Resolved.{ResolveResult}
use a2a_gateway_mcp.Tool.Background.{SendMessageResult, task_result, message_result}
use a2a_gateway_mcp.Tool.Send.{Environment, SendMessageInput, SendRequest, Live, build_send_request}
use a2a_gateway_mcp.Tool.Send.Answer.{
  recorded, is_pending, keeping, record_history, process_response,
}
use a2a_gateway_mcp.Tool.Send.Composition.{build-request}
use a2a_gateway_mcp.Tool.Send.Polled.{at_once}
use a2a_gateway_mcp.Tool.Stream.Handling.{Handled}

-- The answer is a message, or a task that is not polled, in the given context.
pub data Answers : String → SendMessageResult → Type 0 where
  by_message : (msg : Message) → Answers (msg.context_id) (message_result msg)
  by_task :
      (task : Task)
      → is_pending task.status.state ≡ false
      → Answers (task.context_id) (task_result task)

module _ (E : Environment) where
  keeping-get :
      (resolved : ResolveResult) (agent context_id : String) (s : Live E)
      → resolved.is_alias ≡ true
      → Contexts.get agent (keeping E resolved agent context_id s).stores.contexts
        ≡ (if context_id == "" then Contexts.get agent s.stores.contexts else context_id)
  keeping-get resolved agent context_id s q = elim (Bool-cases (context_id == "")) [
    | inl e ↦ rw (q, e) refl
    | inr e ↦
        rw (q, e)
          (Contexts.get-set agent agent context_id s.stores.contexts ∙ rw (e, eq_refl agent) refl)
  ]

  -- The answer is handled, and the store has its context, or keeps the one before.
  process-context :
      (input : SendMessageInput) (sr : SendRequest E) (context_id : String)
      (answer : SendMessageResult) (s : Live E)
      → Answers context_id answer
      → sr.resolved.is_alias ≡ true
      → (h : Handled) × (s' : Live E) × (process_response E input sr answer s ≡ some (h, s'))
        × (Contexts.get input.agent s'.stores.contexts
            ≡ (if context_id == "" then Contexts.get input.agent s.stores.contexts else context_id))
  unfolding process_response record_history
  process-context input sr _ _ s (by_message msg) q =
      (_, _, refl, keeping-get sr.resolved input.agent msg.context_id s q)
  process-context input sr _ _ s (by_task task settles) q = (
    _,
    _,
    ap (recorded E input) (
        at_once E sr.client task sr.resolved input.agent
          (E.effective_poll_timeout input.poll_timeout_seconds) s settles),
    keeping-get sr.resolved input.agent task.context_id s q,
  )

  state_of : Option (Handled × Live E) → Live E → Live E
  state_of none s = s
  state_of (some (h, s')) s = s'

  -- After an answer, the next message to the same alias that has no context of its own goes out with
  -- the context of that answer, or with the one before if the answer has none.
  pub next-context :
      (now : ℕ) (input next : SendMessageInput) (sr sr' : SendRequest E) (context_id : String)
      (answer : SendMessageResult) (h : Handled) (s s' : Live E)
      → Answers context_id answer
      → sr.resolved.is_alias ≡ true
      → process_response E input sr answer s ≡ some (h, s')
      → next.agent ≡ input.agent
      → next.context_id ≡ ""
      → sr'.resolved.is_alias ≡ true
      → (build_send_request E now next s'.stores).0 ≡ ok sr'
      → sr'.request.message.context_id
        ≡ (if context_id == "" then Contexts.get input.agent s.stores.contexts else context_id)
  unfolding state_of
  next-context now input next sr sr' context_id answer h s s' a q e same none_given q' built =
      let (h₂, s₂, e₂, kept) = process-context input sr context_id answer s a q in
      let here : s₂ ≡ s' = ap (λ out. state_of out s) (sym e₂ ∙ e) in
      (build-request E now next s'.stores sr' built).4
      ∙ rw (none_given, q', same)
          (ap (λ t. Contexts.get input.agent t.stores.contexts) (sym here) ∙ kept)
