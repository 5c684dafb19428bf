-- ===== src/Tool/Background/Effects.antt =====
-- What an asynchronous send leaves in the inbox.
use a2a_gateway_mcp.Prelude.{
  ℕ, ◌≡◌, ◌≢◌, refl, ap, ◌∙◌, true, Option, none, some, List, [], ◌∷◌, ◌++◌, String, ◌==◌, eq_iff,
  ◌||◌, arith, keep_if, Bool-cases, inl, inr,
}
use a2a_gateway_mcp.Prelude.Int.{ℤ}
use a2a_gateway_mcp.Errors.{Error, Result, ok, err, Arg}
use a2a_gateway_mcp.A2a.{TaskState, Task}
use a2a_gateway_mcp.Registry.Inbox.{InboxEntry, MemoryInbox, deposit, stamped, peek}
use a2a_gateway_mcp.Registry.Inbox.Pruning.{peek-deposit}
use a2a_gateway_mcp.Tool.Background.{
  SendMessageResult, task_result, message_result, unrecognized_result, polled_entry,
  entry_from_task, entry_from_message, error_entry, background_send_and_poll,
}
use a2a_gateway_mcp.Tool.Poll.{Round, poll_task_completion}
use a2a_gateway_mcp.Tool.Stream.{is_terminal_or_interrupted}

alias-stamped : (now : ℕ) (e : InboxEntry) → (stamped now e).alias ≡ e.alias
unfolding stamped
alias-stamped now e = ground arith

kept_own :
    (alias : String) (e : InboxEntry)
    → e.alias ≡ alias
    → keep_if (λ f. alias == "" || f.alias == alias) (e ∷ []) ≡ e ∷ []
kept_own alias e a =
    let q : (e.alias == alias) ≡ true = (eq_iff e.alias alias).1 a in ground (arith, q)

module _ (state_name : TaskState → String) (sprintf : String → List Arg → String) where
  -- One entry of the agent comes after what its earlier entries show.
  abbrev pub Adds : ℕ → String → MemoryInbox → Option MemoryInbox → Type 0
  Adds now alias m out =
      (e : InboxEntry) × (m' : MemoryInbox) × (out ≡ some m')
      × (e.alias ≡ alias)
      × ((peek now alias m').0 ≡ (peek now alias m).0 ++ e ∷ [])

  adds :
      (now : ℕ) (alias : String) (m : MemoryInbox) (e : InboxEntry)
      → e.alias ≡ alias
      → e.timestamp ≡ 0
      → Adds now alias m (some (deposit now e m))
  adds now alias m e a z = (
    stamped now e,
    deposit now e m,
    refl,
    alias-stamped now e ∙ a,
    peek-deposit now alias e m z
        ∙ ap (λ es. (peek now alias m).0 ++ es)
            (kept_own alias (stamped now e) (alias-stamped now e ∙ a)),
  )

  polled_fields :
      (alias : String) (sent : Task) (polled : Option Task) (e : Option Error)
      → ((polled_entry state_name sprintf alias sent polled e).alias ≡ alias)
        × ((polled_entry state_name sprintf alias sent polled e).timestamp ≡ 0)
  unfolding entry_from_task
  polled_fields alias sent polled none = (refl, refl)
  polled_fields alias sent polled (some e) = (refl, refl)

  -- Where the polling has ended, with whatever outcome, an asynchronous send whose answer is
  -- recognized, an error included, adds exactly one entry to the inbox, under the name of its agent and
  -- after the entries of that agent that are there.
  pub background-deposit :
      (start : ℕ) (timeout : ℤ) (shown : String) (rounds : List Round) (now : ℕ) (alias : String)
      (response : Result SendMessageResult) (m : MemoryInbox) (end : Option Task × Option Error)
      → poll_task_completion sprintf start timeout shown rounds ≡ some end
      → response ≢ ok unrecognized_result
      → Adds now alias m (
          background_send_and_poll state_name sprintf start timeout shown rounds now alias response
            m)
  unfolding background_send_and_poll
  background-deposit start timeout shown rounds now alias (err e) m end p n =
      adds now alias m (error_entry state_name sprintf alias e) refl refl
  background-deposit start timeout shown rounds now alias (ok (message_result msg)) m end p n =
      adds now alias m (entry_from_message state_name sprintf alias msg)
        (unfold entry_from_message in refl) (unfold entry_from_message in refl)
  background-deposit start timeout shown rounds now alias (ok unrecognized_result) m end p n =
      absurd (n refl)
  background-deposit start timeout shown rounds now alias (ok (task_result task)) m end p n =
      elim (Bool-cases (is_terminal_or_interrupted task.status.state)) [
        | inl q ↦ rw q (
            adds now alias m (entry_from_task state_name sprintf alias task)
              (unfold entry_from_task in refl) (unfold entry_from_task in refl))
        | inr q ↦
            rw (q, p)
              (adds now alias m (polled_entry state_name sprintf alias task end.0 end.1)
                (polled_fields alias task end.0 end.1).0 (polled_fields alias task end.0 end.1).1)
      ]
