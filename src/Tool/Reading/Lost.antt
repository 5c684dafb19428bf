-- ===== src/Tool/Reading/Lost.antt =====
-- What becomes of an asynchronous send that fails, when its agent's messages are read.
use a2a_gateway_mcp.Prelude.{
  ℕ, suc, ◌+◌, ◌≤◌, ◌≡◌, ◌≢◌, refl, ap, ◌∙◌, sym, false, Option, none, some, List, [], ◌∷◌, String,
  eq_refl, arith, le→leb,
}
use a2a_gateway_mcp.Prelude.Int.{ℤ, pos}
use a2a_gateway_mcp.A2a.{TaskState}
use a2a_gateway_mcp.Errors.{Error, Arg, ok, err}
use a2a_gateway_mcp.Registry.Inbox.{
  InboxEntry, MemoryInbox, new_memory_inbox, stamped, deposit, is_live, prune_expired, pop,
  pop_matched,
}
use a2a_gateway_mcp.Tool.Background.{background_send_and_poll, error_entry}
use a2a_gateway_mcp.Tool.Poll.{Round}
use a2a_gateway_mcp.Tool.Reading.{read_inbox, ReadInboxInput}
use a2a_gateway_mcp.Tool.Reading.Effects.{unnamed}

module _ (state_name : TaskState → String) (sprintf : String → List Arg → String) where
  -- All that the agent has sent.
  abbrev pub everything_of : String → ReadInboxInput
  everything_of alias = record { alias = alias; length = none; latest = false }

  read_one :
      (now : ℕ) (e : InboxEntry) (m : MemoryInbox)
      → e.alias ≢ ""
      → (prune_expired now m).entries ≡ e ∷ []
      → (read_inbox now (everything_of e.alias) m).0
        ≡ some (ok (record { message = e.message; task = e.task; async = none } ∷ []))
  unfolding read_inbox pop pop_matched
  read_one now e m named h = rw (unnamed e.alias named, h, eq_refl e.alias) refl

  present : Option MemoryInbox → MemoryInbox → MemoryInbox
  present none m = m
  present (some m) other = m

  kept_alive :
      (later now t : ℕ) (e : InboxEntry)
      → e.timestamp ≡ now
      → later ≤ now + suc t
      → (prune_expired later (record { entries = e ∷ []; ttl = pos (suc t) })).entries ≡ e ∷ []
  unfolding prune_expired is_live
  kept_alive later now t e stamp live = ground (arith, le→leb later (now + suc t) live)

  -- A send that failed in the background is, in an inbox that was empty, one entry; when it is read
  -- before it expires, the answer is one message with neither a task nor a message nor an error: the
  -- text of the error is lost.
  pub error_lost :
      (start now later t : ℕ) (timeout : ℤ) (shown alias : String) (rounds : List Round) (e : Error)
      (m : MemoryInbox)
      → alias ≢ ""
      → later ≤ now + suc t
      → background_send_and_poll state_name sprintf start timeout shown rounds now alias
          (err e)
          (new_memory_inbox (pos (suc t)))
        ≡ some m
      → (read_inbox later (everything_of alias) m).0
        ≡ some (ok (record { message = none; task = none; async = none } ∷ []))
  unfolding background_send_and_poll new_memory_inbox deposit stamped present
  error_lost start now later t timeout shown alias rounds e m named live h =
      let stored = stamped now (error_entry state_name sprintf alias e) in
      let made : record { entries = stored ∷ []; ttl = pos (suc t) } ≡ m =
        ap (λ o. present o m) h in
      ap (λ n. (read_inbox later (everything_of alias) n).0) (sym made)
      ∙ read_one later stored (record { entries = stored ∷ []; ttl = pos (suc t) }) named
          (kept_alive later now t stored refl live)
