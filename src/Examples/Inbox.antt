-- ===== src/Examples/Inbox.antt =====
-- The inbox with three entries of two agents, read at time 12.
use a2a_gateway_mcp.Prelude.Int.{ℤ, pos}
use a2a_gateway_mcp.Prelude.{
  ℕ, ◌≡◌, refl, Bool, true, false, Option, none, some, [], ◌∷◌, String, keep_if, take, drop, inl,
}
use a2a_gateway_mcp.Registry.Inbox.{
  InboxEntry, InboxPopOptions, MemoryInbox, new_memory_inbox, pop, is_of,
}
use a2a_gateway_mcp.Registry.Inbox.Reading.{live_of, pop_fifo, pop_drain, drained}
use a2a_gateway_mcp.Registry.Inbox.Order.{IsOrderly, clock, run, run-IsOrderly, deposits}

abbrev entry : String → ℕ → InboxEntry
entry alias timestamp = record {
  alias = alias;
  task_id = "";
  context_id = "";
  state = "completed";
  timestamp = timestamp;
  task = none;
  message = none;
  error = "";
}

abbrev box : MemoryInbox
box = record { entries = entry "a" 5 ∷ (entry "ab" 6 ∷ (entry "a" 7 ∷ [])); ttl = pos 10 }

abbrev reading : Option ℤ → Bool → InboxPopOptions
reading length latest = record { alias = "a"; length = length; latest = latest }

pop_fifo_example :
    ((pop 12 (reading (some (pos 1)) false) box).0 ≡ some (take 1 (live_of "a" 12 box)))
    × (keep_if (is_of "a") (pop 12 (reading (some (pos 1)) false) box).1.entries
        ≡ drop 1 (live_of "a" 12 box))
    × (keep_if (is_of "ab") (pop 12 (reading (some (pos 1)) false) box).1.entries
        ≡ live_of "ab" 12 box)
pop_fifo_example = pop_fifo 12 (reading (some (pos 1)) false) 1 box "ab" refl refl (λ e. cc e)

pop_drain_example :
    ((pop 12 (reading none true) box).0 ≡ some (drained true (live_of "a" 12 box)))
    × (keep_if (is_of "a") (pop 12 (reading none true) box).1.entries ≡ [])
    × (keep_if (is_of "ab") (pop 12 (reading none true) box).1.entries ≡ live_of "ab" 12 box)
pop_drain_example = pop_drain 12 (reading none true) box "ab" (inl refl) (λ e. cc e)

run-IsOrderly_example :
    IsOrderly
      (clock 3 ((1, deposits (entry "a" 0)) ∷ ((4, deposits (entry "ab" 0)) ∷ [])))
      (run 3
        ((1, deposits (entry "a" 0)) ∷ ((4, deposits (entry "ab" 0)) ∷ []))
        (new_memory_inbox (pos 10))).entries
run-IsOrderly_example =
    run-IsOrderly 3 (pos 10) ((1, deposits (entry "a" 0)) ∷ ((4, deposits (entry "ab" 0)) ∷ []))
      (refl, (refl, tt))
