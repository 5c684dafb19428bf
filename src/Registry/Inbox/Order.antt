-- ===== src/Registry/Inbox/Order.antt =====
-- The order of the entries, over any sequence of calls while the clock does not go back.
use a2a_gateway_mcp.Prelude.{
  All-drop, ℕ, ◌+◌, ◌≤◌, ◌≡◌, Bool, false, Option, none, some, List, [], ◌∷◌, ◌++◌, arith, keep_if,
  All, Bool-cases, inl, inr, drop, length, String,
}
use a2a_gateway_mcp.Prelude.Int.{ℤ, pos, negsuc, is_le_zero}
use a2a_gateway_mcp.Registry.Inbox.{
  InboxEntry, InboxPopOptions, MemoryInbox, new_memory_inbox, stamped, deposit, is_live,
  prune_expired, peek, is_of, not_of, merge, capped, pop_matched, pop,
}
use a2a_gateway_mcp.Registry.Inbox.Chronology.{
  IsChronological, All-kept, kept-IsChronological, drop-IsChronological, All-merge,
  merge-IsChronological,
}

-- The entries are in chronological order, and none is of the future.
pub record IsOrderly (now : ℕ) (es : List InboxEntry) : Type 0 where
  pub chronological : IsChronological es
  pub past : All (λ e. e.timestamp ≤ now) es

kept-IsOrderly :
    (now : ℕ) (p : InboxEntry → Bool) (es : List InboxEntry)
    → IsOrderly now es
    → IsOrderly now (keep_if p es)
kept-IsOrderly now p es h = record {
  chronological = kept-IsChronological p es h.chronological;
  past = All-kept (λ e. e.timestamp ≤ now) p es h.past;
}

merge-IsOrderly :
    (now n : ℕ) (rs ks : List InboxEntry)
    → IsOrderly now rs
    → IsOrderly now ks
    → IsOrderly now (merge rs (drop n ks))
merge-IsOrderly now n rs ks h k = record {
  chronological =
      merge-IsChronological rs (drop n ks) h.chronological
        (drop-IsChronological n ks k.chronological);
  past =
      All-merge (λ e. e.timestamp ≤ now) rs (drop n ks) h.past
        (All-drop (λ e. e.timestamp ≤ now) n ks k.past);
}

prune-IsOrderly :
    (now : ℕ) (m : MemoryInbox)
    → IsOrderly now m.entries
    → IsOrderly now (prune_expired now m).entries
unfolding prune_expired
prune-IsOrderly now m h = elim (Bool-cases (is_le_zero m.ttl)) [
  | inl q ↦ rw q h
  | inr q ↦ rw q (kept-IsOrderly now (is_live now m.ttl) m.entries h)
]

pop_matched-IsOrderly :
    (now : ℕ) (opts : InboxPopOptions) (m : MemoryInbox) (mine rest : List InboxEntry)
    → IsOrderly now m.entries
    → IsOrderly now mine
    → IsOrderly now rest
    → IsOrderly now (pop_matched opts m mine rest).1.entries
unfolding pop_matched
pop_matched-IsOrderly now opts m [] rest h k r = h
pop_matched-IsOrderly now opts m (e ∷ mine) rest h k r = elim (Bool-cases opts.latest) [
  | inl q ↦ rw q r
  | inr q ↦ rw q (by_length opts.length)
]
  where
    by_length :
        (l : Option ℤ)
        → IsOrderly now
            (pop_matched (record opts { latest = false; length = l }) m (e ∷ mine) rest).1.entries
    by_length none = r
    by_length (some (pos n)) =
        merge-IsOrderly now (capped n (length (e ∷ mine))) rest (e ∷ mine) r k
    by_length (some (negsuc n)) = h

pop-IsOrderly :
    (now : ℕ) (opts : InboxPopOptions) (m : MemoryInbox)
    → IsOrderly now m.entries
    → IsOrderly now (pop now opts m).1.entries
unfolding pop
pop-IsOrderly now opts m h =
    let m' = prune_expired now m in
    let h' = prune-IsOrderly now m h in
    pop_matched-IsOrderly now opts m' (keep_if (is_of opts.alias) m'.entries)
      (keep_if (not_of opts.alias) m'.entries) h'
      (kept-IsOrderly now (is_of opts.alias) m'.entries h')
      (kept-IsOrderly now (not_of opts.alias) m'.entries h')

All_snoc :
    (P : InboxEntry → Type 0) (es : List InboxEntry) (e : InboxEntry)
    → All P es
    → P e
    → All P (es ++ e ∷ [])
All_snoc P [] e h q = (q, tt)
All_snoc P (f ∷ es) e h q = (h.0, All_snoc P es e h.1 q)

snoc-IsChronological :
    (es : List InboxEntry) (e : InboxEntry)
    → IsChronological es
    → All (λ f. f.timestamp ≤ e.timestamp) es
    → IsChronological (es ++ e ∷ [])
snoc-IsChronological [] e h q = (tt, tt)
snoc-IsChronological (f ∷ es) e h q =
    (All_snoc (λ g. f.timestamp ≤ g.timestamp) es e h.0 q.0, snoc-IsChronological es e h.1 q.1)

timestamp-stamped : (now : ℕ) (e : InboxEntry) → e.timestamp ≡ 0 → (stamped now e).timestamp ≡ now
unfolding stamped
timestamp-stamped now e z = ground arith

deposit-IsOrderly :
    (now : ℕ) (e : InboxEntry) (m : MemoryInbox)
    → e.timestamp ≡ 0
    → IsOrderly now m.entries
    → IsOrderly now (deposit now e m).entries
unfolding deposit
deposit-IsOrderly now e m z h = record {
  chronological =
      snoc-IsChronological m.entries (stamped now e) h.chronological
        (rw (timestamp-stamped now e z) h.past);
  past =
      All_snoc (λ f. f.timestamp ≤ now) m.entries (stamped now e) h.past
        (omega (arith, timestamp-stamped now e z));
}

-- A call on the inbox.
pub data Call : Type 0 where
  deposits : InboxEntry → Call
  peeks : String → Call
  pops : InboxPopOptions → Call

unfoldable pub step : ℕ → Call → MemoryInbox → MemoryInbox
step now (deposits e) m = deposit now e m
step now (peeks alias) m = (peek now alias m).1
step now (pops opts) m = (pop now opts m).1

-- An entry is deposited with no time of its own, as the program does it.
abbrev pub IsUnstamped : Call → Type 0
IsUnstamped (deposits e) = e.timestamp ≡ 0
IsUnstamped (peeks alias) = Unit
IsUnstamped (pops opts) = Unit

-- Each call comes some time after the one before it.
unfoldable pub run : ℕ → List (ℕ × Call) → MemoryInbox → MemoryInbox
run now [] m = m
run now ((wait, c) ∷ cs) m = run (now + wait) cs (step (now + wait) c m)

-- The clock at the end of the calls.
unfoldable pub clock : ℕ → List (ℕ × Call) → ℕ
clock now [] = now
clock now ((wait, c) ∷ cs) = clock (now + wait) cs

later :
    (now wait : ℕ) (es : List InboxEntry)
    → All (λ e. e.timestamp ≤ now) es
    → All (λ e. e.timestamp ≤ now + wait) es
later now wait [] h = tt
later now wait (e ∷ es) h = (omega (arith, h.0), later now wait es h.1)

step-IsOrderly :
    (now : ℕ) (c : Call) (m : MemoryInbox)
    → IsUnstamped c
    → IsOrderly now m.entries
    → IsOrderly now (step now c m).entries
unfolding step peek
step-IsOrderly now (deposits e) m z h = deposit-IsOrderly now e m z h
step-IsOrderly now (peeks alias) m z h = prune-IsOrderly now m h
step-IsOrderly now (pops opts) m z h = pop-IsOrderly now opts m h

run-IsOrderly' :
    (now : ℕ) (cs : List (ℕ × Call)) (m : MemoryInbox)
    → All (λ c. IsUnstamped c.1) cs
    → IsOrderly now m.entries
    → IsOrderly (clock now cs) (run now cs m).entries
unfolding run clock
run-IsOrderly' now [] m z h = h
run-IsOrderly' now ((wait, c) ∷ cs) m z h =
    run-IsOrderly' (now + wait) cs (step (now + wait) c m) z.1 (
      step-IsOrderly (now + wait) c m z.0
        (record { chronological = h.chronological; past = later now wait m.entries h.past }))

-- After any calls on a new inbox, deposits of entries with no time of their own, looks and reads in
-- whatever order, while the clock does not go back, the entries are in chronological order and none
-- is later than the clock.
pub run-IsOrderly :
    (now : ℕ) (ttl : ℤ) (cs : List (ℕ × Call))
    → All (λ c. IsUnstamped c.1) cs
    → IsOrderly (clock now cs) (run now cs (new_memory_inbox ttl)).entries
unfolding new_memory_inbox
run-IsOrderly now ttl cs z =
    run-IsOrderly' now cs (new_memory_inbox ttl) z (record { chronological = tt; past = tt })
