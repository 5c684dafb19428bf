-- ===== src/Registry/Inbox.antt =====
-- registry/inbox.go: the inbox of asynchronous responses. A time is a number of nanoseconds, 0 for
-- Go's zero time; the clock's reading is an argument of each call. The mutex makes each call one
-- step.
pub mod Pruning
pub mod Reading
pub mod Chronology
pub mod Order
use a2a_gateway_mcp.Prelude.{
  ℕ, zero, suc, ◌+◌, Bool, true, false, not, Option, none, some, List, [], ◌∷◌, ◌++◌, String, ◌==◌,
  if◌then◌else◌, ltb, leb, nat_eq, length, take, drop, keep_if, ◌||◌,
}
use a2a_gateway_mcp.Prelude.Int.{ℤ, pos, negsuc, is_le_zero}
use a2a_gateway_mcp.A2a.{Task, Message}

pub record InboxEntry : Type 0 where
  pub alias : String
  pub task_id : String
  pub context_id : String
  pub state : String
  pub timestamp : ℕ
  pub task : Option Task
  pub message : Option Message
  pub error : String

pub record InboxPopOptions : Type 0 where
  pub alias : String
  pub length : Option ℤ
  pub latest : Bool

pub record MemoryInbox : Type 0 where
  pub entries : List InboxEntry
  pub ttl : ℤ

unfoldable pub new_memory_inbox : ℤ → MemoryInbox
new_memory_inbox ttl = record { entries = []; ttl = ttl }

-- The entry as it is stored: one with no time gets the present one.
unfoldable pub stamped : ℕ → InboxEntry → InboxEntry
stamped now entry = if nat_eq entry.timestamp 0 then record entry { timestamp = now } else entry

unfoldable pub deposit : ℕ → InboxEntry → MemoryInbox → MemoryInbox
unfolding stamped
deposit now entry m = record m { entries = m.entries ++ stamped now entry ∷ [] }

-- !e.Timestamp.Before(now - ttl)
unfoldable pub is_live : ℕ → ℤ → InboxEntry → Bool
is_live now ttl e = elim ttl [ pos t ↦ leb now (e.timestamp + t) | negsuc t ↦ true ]

unfoldable pub prune_expired : ℕ → MemoryInbox → MemoryInbox
unfolding is_live
prune_expired now m =
    if is_le_zero m.ttl then m else record m { entries = keep_if (is_live now m.ttl) m.entries }

-- A filter with no name lets every agent pass.
unfoldable pub peek : ℕ → String → MemoryInbox → List InboxEntry × MemoryInbox
unfolding prune_expired
peek now alias m =
    let m' = prune_expired now m in (keep_if (λ e. alias == "" || e.alias == alias) m'.entries, m')

abbrev pub is_of : String → InboxEntry → Bool
is_of alias e = e.alias == alias

abbrev pub not_of : String → InboxEntry → Bool
not_of alias e = not (e.alias == alias)

-- The loop that rebuilds the entries from those of other agents and those kept.
unfoldable pub merge : List InboxEntry → List InboxEntry → List InboxEntry
merge [] kept = kept
merge (r ∷ remaining) [] = r ∷ remaining
merge (r ∷ remaining) (k ∷ kept) =
    let left = r ∷ merge remaining (k ∷ kept) in
    let right = k ∷ merge (r ∷ remaining) kept in
    if leb r.timestamp k.timestamp then left else right

-- matched[len(matched)-1], of a list that is not empty
abbrev pub last_of : InboxEntry → List InboxEntry → InboxEntry
last_of e [] = e
last_of e (f ∷ fs) = last_of f fs

-- if n > len(matched) { n = len(matched) }
abbrev pub capped : ℕ → ℕ → ℕ
capped n len = if ltb len n then len else n

-- The switch over the options; `none` is the run-time panic of a slice bound below 0.
unfoldable pub pop_matched :
    InboxPopOptions
    → MemoryInbox
    → List InboxEntry
    → List InboxEntry
    → Option (List InboxEntry) × MemoryInbox
unfolding merge
pop_matched opts m [] remaining = (some [], m)
pop_matched opts m (e ∷ matched) remaining =
    if opts.latest
    then (some (last_of e matched ∷ []), record m { entries = remaining })
    else elim opts.length [
      | none ↦ (some (e ∷ matched), record m { entries = remaining })
      | some (pos n) ↦ (
        some (take (capped n (length (e ∷ matched))) (e ∷ matched)),
        record m {
          entries = merge remaining (drop (capped n (length (e ∷ matched))) (e ∷ matched));
        },
      )
      | some (negsuc n) ↦ (none, m)
    ]

unfoldable pub pop : ℕ → InboxPopOptions → MemoryInbox → Option (List InboxEntry) × MemoryInbox
unfolding prune_expired pop_matched
pop now opts m =
    let m' = prune_expired now m in
    pop_matched opts m' (keep_if (is_of opts.alias) m'.entries)
      (keep_if (not_of opts.alias) m'.entries)
