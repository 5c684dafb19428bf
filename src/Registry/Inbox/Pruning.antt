-- ===== src/Registry/Inbox/Pruning.antt =====
-- What the lazy pruning leaves, and what a deposit adds to what is seen.
use a2a_gateway_mcp.Prelude.{
  ℕ, ◌≡◌, true, false, [], ◌∷◌, ◌++◌, String, ◌==◌, ◌||◌, arith, keep_if, keep_if-append,
  All-keep_if, All, Bool-cases, inl, inr, ◌<◌,
}
use a2a_gateway_mcp.Prelude.Int.{ℤ, pos, is_le_zero}
use a2a_gateway_mcp.Registry.Inbox.{
  InboxEntry, MemoryInbox, stamped, deposit, is_live, prune_expired, peek,
}

is_le_zero-pos : (t : ℕ) → 0 < t → is_le_zero (pos t) ≡ false
is_le_zero-pos t h = ground arith

-- An entry stamped now is not expired.
is_live-stamped :
    (now : ℕ) (ttl : ℤ) (e : InboxEntry) → e.timestamp ≡ 0 → is_live now ttl (stamped now e) ≡ true
unfolding is_live stamped
is_live-stamped now ttl e z = ground arith

entries-prune-deposit :
    (now : ℕ) (e : InboxEntry) (m : MemoryInbox)
    → e.timestamp ≡ 0
    → (prune_expired now (deposit now e m)).entries
      ≡ (prune_expired now m).entries ++ stamped now e ∷ []
unfolding prune_expired deposit
entries-prune-deposit now e m z = elim (Bool-cases (is_le_zero m.ttl)) [
  | inl b ↦ rw b
  | inr b ↦
      rw (b, keep_if-append (is_live now m.ttl) m.entries (stamped now e ∷ []))
        (ground (arith, is_live-stamped now m.ttl e z))
]

-- With a positive lifetime nothing that is left is older than it.
pub prune_expired_live :
    (now t : ℕ) (m : MemoryInbox)
    → m.ttl ≡ pos t
    → 0 < t
    → All (λ e. is_live now (pos t) e ≡ true) (prune_expired now m).entries
unfolding prune_expired
prune_expired_live now t m e h =
    rw (e, is_le_zero-pos t h) (All-keep_if (is_live now (pos t)) m.entries)

-- A new entry with no time of its own comes last in every later look at its agent's entries, and
-- all that was seen before is still seen.
pub peek-deposit :
    (now : ℕ) (alias : String) (e : InboxEntry) (m : MemoryInbox)
    → e.timestamp ≡ 0
    → (peek now alias (deposit now e m)).0
      ≡ (peek now alias m).0 ++ keep_if (λ f. alias == "" || f.alias == alias) (stamped now e ∷ [])
unfolding peek
peek-deposit now alias e m z = rw (entries-prune-deposit now e m z) (
    keep_if-append (λ f. alias == "" || f.alias == alias) (prune_expired now m).entries
      (stamped now e ∷ []))
