-- ===== src/Registry/Inbox/Reading.antt =====
-- Destructive reads: what is returned, what stays, and what other agents keep.
use a2a_gateway_mcp.Prelude.{
  none, ◌⊎◌, take-nil, All-drop, keep_if_all, drop-nil, sym, drop_all, take_all, ◌∙◌, ltb, length,
  some, drop, take, true, All-keep_if, ℕ, keep_if_none, ◌≡◌, ◌≢◌, refl, Bool, false, List, [], ◌∷◌,
  String, ◌==◌, eq_iff, arith, keep_if, All, Bool-cases, inl, inr,
}
use a2a_gateway_mcp.Registry.Inbox.{
  negsuc, last_of, prune_expired, pop, pop_matched, pos, capped, InboxPopOptions, MemoryInbox,
  InboxEntry, is_of, not_of, merge,
}

module _ (p : InboxEntry → Bool) where
  -- Merged with entries that fail the test, a list keeps its own.
  keep_if-merge :
      (rs ks : List InboxEntry) → All (λ e. p e ≡ false) rs → keep_if p (merge rs ks) ≡ keep_if p ks
  unfolding merge
  keep_if-merge [] ks h = refl
  keep_if-merge (r ∷ rs) [] h = keep_if_none p (r ∷ rs) h
  keep_if-merge (r ∷ rs) (k ∷ ks) h =
      ground (arith, h.0, keep_if-merge rs (k ∷ ks) h.1, keep_if-merge (r ∷ rs) ks h)

  keep_if-merge_left :
      (rs ks : List InboxEntry) → All (λ e. p e ≡ false) ks → keep_if p (merge rs ks) ≡ keep_if p rs
  unfolding merge
  keep_if-merge_left [] ks h = keep_if_none p ks h
  keep_if-merge_left (r ∷ rs) [] h = refl
  keep_if-merge_left (r ∷ rs) (k ∷ ks) h =
      ground (arith, h.0, keep_if-merge_left rs (k ∷ ks) h, keep_if-merge_left (r ∷ rs) ks h.1)

module _ (alias : String) where
  not_of_none :
      (es : List InboxEntry) → All (λ e. is_of alias e ≡ false) (keep_if (not_of alias) es)
  not_of_none [] = tt
  not_of_none (e ∷ es) = elim (Bool-cases (e.alias == alias)) [
    | inl b ↦ rw b (not_of_none es)
    | inr b ↦ rw b (b, not_of_none es)
  ]

  -- For another agent the entries that are not of this one are all.
  keep_if-not_of :
      (b : String) (es : List InboxEntry)
      → b ≢ alias
      → keep_if (is_of b) (keep_if (not_of alias) es) ≡ keep_if (is_of b) es
  keep_if-not_of b [] h = refl
  keep_if-not_of b (e ∷ es) h =
      ground (arith, keep_if-not_of b es h, eq_iff e.alias b, eq_iff e.alias alias)

  is_of_none :
      (b : String) (es : List InboxEntry)
      → b ≢ alias
      → All (λ e. is_of b e ≡ false) (keep_if (is_of alias) es)
  is_of_none b [] h = tt
  is_of_none b (e ∷ es) h = elim (Bool-cases (e.alias == alias)) [
    | inl q ↦ rw q (ground (arith, eq_iff e.alias b, eq_iff e.alias alias), is_of_none b es h)
    | inr q ↦ rw q (is_of_none b es h)
  ]

-- `mine` and `rest` split the entries of the inbox `m` between one agent and the others.
record Splits (alias : String) (m : MemoryInbox) (mine rest : List InboxEntry) : Type 0 where
  mine_only : All (λ e. is_of alias e ≡ true) mine
  rest_only : All (λ e. is_of alias e ≡ false) rest
  mine_all : keep_if (is_of alias) m.entries ≡ mine
  mine_none : (b : String) → b ≢ alias → All (λ e. is_of b e ≡ false) mine
  rest_all : (b : String) → b ≢ alias → keep_if (is_of b) rest ≡ keep_if (is_of b) m.entries

own-Splits :
    (alias : String) (m : MemoryInbox)
    → Splits alias m (keep_if (is_of alias) m.entries) (keep_if (not_of alias) m.entries)
own-Splits alias m = record {
  mine_only = All-keep_if (is_of alias) m.entries;
  rest_only = not_of_none alias m.entries;
  mine_all = refl;
  mine_none = λ b h. is_of_none alias b m.entries h;
  rest_all = λ b h. keep_if-not_of alias b m.entries h;
}

take-capped : (n : ℕ) (es : List InboxEntry) → take (capped n (length es)) es ≡ take n es
take-capped n es = elim (Bool-cases (ltb (length es) n)) [
  | inl e ↦ rw (e, take_all n es (ground arith), take_all (length es) es (omega arith))
  | inr e ↦ rw e
]

drop-capped : (n : ℕ) (es : List InboxEntry) → drop (capped n (length es)) es ≡ drop n es
drop-capped n es = elim (Bool-cases (ltb (length es) n)) [
  | inl e ↦ rw (e, drop_all n es (ground arith), drop_all (length es) es (omega arith))
  | inr e ↦ rw e
]

module _ (opts : InboxPopOptions) (n : ℕ) (fifo : opts.latest ≡ false)
    (bound : opts.length ≡ some (pos n)) where
  pop_matched_fifo :
      (m : MemoryInbox) (mine rest : List InboxEntry)
      → Splits opts.alias m mine rest
      → ((pop_matched opts m mine rest).0 ≡ some (take n mine))
        × (keep_if (is_of opts.alias) (pop_matched opts m mine rest).1.entries ≡ drop n mine)
        × ((b : String)
            → b ≢ opts.alias
            → keep_if (is_of b) (pop_matched opts m mine rest).1.entries
              ≡ keep_if (is_of b) m.entries)
  unfolding pop_matched
  pop_matched_fifo m [] rest s = (rw (take-nil n), s.mine_all ∙ sym (drop-nil n), λ b h. refl)
  pop_matched_fifo m (e ∷ mine) rest s = (
    rw (fifo, bound, take-capped n (e ∷ mine)),
    rw (fifo, bound, drop-capped n (e ∷ mine))
        (keep_if-merge (is_of opts.alias) rest (drop n (e ∷ mine)) s.rest_only
          ∙ keep_if_all (is_of opts.alias) (drop n (e ∷ mine))
              (All-drop (λ f. is_of opts.alias f ≡ true) n (e ∷ mine) s.mine_only)),
    λ b h.
        rw (fifo, bound, drop-capped n (e ∷ mine))
          (keep_if-merge_left (is_of b) rest (drop n (e ∷ mine))
              (All-drop (λ f. is_of b f ≡ false) n (e ∷ mine) (s.mine_none b h))
            ∙ s.rest_all b h),
  )

-- The live entries of an agent, in order.
abbrev pub live_of : String → ℕ → MemoryInbox → List InboxEntry
live_of alias now m = keep_if (is_of alias) (prune_expired now m).entries

read_fifo :
    (now : ℕ) (opts : InboxPopOptions) (n : ℕ) (m : MemoryInbox)
    → opts.latest ≡ false
    → opts.length ≡ some (pos n)
    → ((pop now opts m).0 ≡ some (take n (live_of opts.alias now m)))
      × (keep_if (is_of opts.alias) (pop now opts m).1.entries ≡ drop n (live_of opts.alias now m))
      × ((b : String)
          → b ≢ opts.alias
          → keep_if (is_of b) (pop now opts m).1.entries ≡ live_of b now m)
unfolding pop
read_fifo now opts n m fifo bound =
    let m' = prune_expired now m in
    pop_matched_fifo opts n fifo bound m' (keep_if (is_of opts.alias) m'.entries)
      (keep_if (not_of opts.alias) m'.entries) (own-Splits opts.alias m')

-- With a length of n that is not negative and without `latest`, a read returns the agent's n oldest
-- live entries, in order; its later ones stay, in order; and an agent b of another name
-- keeps its live entries, in order.
pub pop_fifo :
    (now : ℕ) (opts : InboxPopOptions) (n : ℕ) (m : MemoryInbox) (b : String)
    → opts.latest ≡ false
    → opts.length ≡ some (pos n)
    → b ≢ opts.alias
    → ((pop now opts m).0 ≡ some (take n (live_of opts.alias now m)))
      × (keep_if (is_of opts.alias) (pop now opts m).1.entries ≡ drop n (live_of opts.alias now m))
      × (keep_if (is_of b) (pop now opts m).1.entries ≡ live_of b now m)
pop_fifo now opts k m b fifo bound n =
    let (taken, kept, others) = read_fifo now opts k m fifo bound in (taken, kept, others b n)

-- What a read that drains an agent returns.
abbrev pub drained : Bool → List InboxEntry → List InboxEntry
drained latest [] = []
drained true (e ∷ es) = last_of e es ∷ []
drained false (e ∷ es) = e ∷ es

pop_matched_drain :
    (opts : InboxPopOptions) (m : MemoryInbox) (mine rest : List InboxEntry)
    → (opts.latest ≡ true) ⊎ (opts.length ≡ none)
    → Splits opts.alias m mine rest
    → ((pop_matched opts m mine rest).0 ≡ some (drained opts.latest mine))
      × (keep_if (is_of opts.alias) (pop_matched opts m mine rest).1.entries ≡ [])
      × ((b : String)
          → b ≢ opts.alias
          → keep_if (is_of b) (pop_matched opts m mine rest).1.entries
            ≡ keep_if (is_of b) m.entries)
unfolding pop_matched
pop_matched_drain opts m [] rest h s = (ground arith, s.mine_all, λ b h. refl)
pop_matched_drain opts m (e ∷ mine) rest (inl h) s =
    (rw h, rw h (keep_if_none (is_of opts.alias) rest s.rest_only), λ b n. rw h (s.rest_all b n))
pop_matched_drain opts m (e ∷ mine) rest (inr h) s = elim (Bool-cases opts.latest) [
  | inl t ↦
      (rw t, rw t (keep_if_none (is_of opts.alias) rest s.rest_only), λ b n. rw t (s.rest_all b n))
  | inr f ↦ (
    rw (f, h),
    rw (f, h) (keep_if_none (is_of opts.alias) rest s.rest_only),
    λ b n. rw (f, h) (s.rest_all b n),
  )
]

read_drain :
    (now : ℕ) (opts : InboxPopOptions) (m : MemoryInbox)
    → (opts.latest ≡ true) ⊎ (opts.length ≡ none)
    → ((pop now opts m).0 ≡ some (drained opts.latest (live_of opts.alias now m)))
      × (keep_if (is_of opts.alias) (pop now opts m).1.entries ≡ [])
      × ((b : String)
          → b ≢ opts.alias
          → keep_if (is_of b) (pop now opts m).1.entries ≡ live_of b now m)
unfolding pop
read_drain now opts m h =
    let m' = prune_expired now m in
    pop_matched_drain opts m' (keep_if (is_of opts.alias) m'.entries)
      (keep_if (not_of opts.alias) m'.entries) h (own-Splits opts.alias m')

-- With `latest`, or with no length, a read takes all live entries of the agent: it returns the last
-- one with `latest`, whatever the length, and all of them in order without; nothing of the agent
-- stays, and an agent b of another name keeps its live entries, in order.
pub pop_drain :
    (now : ℕ) (opts : InboxPopOptions) (m : MemoryInbox) (b : String)
    → (opts.latest ≡ true) ⊎ (opts.length ≡ none)
    → b ≢ opts.alias
    → ((pop now opts m).0 ≡ some (drained opts.latest (live_of opts.alias now m)))
      × (keep_if (is_of opts.alias) (pop now opts m).1.entries ≡ [])
      × (keep_if (is_of b) (pop now opts m).1.entries ≡ live_of b now m)
pop_drain now opts m b h n =
    let (taken, kept, others) = read_drain now opts m h in (taken, kept, others b n)

pop_matched_negative :
    (opts : InboxPopOptions) (k : ℕ) (m : MemoryInbox) (mine rest : List InboxEntry)
    → opts.latest ≡ false
    → opts.length ≡ some (negsuc k)
    → mine ≢ []
    → (pop_matched opts m mine rest).0 ≡ none
unfolding pop_matched
pop_matched_negative opts k m [] rest l n h = absurd (h refl)
pop_matched_negative opts k m (e ∷ mine) rest l n h = rw (l, n)

-- A read with a negative length and without `latest` panics as soon as the agent has a live entry.
pub pop_negative :
    (now : ℕ) (opts : InboxPopOptions) (k : ℕ) (m : MemoryInbox)
    → opts.latest ≡ false
    → opts.length ≡ some (negsuc k)
    → live_of opts.alias now m ≢ []
    → (pop now opts m).0 ≡ none
unfolding pop
pop_negative now opts k m l n h =
    let m' = prune_expired now m in
    pop_matched_negative opts k m' (keep_if (is_of opts.alias) m'.entries)
      (keep_if (not_of opts.alias) m'.entries) l n h
