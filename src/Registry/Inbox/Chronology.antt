-- ===== src/Registry/Inbox/Chronology.antt =====
-- Lists of entries in chronological order, under what the inbox does to a list.
use a2a_gateway_mcp.Prelude.{
  ℕ, zero, suc, ◌≤◌, Bool, List, [], ◌∷◌, arith, keep_if, All, leb, Bool-cases, inl, inr, drop,
}
use a2a_gateway_mcp.Registry.Inbox.{InboxEntry, merge}

-- Oldest first.
abbrev pub IsChronological : List InboxEntry → Type 0
IsChronological [] = Unit
IsChronological (e ∷ es) = All (λ f. e.timestamp ≤ f.timestamp) es × IsChronological es

pub All-kept :
    (P : InboxEntry → Type 0) (p : InboxEntry → Bool) (es : List InboxEntry)
    → All P es
    → All P (keep_if p es)
All-kept P p [] h = tt
All-kept P p (e ∷ es) h = elim (Bool-cases (p e)) [
  | inl q ↦ rw q (h.0, All-kept P p es h.1)
  | inr q ↦ rw q (All-kept P p es h.1)
]

pub kept-IsChronological :
    (p : InboxEntry → Bool) (es : List InboxEntry)
    → IsChronological es
    → IsChronological (keep_if p es)
kept-IsChronological p [] h = tt
kept-IsChronological p (e ∷ es) h = elim (Bool-cases (p e)) [
  | inl q ↦ rw q (All-kept (λ f. e.timestamp ≤ f.timestamp) p es h.0, kept-IsChronological p es h.1)
  | inr q ↦ rw q (kept-IsChronological p es h.1)
]

pub drop-IsChronological :
    (n : ℕ) (es : List InboxEntry) → IsChronological es → IsChronological (drop n es)
drop-IsChronological zero es h = h
drop-IsChronological (suc n) [] h = tt
drop-IsChronological (suc n) (e ∷ es) h = drop-IsChronological n es h.1

pub All-merge :
    (P : InboxEntry → Type 0) (rs ks : List InboxEntry) → All P rs → All P ks → All P (merge rs ks)
unfolding merge
All-merge P [] ks h k = k
All-merge P (r ∷ rs) [] h k = h
All-merge P (r ∷ rs) (e ∷ ks) h k = elim (Bool-cases (leb r.timestamp e.timestamp)) [
  | inl q ↦ rw q (h.0, All-merge P rs (e ∷ ks) h.1 k)
  | inr q ↦ rw q (k.0, All-merge P (r ∷ rs) ks h k.1)
]

pub All_le_trans :
    (a b : ℕ) (es : List InboxEntry)
    → a ≤ b
    → All (λ f. b ≤ f.timestamp) es
    → All (λ f. a ≤ f.timestamp) es
All_le_trans a b [] h k = tt
All_le_trans a b (e ∷ es) h k = (omega (arith, k.0), All_le_trans a b es h k.1)

pub merge-IsChronological :
    (rs ks : List InboxEntry)
    → IsChronological rs
    → IsChronological ks
    → IsChronological (merge rs ks)
unfolding merge
merge-IsChronological [] ks h k = k
merge-IsChronological (r ∷ rs) [] h k = h
merge-IsChronological (r ∷ rs) (e ∷ ks) h k = elim (Bool-cases (leb r.timestamp e.timestamp)) [
  | inl q ↦ rw q (
    All-merge (λ f. r.timestamp ≤ f.timestamp) rs (e ∷ ks) h.0
        (ground arith, All_le_trans r.timestamp e.timestamp ks (ground arith) k.0),
    merge-IsChronological rs (e ∷ ks) h.1 k,
  )
  | inr q ↦ rw q (
    All-merge (λ f. e.timestamp ≤ f.timestamp) (r ∷ rs) ks
        (ground arith, All_le_trans e.timestamp r.timestamp rs (ground arith) h.0) k.0,
    merge-IsChronological (r ∷ rs) ks h k.1,
  )
]
