-- ===== src/History/Recorder.antt =====
-- history/history_record.go: what is recorded of an interaction. The backend is a parameter: its
-- `append` answers whether it failed, which is logged and nothing else. The time of day is its text.
use Prim.Native.Nat.{zero}
use Prim.Native.String.append
use Prim.Native.String.{String, [], ◌∷◌, ◌++◌}
use a2a_gateway_mcp.Prelude.{
  ◌⊎◌, ℕ, suc, ◌+◌, ◌≤◌, ◌<◌, ◌≡◌, refl, ap, Bool, arith, if◌then◌else◌, leb, Bool-cases, inl, inr,
}
use a2a_gateway_mcp.Prelude.Int.{ℤ, pos, negsuc}
use a2a_gateway_mcp.History.Entries.{Entry}

pub record RecordInput : Type 0 where
  pub alias : String
  pub sent : String
  pub response : String
  pub context_id : String
  pub task_id : String
  pub is_error : Bool

pub record Recorder : Type 0 where
  pub enabled : Bool
  pub max_entry_length : ℤ

-- len([]rune(text))
unfoldable pub rune_count : String → ℕ
rune_count [] = 0
rune_count (c ∷ s) = suc (rune_count s)

-- string([]rune(text)[:n])
unfoldable pub take_runes : ℕ → String → String
take_runes zero s = ""
take_runes (suc n) [] = ""
take_runes (suc n) (c ∷ s) = c ∷ take_runes n s

abbrev pub ellipsis : String
ellipsis = "…"

unfoldable pub truncate_text : String → ℤ → String
truncate_text text (pos n) =
    if leb n 0
    then text
    else if leb (rune_count text) n
    then text
    else take_runes n text ++ ellipsis
truncate_text text (negsuc n) = text

unfoldable pub entry_of : String → Recorder → RecordInput → Entry
entry_of now r input = record {
  timestamp = now;
  sent_message = truncate_text input.sent r.max_entry_length;
  response = truncate_text input.response r.max_entry_length;
  context_id = input.context_id;
  task_id = input.task_id;
  is_error = input.is_error;
}

module _ {ℓ} {B : Type ℓ} (append : String → Entry → B → Bool × B) where
  unfoldable pub record_interaction : String → Recorder → RecordInput → B → B
  unfolding entry_of
  record_interaction now r input b =
      if r.enabled then (append input.alias (entry_of now r input) b).1 else b

rune_count-take_runes :
    (n : ℕ) (s : String) → n < rune_count s → rune_count (take_runes n s ++ ellipsis) ≡ suc n
unfolding rune_count take_runes
rune_count-take_runes zero s h = refl
rune_count-take_runes (suc n) [] h = absurd (omega arith)
rune_count-take_runes (suc n) (c ∷ s) h =
    rw append.cons (ap suc (rune_count-take_runes n s (omega arith)))

-- With a positive limit n, a text of at most n characters is recorded as it is, and a longer one as
-- its first n characters and an ellipsis, n + 1 characters in all.
pub truncate_text_lem :
    (text : String) (n : ℕ)
    → 0 < n
    → ((rune_count text ≤ n) × (truncate_text text (pos n) ≡ text))
      ⊎ ((n < rune_count text)
          × (truncate_text text (pos n) ≡ take_runes n text ++ ellipsis)
          × (rune_count (truncate_text text (pos n)) ≡ n + 1))
unfolding truncate_text
truncate_text_lem text n h = elim (Bool-cases (leb (rune_count text) n)) [
  | inl q ↦ inl (ground arith, ground arith)
  | inr q ↦ inr (ground arith, ground arith, ground (arith, rune_count-take_runes n text))
]
