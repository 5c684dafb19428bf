-- ===== src/Tool/Stream/Gathering.antt =====
-- What a stream's state gathers from the updates that do not end it.
use a2a_gateway_mcp.Prelude.{
  ◌≡◌, refl, ap, ◌∙◌, sym, Bool, true, false, not, ◌&&◌, Option, none, List, [], ◌∷◌, ◌++◌, String,
  ◌==◌, eq_iff, if◌then◌else◌, map, All, Bool-cases, inl, inr,
}
use mathlib.Core.List.{append-nil, append_assoc}
use a2a_gateway_mcp.A2a.{TaskState, Artifact}
use a2a_gateway_mcp.Tool.Parts.{Rendering}
use a2a_gateway_mcp.Tool.Stream.{
  task_event, message_event, status_update, artifact_update, unrecognized_event, Item, event,
  failure, StreamState, TaskInfo, is_terminal_or_interrupted, received, with_status, with_artifact,
  notify, consume_stream,
}

-- An item after which the stream goes on.
abbrev pub Passes : Item → Type 0
Passes (failure e) = ⊥
Passes (event (task_event t)) = ⊥
Passes (event (message_event m)) = ⊥
Passes (event (status_update info status)) = is_terminal_or_interrupted status.state ≡ false
Passes (event (artifact_update info artifact)) = Unit
Passes (event unrecognized_event) = Unit

-- The updates' identifiers, in order.
abbrev pub infos : List Item → List TaskInfo
infos [] = []
infos (event (status_update info status) ∷ items) = info ∷ infos items
infos (event (artifact_update info artifact) ∷ items) = info ∷ infos items
infos (event (task_event t) ∷ items) = infos items
infos (event (message_event m) ∷ items) = infos items
infos (event unrecognized_event ∷ items) = infos items
infos (failure e ∷ items) = infos items

-- The updates' artifacts, in order.
abbrev pub artifacts_of : List Item → List (Option Artifact)
artifacts_of [] = []
artifacts_of (event (artifact_update info artifact) ∷ items) = artifact ∷ artifacts_of items
artifacts_of (event (status_update info status) ∷ items) = artifacts_of items
artifacts_of (event (task_event t) ∷ items) = artifacts_of items
artifacts_of (event (message_event m) ∷ items) = artifacts_of items
artifacts_of (event unrecognized_event ∷ items) = artifacts_of items
artifacts_of (failure e ∷ items) = artifacts_of items

-- The first text that is not empty, if there is one.
abbrev pub first_given : String → List String → String
first_given s [] = s
first_given s (t ∷ ts) = let rest = first_given t ts in if s == "" then rest else s

abbrev pub is_nonempty : List Item → Bool
is_nonempty [] = false
is_nonempty (i ∷ is) = true

abbrev pub new_state : Option (List (TaskState × String)) → StreamState
new_state progress = record {
  artifacts = [];
  last_status = none;
  task_id = "";
  context_id = "";
  received_events = false;
  progress = progress;
}

first_given_kept : (s : String) (ts : List String) → (s == "") ≡ false → first_given s ts ≡ s
first_given_kept s [] h = refl
first_given_kept s (t ∷ ts) h = rw h refl

both_empty :
    (s t : String) (ts : List String)
    → s ≡ ""
    → first_given (if not (t == "") then t else s) ts ≡ first_given t ts
both_empty s t ts e = elim (Bool-cases (t == "")) [
  | inl q ↦ rw q (ap (λ u. first_given u ts) (e ∙ sym ((eq_iff t "").0 q)))
  | inr q ↦ rw q refl
]

pub first_given-cons :
    (s t : String) (ts : List String)
    → (first_given (if s == "" then t else s) ts ≡ first_given s (t ∷ ts))
      × (first_given (if s == "" && not (t == "") then t else s) ts ≡ first_given s (t ∷ ts))
first_given-cons s t ts = elim (Bool-cases (s == "")) [
  | inl q ↦ (rw q refl, rw q (both_empty s t ts ((eq_iff s "").0 q)))
  | inr q ↦ (rw q (first_given_kept s ts q), rw q (first_given_kept s ts q))
]

module _ (X : Rendering) where
  -- The state after one item that passes.
  passed : Item → StreamState → StreamState
  passed (event (status_update info status)) s = notify X status (with_status X info status s)
  passed (event (artifact_update info artifact)) s = with_artifact X info artifact s
  passed (event unrecognized_event) s = received s
  passed (event (task_event t)) s = s
  passed (event (message_event m)) s = s
  passed (failure e) s = s

  pub accumulated : List Item → StreamState → StreamState
  unfolding passed
  accumulated [] s = s
  accumulated (i ∷ is) s = accumulated is (passed i s)

  pub consume-passing :
      (pre rest : List Item) (s : StreamState)
      → All Passes pre
      → consume_stream X (pre ++ rest) s ≡ consume_stream X rest (accumulated pre s)
  unfolding accumulated consume_stream
  consume-passing [] rest s h = refl
  consume-passing (event (status_update info status) ∷ pre) rest s h =
      rw h.0 (consume-passing pre rest (notify X status (with_status X info status s)) h.1)
  consume-passing (event (artifact_update info artifact) ∷ pre) rest s h =
      consume-passing pre rest (with_artifact X info artifact s) h.1
  consume-passing (event unrecognized_event ∷ pre) rest s h =
      consume-passing pre rest (received s) h.1
  consume-passing (event (task_event t) ∷ pre) rest s h = absurd h.0
  consume-passing (event (message_event m) ∷ pre) rest s h = absurd h.0
  consume-passing (failure e ∷ pre) rest s h = absurd h.0

  received-accumulated :
      (pre : List Item) (s : StreamState)
      → All Passes pre
      → s.received_events ≡ true
      → (accumulated pre s).received_events ≡ true
  unfolding accumulated
  received-accumulated [] s h r = r
  received-accumulated (event (status_update info status) ∷ pre) s h r =
      received-accumulated pre (notify X status (with_status X info status s)) h.1 refl
  received-accumulated (event (artifact_update info artifact) ∷ pre) s h r =
      received-accumulated pre (with_artifact X info artifact s) h.1 refl
  received-accumulated (event unrecognized_event ∷ pre) s h r =
      received-accumulated pre (received s) h.1 refl
  received-accumulated (event (task_event t) ∷ pre) s h r = absurd h.0
  received-accumulated (event (message_event m) ∷ pre) s h r = absurd h.0
  received-accumulated (failure e ∷ pre) s h r = absurd h.0

  -- What the state has gathered after items that pass.
  pub record Gathered (pre : List Item) (s s' : StreamState) : Type 0 where
    pub artifacts : s'.artifacts ≡ s.artifacts ++ artifacts_of pre
    pub task_id : s'.task_id ≡ first_given s.task_id (map (λ i. i.task_id) (infos pre))
    pub context_id : s'.context_id ≡ first_given s.context_id (map (λ i. i.context_id) (infos pre))

  pub gather :
      (pre : List Item) (s : StreamState) → All Passes pre → Gathered pre s (accumulated pre s)
  unfolding accumulated
  gather [] s h = record {
    artifacts = sym (append-nil s.artifacts);
    task_id = refl;
    context_id = refl;
  }
  gather (event (status_update info status) ∷ pre) s h =
      let g = gather pre (notify X status (with_status X info status s)) h.1 in
      record {
        artifacts = g.artifacts;
        task_id =
            g.task_id
            ∙ (first_given-cons s.task_id info.task_id (map (λ i. i.task_id) (infos pre))).0;
        context_id =
            g.context_id
            ∙ (first_given-cons s.context_id info.context_id
                (map (λ i. i.context_id) (infos pre))).1;
      }
  gather (event (artifact_update info artifact) ∷ pre) s h =
      let g = gather pre (with_artifact X info artifact s) h.1 in
      record {
        artifacts = g.artifacts ∙ append_assoc s.artifacts (artifact ∷ []) (artifacts_of pre);
        task_id =
            g.task_id
            ∙ (first_given-cons s.task_id info.task_id (map (λ i. i.task_id) (infos pre))).0;
        context_id =
            g.context_id
            ∙ (first_given-cons s.context_id info.context_id
                (map (λ i. i.context_id) (infos pre))).1;
      }
  gather (event unrecognized_event ∷ pre) s h =
      let g = gather pre (received s) h.1 in
      record { artifacts = g.artifacts; task_id = g.task_id; context_id = g.context_id }
  gather (event (task_event t) ∷ pre) s h = absurd h.0
  gather (event (message_event m) ∷ pre) s h = absurd h.0
  gather (failure e ∷ pre) s h = absurd h.0

  pub received-anew :
      (pre : List Item) (progress : Option (List (TaskState × String)))
      → All Passes pre
      → (accumulated pre (new_state progress)).received_events ≡ is_nonempty pre
  unfolding accumulated
  received-anew [] progress h = refl
  received-anew (event (status_update info status) ∷ pre) progress h =
      received-accumulated pre (notify X status (with_status X info status (new_state progress)))
        h.1 refl
  received-anew (event (artifact_update info artifact) ∷ pre) progress h =
      received-accumulated pre (with_artifact X info artifact (new_state progress)) h.1 refl
  received-anew (event unrecognized_event ∷ pre) progress h =
      received-accumulated pre (received (new_state progress)) h.1 refl
  received-anew (event (task_event t) ∷ pre) progress h = absurd h.0
  received-anew (event (message_event m) ∷ pre) progress h = absurd h.0
  received-anew (failure e ∷ pre) progress h = absurd h.0
