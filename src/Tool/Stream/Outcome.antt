-- ===== src/Tool/Stream/Outcome.antt =====
-- What a stream comes to: the items up to the first decisive one, and that item, say it all.
use a2a_gateway_mcp.Prelude.{
  ◌≡◌, refl, ap, ◌∙◌, sym, true, false, not, ◌&&◌, Option, none, some, List, [], ◌∷◌, ◌++◌, String,
  ◌==◌, if◌then◌else◌, map, All,
}
use mathlib.Core.List.{append-nil}
use a2a_gateway_mcp.Errors.{errorf, wrapf, deadline_exceeded, errors_is, Error, ok, err}
use a2a_gateway_mcp.A2a.{TaskState, TaskStatus, Task, Message}
use a2a_gateway_mcp.Tool.Parts.{Rendering}
use a2a_gateway_mcp.Tool.Stream.{
  err_stream_timeout, err_stream_connection_timeout, task_event, message_event, status_update, Item,
  event, failure, StreamState, TaskInfo, is_terminal_or_interrupted, build_task_from_state,
  stream_failure, stream_ended, received, with_status, consume_stream,
}
use a2a_gateway_mcp.Tool.Stream.Gathering.{
  Passes, infos, artifacts_of, first_given, first_given-cons, is_nonempty, new_state, accumulated,
  consume-passing, gather, received-anew,
}

module _ (X : Rendering) where
  consume-last :
      (info : TaskInfo) (status : TaskStatus) (post : List Item) (s : StreamState)
      → is_terminal_or_interrupted status.state ≡ true
      → consume_stream X (event (status_update info status) ∷ post) s ≡ (
        ok (record {
          task = none;
          message = none;
          terminated_by_status = true;
          state = with_status X info status s;
        }),
        with_status X info status s,
      )
  unfolding consume_stream
  consume-last info status post s t = rw t refl

  -- After updates that do not end the stream, one with a terminal or interrupted state ends it, and
  -- the task that is built from it has that status, the artifacts of the updates in their order, and
  -- the first task and context identifiers that an update gave. What would follow is not looked at.
  pub consume-terminal :
      (pre post : List Item) (info : TaskInfo) (status : TaskStatus)
      (progress : Option (List (TaskState × String)))
      → All Passes pre
      → is_terminal_or_interrupted status.state ≡ true
      → (s : StreamState) × ((consume_stream X
            (pre ++ event (status_update info status) ∷ post)
            (new_state progress)).0
          ≡ ok (record { task = none; message = none; terminated_by_status = true; state = s }))
        × (build_task_from_state s ≡ record {
          id = first_given (first_given "" (map (λ i. i.task_id) (infos pre))) (info.task_id ∷ []);
          context_id =
              first_given
                (first_given "" (map (λ i. i.context_id) (infos pre)))
                (info.context_id ∷ []);
          status = status;
          artifacts = artifacts_of pre;
        })
  unfolding build_task_from_state
  consume-terminal pre post info status progress h t =
      let s' = accumulated X pre (new_state progress) in
      let g = gather X pre (new_state progress) h in
      let last = with_status X info status s' in
      let id = ap (λ u. if u == "" then info.task_id else u) g.task_id in
      let context =
        ap (λ u. if u == "" && not (info.context_id == "") then info.context_id else u) g.context_id
        ∙ (first_given-cons (first_given "" (map (λ i. i.context_id) (infos pre))) info.context_id
            []).1 in
      (
        last,
        ap (λ p. p.0)
              (consume-passing X pre (event (status_update info status) ∷ post) (new_state progress)
                h)
            ∙ ap (λ p. p.0) (consume-last info status post s' t),
        λ i. record {
          id = id i;
          context_id = context i;
          status = status;
          artifacts = g.artifacts i;
        },
      )

  -- After updates that do not end the stream, a task or a message ends it and is its result.
  pub consume-answer :
      (pre post : List Item) (task : Task) (message : Message)
      (progress : Option (List (TaskState × String)))
      → All Passes pre
      → (s : StreamState) × ((consume_stream X
            (pre ++ event (task_event task) ∷ post)
            (new_state progress)).0
          ≡ ok (record {
            task = some task;
            message = none;
            terminated_by_status = false;
            state = s;
          }))
        × ((consume_stream X (pre ++ event (message_event message) ∷ post) (new_state progress)).0
            ≡ ok (record {
              task = none;
              message = some message;
              terminated_by_status = false;
              state = s;
            }))
  consume-answer pre post task message progress h =
      let s' = accumulated X pre (new_state progress) in
      (
        received s',
        ap (λ p. p.0)
              (consume-passing X pre (event (task_event task) ∷ post) (new_state progress) h)
            ∙ (unfold consume_stream in refl),
        ap (λ p. p.0)
              (consume-passing X pre (event (message_event message) ∷ post) (new_state progress) h)
            ∙ (unfold consume_stream in refl),
      )

  consume-failure :
      (e : Error) (post : List Item) (s : StreamState)
      → consume_stream X (failure e ∷ post) s ≡ (err (stream_failure s.received_events e), s)
  unfolding consume_stream
  consume-failure e post s = refl

  consume-nil : (s : StreamState) → consume_stream X [] s ≡ (err stream_ended, s)
  unfolding consume_stream
  consume-nil s = refl

  -- What the consumption of a stream ends with, where it ends with an error.
  abbrev FailsWith : List Item → Option (List (TaskState × String)) → Error → Type 0
  FailsWith items progress e = (consume_stream X items (new_state progress)).0 ≡ err e

  failing :
      (pre post : List Item) (e e' : Error) (progress : Option (List (TaskState × String)))
      → All Passes pre
      → stream_failure (is_nonempty pre) e ≡ e'
      → FailsWith (pre ++ failure e ∷ post) progress e'
  failing pre post e e' progress h same =
      ap (λ p. p.0)
        (consume-passing X pre (failure e ∷ post) (new_state progress) h
          ∙ consume-failure e post (accumulated X pre (new_state progress)))
      ∙ ap (λ b. err (stream_failure b e)) (received-anew X pre progress h)
      ∙ ap err same

  -- An error of the iterator that comes first is one of the connection, and one that comes after
  -- updates which do not end the stream is a timeout of the stream if the deadline is exceeded, and an
  -- interruption if not; an iterator that ends after such updates is an error too.
  pub stream_fails :
      (first : Item) (pre post : List Item) (e late : Error)
      (progress : Option (List (TaskState × String)))
      → All Passes (first ∷ pre)
      → errors_is deadline_exceeded e ≡ false
      → errors_is deadline_exceeded late ≡ true
      → FailsWith (failure e ∷ post) progress (wrapf "stream connection failed: %w" [] e)
        × FailsWith (failure late ∷ post) progress err_stream_connection_timeout
        × FailsWith (first ∷ pre ++ failure e ∷ post) progress (wrapf "stream interrupted: %w" [] e)
        × FailsWith (first ∷ pre ++ failure late ∷ post) progress err_stream_timeout
        × FailsWith (first ∷ pre) progress (errorf "stream ended without terminal event" [])
  unfolding stream_failure
  stream_fails first pre post e late progress h soon timed_out = (
    failing [] post e (wrapf "stream connection failed: %w" [] e) progress tt (rw soon refl),
    failing [] post late err_stream_connection_timeout progress tt (rw timed_out refl),
    failing (first ∷ pre) post e (wrapf "stream interrupted: %w" [] e) progress h (rw soon refl),
    failing (first ∷ pre) post late err_stream_timeout progress h (rw timed_out refl),
    ap (λ is. (consume_stream X is (new_state progress)).0) (sym (append-nil (first ∷ pre)))
        ∙ ap (λ p. p.0)
            (consume-passing X (first ∷ pre) [] (new_state progress) h
              ∙ consume-nil (accumulated X (first ∷ pre) (new_state progress))),
  )
