-- ===== src/Examples/Stream.antt =====
-- A stream with two updates before its last item.
use a2a_gateway_mcp.Prelude.{
  false, ◌≡◌, refl, true, Option, none, some, List, [], ◌∷◌, ◌++◌, String, All,
}
use a2a_gateway_mcp.Errors.{
  Error, Result, err, errorf, wrapf, foreign, errors_is, deadline_exceeded,
}
use a2a_gateway_mcp.A2a.{TaskState, working, Artifact, Message, TaskStatus}
use a2a_gateway_mcp.Registry.Contexts
use a2a_gateway_mcp.Tool.Stream.{
  Item, event, failure, status_update, artifact_update, TaskInfo, consume_stream, StreamResult,
  err_stream_timeout, err_stream_connection_timeout, is_terminal_or_interrupted,
}
use a2a_gateway_mcp.Tool.Stream.Gathering.{Passes, new_state}
use a2a_gateway_mcp.Tool.Stream.Outcome.{stream_fails}
use a2a_gateway_mcp.Examples.Fixtures.{plain_rendering}

abbrev info : String → TaskInfo
info context_id = record { task_id = "t-1"; context_id = context_id }

abbrev status : TaskState → TaskStatus
status state = record { state = state; message = none }

abbrev artifact : Option Artifact
artifact = some (record { parts = [] })

abbrev updates : List Item
updates =
    event (status_update (info "") (status working))
    ∷ (event (artifact_update (info "c-1") artifact) ∷ [])

updates-Passes : All Passes updates
unfolding is_terminal_or_interrupted
updates-Passes = (refl, (tt, tt))

abbrev answer : Message
answer = record { context_id = "c-1"; parts = [] }

abbrev late : Error
late = foreign (λ t. elim t [ deadline_exceeded ↦ true | _ ↦ false ]) "deadline"

is_late : errors_is deadline_exceeded late ≡ true
unfolding errors_is
is_late = refl

is_reset : errors_is deadline_exceeded (errorf "reset" []) ≡ false
unfolding errors_is
is_reset = refl

-- What a stream fails with.
abbrev failed_with : List Item → Result StreamResult
failed_with items = (consume_stream plain_rendering items (new_state none)).0

stream_fails_example :
    (failed_with (failure (errorf "reset" []) ∷ [])
      ≡ err (wrapf "stream connection failed: %w" [] (errorf "reset" [])))
    × (failed_with (failure late ∷ []) ≡ err err_stream_connection_timeout)
    × (failed_with (updates ++ failure (errorf "reset" []) ∷ [])
        ≡ err (wrapf "stream interrupted: %w" [] (errorf "reset" [])))
    × (failed_with (updates ++ failure late ∷ []) ≡ err err_stream_timeout)
    × (failed_with updates ≡ err (errorf "stream ended without terminal event" []))
stream_fails_example =
    stream_fails plain_rendering (event (status_update (info "") (status working)))
      (event (artifact_update (info "c-1") artifact) ∷ []) [] (errorf "reset" []) late none
      updates-Passes is_reset is_late
