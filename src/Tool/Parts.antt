-- ===== src/Tool/Parts.antt =====
-- internal/tool/helpers.go, and extractStatusMessageText of internal/tool/tool_send.go: the text of
-- what an agent sends. Packages encoding/json and encoding/base64, and the text of an error, are
-- parameters.
use a2a_gateway_mcp.Prelude.{Option, none, some, List, [], ◌∷◌, String, ◌==◌, if◌then◌else◌}
use Prim.Native.String.{◌++◌}
use a2a_gateway_mcp.Errors.{
  Error, Result, ok, err, errorf, errors_is, task_not_found, task_not_cancelable,
}
use a2a_gateway_mcp.A2a.{
  Json, Part, text, data_value, url, raw, unrecognized, Message, Artifact, Task,
}

pub record Rendering : Type 0 where
  -- json.Marshal, base64.StdEncoding.EncodeToString, and %v of an error
  pub marshal : Json → Result String
  pub encode_to_string : String → String
  pub show_error : Error → String

-- strings.Join
unfoldable pub join : String → List String → String
join separator [] = ""
join separator (s ∷ []) = s
join separator (s ∷ (t ∷ ts)) = s ++ (separator ++ join separator (t ∷ ts))

-- The list with one more text, if there is one.
abbrev pub and_then : Option String → List String → List String
and_then none texts = texts
and_then (some t) texts = t ∷ texts

module _ (X : Rendering) where
  open X use {marshal, encode_to_string, show_error}

  abbrev marshalled : Result String → String
  marshalled (ok document) = document
  marshalled (err e) = "[unserializable data: " ++ (show_error e ++ "]")

  unfoldable pub render_part : Option Part → Option String
  render_part none = none
  render_part (some (text v)) = some v
  render_part (some (data_value v)) = some (marshalled (marshal v))
  render_part (some (url v)) = some v
  render_part (some (raw v)) = some (encode_to_string v)
  render_part (some unrecognized) = none

  -- The loop that collects the rendered parts.
  unfoldable pub rendered_parts : List (Option Part) → List String
  unfolding render_part
  rendered_parts [] = []
  rendered_parts (p ∷ ps) = and_then (render_part p) (rendered_parts ps)

  unfoldable pub extract_content_from_message_parts : List (Option Part) → String
  unfolding rendered_parts join
  extract_content_from_message_parts parts = join "" (rendered_parts parts)

  unfoldable pub extract_status_message_text : Message → String
  unfolding rendered_parts join
  extract_status_message_text msg = join "" (rendered_parts msg.parts)

  abbrev artifact_text : List String → Option String
  artifact_text [] = none
  artifact_text (p ∷ ps) = some (join "" (p ∷ ps))

  abbrev text_of : Option Artifact → Option String
  text_of none = none
  text_of (some a) = artifact_text (rendered_parts a.parts)

  -- The loop that collects the texts of the artifacts.
  unfoldable pub artifact_texts : List (Option Artifact) → List String
  unfolding rendered_parts join
  artifact_texts [] = []
  artifact_texts (a ∷ artifacts) = and_then (text_of a) (artifact_texts artifacts)

  unfoldable pub extract_content_from_artifacts : List (Option Artifact) → String
  unfolding artifact_texts
  extract_content_from_artifacts artifacts = join "\n" (artifact_texts artifacts)

  abbrev status_text : Option Message → String
  status_text none = ""
  status_text (some msg) = extract_status_message_text msg

  unfoldable pub extract_task_response_text : Task → String
  unfolding extract_status_message_text extract_content_from_artifacts
  extract_task_response_text task =
      let status = status_text task.status.message in
      if status == "" then extract_content_from_artifacts task.artifacts else status

unfoldable pub handle_a2a_error : Error → Error
handle_a2a_error e =
    if errors_is task_not_found e
    then errorf "task not found" []
    else if errors_is task_not_cancelable e
    then errorf "task is not cancelable" []
    else e
