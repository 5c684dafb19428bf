-- ===== src/Tool/Input.antt =====
-- The message of a caller: InputPart of gateway/api/types.go, buildMessageParts and convertInputParts of
-- internal/tool/tool_send.go, summarizeMessage of internal/tool/helpers.go. The decoding of package
-- encoding/base64 is a parameter: the decoded bytes, or the text of its error.
pub mod Conversion
use Prim.Native.String.{◌++◌}
use a2a_gateway_mcp.Prelude.{
  ℕ, zero, suc, ◌+◌, Bool, true, false, Option, none, some, List, [], ◌∷◌, String, ◌==◌, ltb,
  nat_eq, is_some, if◌then◌else◌,
}
use a2a_gateway_mcp.Prelude.Int.{pos}
use a2a_gateway_mcp.Errors.{Error, Result, ok, err, errorf, number}
use a2a_gateway_mcp.A2a.{Json, Part, text, data_value, url, raw}
use a2a_gateway_mcp.Errors
use a2a_gateway_mcp.Tool.Parts.{join}

pub record InputPart : Type 0 where
  pub plain : Option String
  pub json : Option Json
  pub link : Option String
  pub binary : Option String

-- if p.Text != nil { count++ }
abbrev pub counted {ℓ} : {A : Type ℓ} → Option A → ℕ → ℕ
counted none n = n
counted (some a) n = suc n

unfoldable pub contents : InputPart → ℕ
contents p = counted p.binary (counted p.link (counted p.json (counted p.plain 0)))

abbrev pub no_content : ℕ → Error
no_content i =
    errorf "part at index %d has no content (set exactly one of text, data, url, or raw)"
      (number (pos i) ∷ [])

abbrev pub multiple_contents : ℕ → Error
multiple_contents i =
    errorf
      "part at index %d has multiple content types (set exactly one of text, data, url, or raw)"
      (number (pos i) ∷ [])

abbrev pub invalid_base64 : ℕ → String → Error
invalid_base64 i e =
    errorf "part at index %d has invalid base64 in 'raw' field: %v"
      (number (pos i) ∷ (Errors.text e ∷ []))

-- What DecodeString returns.
pub data Decoded : Type 0 where
  decoded : String → Decoded
  malformed : String → Decoded

module _ (decode_string : String → Decoded) where
  abbrev pub raw_part : ℕ → Decoded → Result Part
  raw_part i (decoded bytes) = ok (raw bytes)
  raw_part i (malformed e) = err (invalid_base64 i e)

  -- The switch over the contents of a part that has just one.
  abbrev pub part_of : ℕ → Option String → Option Json → Option String → Option String → Result Part
  part_of i (some t) d u r = ok (text t)
  part_of i none (some d) u r = ok (data_value d)
  part_of i none none (some u) r = ok (url u)
  part_of i none none none (some r) = raw_part i (decode_string r)
  part_of i none none none none = err (no_content i)

  unfoldable pub convert_part : ℕ → InputPart → Result Part
  unfolding contents
  convert_part i p =
      if nat_eq (contents p) 0
      then err (no_content i)
      else if ltb 1 (contents p)
      then err (multiple_contents i)
      else part_of i p.plain p.json p.link p.binary

  abbrev pub cons_part : Result Part → Result (List (Option Part)) → Result (List (Option Part))
  cons_part (err e) rest = err e
  cons_part (ok p) (err e) = err e
  cons_part (ok p) (ok ps) = ok (some p ∷ ps)

  -- The loop, from index i on.
  unfoldable pub convert_from : ℕ → List InputPart → Result (List (Option Part))
  unfolding convert_part
  convert_from i [] = ok []
  convert_from i (p ∷ ps) = cons_part (convert_part i p) (convert_from (suc i) ps)

  abbrev pub nonempty : Result (List (Option Part)) → Result (List (Option Part))
  nonempty (err e) = err e
  nonempty (ok []) = err (errorf "'parts' must contain at least one element" [])
  nonempty (ok (p ∷ ps)) = ok (p ∷ ps)

  unfoldable pub convert_input_parts : List InputPart → Result (List (Option Part))
  unfolding convert_from
  convert_input_parts parts = nonempty (convert_from 0 parts)

  unfoldable pub build_message_parts : String → List InputPart → Result (List (Option Part))
  unfolding convert_input_parts
  build_message_parts message (p ∷ parts) = convert_input_parts (p ∷ parts)
  build_message_parts message [] =
      if message == ""
      then err (errorf "either 'message' or 'parts' is required" [])
      else ok (some (text message) ∷ [])

-- The text that stands for a part in the history, if it has a content.
abbrev segment :
    Option String → Option Json → Option String → Option String → List String → List String
segment (some t) d u r rest = t ∷ rest
segment none (some d) u r rest = "[data]" ∷ rest
segment none none (some u) r rest = u ∷ rest
segment none none none (some r) rest = "[binary]" ∷ rest
segment none none none none rest = rest

unfoldable pub segments : List InputPart → List String
segments [] = []
segments (p ∷ ps) = segment p.plain p.json p.link p.binary (segments ps)

unfoldable pub summarize_message : String → List InputPart → String
unfolding segments join
summarize_message message parts = if message == "" then join "" (segments parts) else message
