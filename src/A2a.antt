-- ===== src/A2a.antt =====
-- The data of the A2A protocol (package a2a of the SDK) that the gateway handles: the fields that
-- its code reads or writes, and no code of the SDK.
use a2a_gateway_mcp.Prelude.{Bool, Option, List, String}

pub data TaskState : Type 0 where
  submitted working completed failed canceled input_required auth_required rejected : TaskState
  -- any other text that an agent sends
  other : String → TaskState

-- A value of a JSON document, by its serialised form.
pub record Json : Type 0 where
  pub serialised : String

pub data Part : Type 0 where
  text : String → Part
  data_value : Json → Part
  url : String → Part
  raw : String → Part
  -- a content type that the code does not know
  unrecognized : Part

-- A part of a list may be nil.
pub record Message : Type 0 where
  pub context_id : String
  pub parts : List (Option Part)

pub record TaskStatus : Type 0 where
  pub state : TaskState
  pub message : Option Message

pub record Artifact : Type 0 where
  pub parts : List (Option Part)

pub record Task : Type 0 where
  pub id : String
  pub context_id : String
  pub status : TaskStatus
  pub artifacts : List (Option Artifact)

pub data ProtocolBinding : Type 0 where
  jsonrpc http_json : ProtocolBinding
  other_binding : String → ProtocolBinding

pub record AgentInterface : Type 0 where
  pub url : String
  pub protocol_binding : ProtocolBinding

pub record AgentCard : Type 0 where
  pub name : String
  pub description : String
  -- the tags of each skill
  pub skills : List (List String)
  pub streaming : Bool
  pub supported_interfaces : List AgentInterface
