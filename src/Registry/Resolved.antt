-- ===== src/Registry/Resolved.antt =====
-- registry/resolve_result.go: what an agent identifier stands for.
use a2a_gateway_mcp.Prelude.{Bool, String}
use a2a_gateway_mcp.GoMap.{GoMap}

pub record ResolveResult : Type 0 where
  pub url : String
  pub headers : GoMap String
  pub is_alias : Bool
  pub alias : String
