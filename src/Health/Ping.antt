-- ===== src/Health/Ping.antt =====
-- health/ping.go: the URL that a liveness check asks for.
use Prim.Native.String.{◌++◌}
use Prim.Native.String.append
use text.Mathlib.Text.{starts_with}
use text.Mathlib.TextPositions.{starts_with-append}
use a2a_gateway_mcp.Prelude.{◌≡◌, ◌≢◌, false, not, String, arith, ◌==◌, eq_iff, if◌then◌else◌}
use a2a_gateway_mcp.Prelude.Text.{trim_right, trim_right-append}

abbrev pub slash : String
slash = "/"

-- buildPingURL
unfoldable pub build_ping_url : String → String → String
build_ping_url base_url ping_endpoint =
    let base = trim_right b'/' base_url in
    if not (ping_endpoint == "")
    then (if not (starts_with ping_endpoint slash)
        then base ++ (slash ++ ping_endpoint)
        else base ++ ping_endpoint)
    else base ++ "/.well-known/agent-card.json"

trim_right-slash : (s : String) → trim_right b'/' (s ++ slash) ≡ trim_right b'/' s
trim_right-slash s = trim_right-append "/" s

slash-append-ne : (p : String) → slash ++ p ≢ ""
slash-append-ne p e = cc (e, append.cons "/" "" p)

-- For an endpoint that is not empty and begins with no slash: a slash at the end of the base URL
-- makes no difference, with the endpoint or with the default one, and neither does a slash before
-- the endpoint. The two parts meet in exactly one slash.
pub build_ping_url_slashes :
    (base p : String)
    → p ≢ ""
    → starts_with p slash ≡ false
    → (build_ping_url (base ++ slash) (slash ++ p) ≡ trim_right b'/' base ++ (slash ++ p))
      × (build_ping_url (base ++ slash) p ≡ trim_right b'/' base ++ (slash ++ p))
      × (build_ping_url (base ++ slash) "" ≡ build_ping_url base "")
unfolding build_ping_url
build_ping_url_slashes base p h q = (
  rw (trim_right-slash, starts_with-append slash p)
      (ground (arith, eq_iff (slash ++ p) "", slash-append-ne p)),
  rw (trim_right-slash, q) (ground (arith, eq_iff p "")),
  rw trim_right-slash,
)
