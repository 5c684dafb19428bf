-- ===== src/Examples/Fixtures.antt =====
-- Concrete stand-ins for the packages that the models take as parameters.
use a2a_gateway_mcp.Prelude.{
  arith, not, ◌≢◌, ℕ, suc, zero, ◌≡◌, refl, ap, ◌∙◌, true, false, Option, none, some, [], String,
}
use a2a_gateway_mcp.Prelude.Int.{ℤ, pos}
use Prim.Native.String.append
use Prim.Native.String.{◌++◌}
use a2a_gateway_mcp.GoMap
use a2a_gateway_mcp.GoMap.{GoMap}
use a2a_gateway_mcp.Prelude.{nat_eq}
use a2a_gateway_mcp.Errors.{ok}
use a2a_gateway_mcp.A2a.{AgentCard}
use a2a_gateway_mcp.History.Recorder.{rune_count}
use a2a_gateway_mcp.Registry.Http.{HeaderProvider}
use a2a_gateway_mcp.Registry.Limits.{RateLimiting}
use a2a_gateway_mcp.Registry.Clients.{A2aClients}
use a2a_gateway_mcp.Registry.Resolved.{ResolveResult}
use a2a_gateway_mcp.Tool.Parts.{Rendering}
use a2a_gateway_mcp.Validate.{ParsedUrl, parsed}
use a2a_gateway_mcp.Directory.Cursor.{Codec}

pub zero_or_positive : (n : ℕ) → not (nat_eq n 0) ≡ true → nat_eq n 0 ≡ false
zero_or_positive n e = ground arith

-- Whole rates, and a limiter that grants everything.
abbrev pub whole_rates : RateLimiting
whole_rates = record {
  Float = ℕ;
  float_zero = 0;
  is_not_positive = λ n. nat_eq n 0;
  is_positive = λ n. not (nat_eq n 0);
  is_below_zero = λ n. false;
  Limiter = ℕ × ℤ;
  new_limiter = λ f b. (f, b);
  limit = λ l. l.0;
  burst = λ l. l.1;
  allow_now = λ now l. (true, l);
  reserve = λ now l. (0, l);
  cancel = λ now l. (l, "1s");
  positive-not = zero_or_positive;
  limit-new = λ f b. refl;
  burst-new = λ f b. refl;
  settings-allow = λ now l. (refl, refl);
  settings-reserve = λ now l. (refl, refl);
  settings-cancel = λ now l. (refl, refl);
}

-- A client is known by where its headers come from.
abbrev pub plain_clients : A2aClients
plain_clients = record {
  Client = String × HeaderProvider;
  new_from_card = λ card transport provider. ok (card.name, provider);
  new_from_endpoint = λ url provider. ok (url, provider);
}

rune_count-x : (s : String) → rune_count ("x" ++ s) ≡ suc (rune_count s)
unfolding rune_count
rune_count-x s = rw append.cons (rw append.nil)

abbrev pub unary : ℕ → String
unary zero = ""
unary (suc n) = "x" ++ unary n

pub rune_count-unary : (n : ℕ) → rune_count (unary n) ≡ n
unfolding rune_count
rune_count-unary zero = refl
rune_count-unary (suc n) = rune_count-x (unary n) ∙ ap suc (rune_count-unary n)

abbrev pub without_first : String → Option String
without_first String.[] = none
without_first (String.◌∷◌ c s) = some s

pub without_first-x : (s : String) → without_first ("x" ++ s) ≡ some s
without_first-x s = rw append.cons (rw append.nil)

pub x_ne : (s : String) → "x" ++ s ≢ ""
x_ne s e = cc (without_first-x s, ap without_first e)

-- The number before, that of zero being none.
abbrev pub less_one : ℕ → Option ℤ
less_one zero = none
less_one (suc n) = some (pos n)

-- A text is encoded by a letter before it, and an offset is printed in unary, with one letter more.
abbrev pub unary_codec : Codec
unary_codec = record {
  encode_string = λ s. "x" ++ s;
  decode_string = without_first;
  sprintf = λ format n. unary (suc n);
  sscanf = λ s format. less_one (rune_count s);
  decode-encode = without_first-x;
  encode_nonempty = λ s ne. x_ne s;
  sprintf_nonempty = λ n. x_ne (unary n);
  sscanf-sprintf = λ n. ap less_one (rune_count-unary (suc n));
}

-- Every text is a URL with a host.
abbrev pub any_url : String → ParsedUrl
any_url raw_url = parsed "https" "example.org"

-- A registered agent as an identifier resolves to it.
abbrev pub target : String → ResolveResult
target alias = record {
  url = "https://example.org";
  headers = GoMap.insert "Authorization" alias GoMap.empty;
  is_alias = true;
  alias = alias;
}

abbrev pub card_named : String → AgentCard
card_named name = record {
  name = name;
  description = "";
  skills = [];
  streaming = false;
  supported_interfaces = [];
}

abbrev pub plain_rendering : Rendering
plain_rendering = record {
  marshal = λ v. ok v.serialised;
  encode_to_string = λ s. s;
  show_error = λ e. "error";
}
