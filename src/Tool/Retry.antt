-- ===== src/Tool/Retry.antt =====
-- internal/tool/auth_retry.go: one more try with a new client after an error of authentication. The
-- call that is tried is a function on a world of its own: the client to the error, nil being `none`.
use a2a_gateway_mcp.Prelude.{
  inr, inl, eq_refl, Bool-cases, ◌≡◌, refl, ◌∙◌, Bool, false, ◌||◌, Option, none, some, arith,
  if◌then◌else◌,
}
use a2a_gateway_mcp.GoMap
use a2a_gateway_mcp.Errors.{Error, Result, ok, err, errors_is, unauthenticated, unauthorized}
use a2a_gateway_mcp.Registry.Agents.{AgentRegistry}
use a2a_gateway_mcp.Registry.Resolved.{ResolveResult}
use a2a_gateway_mcp.Registry.Clients.{A2aClients, ClientResolver, resolve, evict}
use a2a_gateway_mcp.Registry.Clients.Cache.{fresh, stored_client, resolve_cached}
use a2a_gateway_mcp.Tool.Parts.{handle_a2a_error}

unfoldable pub is_auth_error : Error → Bool
is_auth_error e = errors_is unauthenticated e || errors_is unauthorized e

-- err != nil and an authentication error
abbrev pub needs_retry : Option Error → Bool
needs_retry none = false
needs_retry (some e) = is_auth_error e

module _ (S : A2aClients) {W : Type 0} (fn : S.Client → W → Option Error × W) where
  -- The call with the client, if there is one.
  abbrev called : Result S.Client × ClientResolver S → W → Option Error × (ClientResolver S × W)
  called (err e, r) w = (some (handle_a2a_error e), (r, w))
  called (ok client, r) w = let (e, w') = fn client w in (e, (r, w'))

  abbrev again :
      AgentRegistry
      → ResolveResult
      → Option Error × (ClientResolver S × W)
      → Option Error × (ClientResolver S × W)
  again registry resolved (e, (r, w)) =
      if needs_retry e
      then called (resolve S registry resolved (evict S resolved.url r)) w
      else (e, (r, w))

  abbrev tried :
      AgentRegistry
      → ResolveResult
      → Result S.Client × ClientResolver S
      → W
      → Option Error × (ClientResolver S × W)
  tried registry resolved (err e, r) w = (some (handle_a2a_error e), (r, w))
  tried registry resolved (ok client, r) w = again registry resolved (called (ok client, r) w)

  unfoldable pub resolve_client_with_auth_retry :
      AgentRegistry → ResolveResult → ClientResolver S → W → Option Error × (ClientResolver S × W)
  unfolding is_auth_error handle_a2a_error resolve evict
  resolve_client_with_auth_retry registry resolved r w =
      tried registry resolved (resolve S registry resolved r) w

  resolve-evicted :
      (registry : AgentRegistry) (resolved : ResolveResult) (renewed : S.Client)
      (r : ClientResolver S)
      → fresh S registry resolved ≡ ok renewed
      → resolve S registry resolved (evict S resolved.url r) ≡ (
        ok renewed,
        record {
          clients = GoMap.insert resolved.url renewed (GoMap.delete resolved.url r.clients);
        },
      )
  unfolding evict
  resolve-evicted registry resolved renewed r f =
      stored_client S registry resolved renewed
        (record { clients = GoMap.delete resolved.url r.clients })
        (GoMap.lookup-delete resolved.url resolved.url r.clients
          ∙ ground (arith, eq_refl resolved.url))
        f

  -- Where a client is cached for the URL and a new one can be made, the call is tried with the cached
  -- client; after an error of authentication it is tried once more, with the new client, which is
  -- cached from then on, and the outcome of that try is final, whatever it is; after any other outcome
  -- nothing more is tried and the cache stays.
  pub retry_once :
      (registry : AgentRegistry) (resolved : ResolveResult) (stale renewed : S.Client)
      (r : ClientResolver S) (w : W)
      → GoMap.lookup resolved.url r.clients ≡ some stale
      → fresh S registry resolved ≡ ok renewed
      → let first = fn stale w in
        let out = resolve_client_with_auth_retry registry resolved r w in
        (out.0 ≡ (if needs_retry first.0 then (fn renewed first.1).0 else first.0))
        × (out.1.1 ≡ (if needs_retry first.0 then (fn renewed first.1).1 else first.1))
        × (GoMap.lookup resolved.url out.1.0.clients
            ≡ some (if needs_retry first.0 then renewed else stale))
  unfolding resolve_client_with_auth_retry
  retry_once registry resolved stale renewed r w e f =
      rw (resolve_cached S registry resolved stale r e)
        (elim (Bool-cases (needs_retry (fn stale w).0)) [
          | inl q ↦
              rw (q, resolve-evicted registry resolved renewed r f)
                (
                  refl,
                  refl,
                  GoMap.lookup-insert resolved.url resolved.url renewed
                        (GoMap.delete resolved.url r.clients)
                      ∙ ground (arith, eq_refl resolved.url),
                )
          | inr q ↦ rw q (refl, refl, e)
        ])
