-- ===== src/Tool/Send/Composition.antt =====
-- What the request for a message consists of, and which stores it has touched.
use a2a_gateway_mcp.Prelude.{
  [], ◌∙◌, sym, subst, eq_iff, ◌≢◌, sym, ℕ, ◌≡◌, refl, ap, Bool, true, false, ◌&&◌, Option, none,
  some, List, ◌==◌, if◌then◌else◌, Bool-cases, inl, inr,
}
use a2a_gateway_mcp.Errors.{errorf, Error, Result, ok, err, ok_injective}
use a2a_gateway_mcp.A2a.{Part}
use a2a_gateway_mcp.Registry.CallerCards.{inject_caller_card}
use a2a_gateway_mcp.Registry.Clients.{resolve, ClientResolver}
use a2a_gateway_mcp.Registry.Contexts
use a2a_gateway_mcp.Registry.Limits.{RateLimiterRegistry, check_rate_limit}
use a2a_gateway_mcp.Registry.Resolved.{ResolveResult}
use a2a_gateway_mcp.Tool.Input.{build_message_parts}
use a2a_gateway_mcp.Tool.Send.{
  Environment, SendMessageInput, SendMessageRequest, SendRequest, Stores, given_metadata,
  context_for, request_of, with_client, admitted, limited_by, to_agent, with_parts,
  build_send_request,
}
use a2a_gateway_mcp.Tool.Session.{resolve_agent}

module _ (E : Environment) where
  open E use {limiting, sdk, parse, decode_string}

  -- Only the clients and the limiters may differ.
  abbrev pub Untouched : Stores E → Stores E → Type 0
  Untouched s s' =
      (s'.agents ≡ s.agents)
      × (s'.contexts ≡ s.contexts)
      × (s'.caller_cards ≡ s.caller_cards)
      × (s'.health ≡ s.health)
      × (s'.history ≡ s.history)
      × (s'.inbox ≡ s.inbox)

  -- What a message goes out with.
  abbrev pub IsFor :
      SendMessageInput → List (Option Part) → ResolveResult → Stores E → SendRequest E → Type 0
  IsFor input parts resolved s sr =
      (sr.resolved ≡ resolved) × (sr.request ≡ request_of E input parts resolved s)

  with_client-ok :
      (resolved : ResolveResult) (request : SendMessageRequest)
      (out : Result sdk.Client × ClientResolver sdk) (s : Stores E) (sr : SendRequest E)
      → (with_client E resolved request out s).0 ≡ ok sr
      → (sr.resolved ≡ resolved) × (sr.request ≡ request)
  with_client-ok resolved request (err e, clients) s sr h = cc h
  with_client-ok resolved request (ok client, clients) s sr h =
      let e = ok_injective h in (ap (λ r. r.resolved) (sym e), ap (λ r. r.request) (sym e))

  with_client-Untouched :
      (resolved : ResolveResult) (request : SendMessageRequest)
      (out : Result sdk.Client × ClientResolver sdk) (s : Stores E)
      → Untouched s (with_client E resolved request out s).1
  with_client-Untouched resolved request (err e, clients) s = (refl, refl, refl, refl, refl, refl)
  with_client-Untouched resolved request (ok c, clients) s = (refl, refl, refl, refl, refl, refl)

  limited_by-ok :
      (input : SendMessageInput) (parts : List (Option Part)) (resolved : ResolveResult)
      (check : Option Error × RateLimiterRegistry limiting) (s : Stores E) (sr : SendRequest E)
      → (limited_by E input parts resolved check s).0 ≡ ok sr
      → (check.0 ≡ none) × IsFor input parts resolved s sr
  unfolding context_for
  limited_by-ok input parts resolved (some e, limits) s sr h = cc h
  limited_by-ok input parts resolved (none, limits) s sr h = (
    refl,
    with_client-ok resolved (request_of E input parts resolved s)
        (resolve sdk s.agents resolved s.clients) (record s { limits = limits }) sr h,
  )

  limited_by-Untouched :
      (input : SendMessageInput) (parts : List (Option Part)) (resolved : ResolveResult)
      (check : Option Error × RateLimiterRegistry limiting) (s : Stores E)
      → Untouched s (limited_by E input parts resolved check s).1
  limited_by-Untouched input parts resolved (some e, limits) s =
      (refl, refl, refl, refl, refl, refl)
  limited_by-Untouched input parts resolved (none, limits) s =
      with_client-Untouched resolved
        (request_of E input parts resolved (record s { limits = limits }))
        (resolve sdk s.agents resolved s.clients) (record s { limits = limits })

  -- An alias is checked against its limit, a URL is not.
  abbrev pub IsAdmitted : ℕ → ResolveResult → Stores E → Type 0
  IsAdmitted now resolved s =
      (if resolved.is_alias
        then (check_rate_limit limiting now resolved.alias s.limits).0
        else none)
      ≡ none

  by_kind-ok :
      (now : ℕ) (input : SendMessageInput) (parts : List (Option Part)) (resolved : ResolveResult)
      (b : Bool) (check : Option Error × RateLimiterRegistry limiting) (s : Stores E)
      (sr : SendRequest E)
      → (if b
          then limited_by E input parts resolved check s
          else admitted E input parts resolved s).0
        ≡ ok sr
      → ((if b then check.0 else none) ≡ none) × IsFor input parts resolved s sr
  by_kind-ok now input parts resolved true check s sr h =
      limited_by-ok input parts resolved check s sr h
  by_kind-ok now input parts resolved false check s sr h = (
    refl,
    with_client-ok resolved (request_of E input parts resolved s)
        (resolve sdk s.agents resolved s.clients) s sr h,
  )

  by_kind-Untouched :
      (input : SendMessageInput) (parts : List (Option Part)) (resolved : ResolveResult) (b : Bool)
      (check : Option Error × RateLimiterRegistry limiting) (s : Stores E)
      → Untouched s
          (if b
            then limited_by E input parts resolved check s
            else admitted E input parts resolved s).1
  by_kind-Untouched input parts resolved true check s =
      limited_by-Untouched input parts resolved check s
  by_kind-Untouched input parts resolved false check s =
      with_client-Untouched resolved (request_of E input parts resolved s)
        (resolve sdk s.agents resolved s.clients) s

  to_agent-ok :
      (now : ℕ) (input : SendMessageInput) (parts : List (Option Part))
      (target : Result ResolveResult) (s : Stores E) (sr : SendRequest E)
      → (to_agent E now input parts target s).0 ≡ ok sr
      → (target ≡ ok sr.resolved)
        × IsAdmitted now sr.resolved s
        × (sr.request ≡ request_of E input parts sr.resolved s)
  to_agent-ok now input parts (err e) s sr h = cc h
  to_agent-ok now input parts (ok resolved) s sr h =
      let (admission, (same, request)) =
        by_kind-ok now input parts resolved resolved.is_alias
          (check_rate_limit limiting now resolved.alias s.limits) s sr h in
      subst
        (λ r.
          (ok resolved ≡ ok r) × IsAdmitted now r s × (sr.request ≡ request_of E input parts r s))
        (sym same) (refl, admission, request)

  to_agent-Untouched :
      (now : ℕ) (input : SendMessageInput) (parts : List (Option Part))
      (target : Result ResolveResult) (s : Stores E)
      → Untouched s (to_agent E now input parts target s).1
  to_agent-Untouched now input parts (err e) s = (refl, refl, refl, refl, refl, refl)
  to_agent-Untouched now input parts (ok resolved) s =
      by_kind-Untouched input parts resolved resolved.is_alias
        (check_rate_limit limiting now resolved.alias s.limits) s

  with_parts-ok :
      (now : ℕ) (input : SendMessageInput) (parts : Result (List (Option Part))) (s : Stores E)
      (sr : SendRequest E)
      → (with_parts E now input parts s).0 ≡ ok sr
      → (parts ≡ ok sr.request.message.parts)
        × (resolve_agent parse s.agents input.agent ≡ ok sr.resolved)
        × IsAdmitted now sr.resolved s
        × (sr.request ≡ request_of E input sr.request.message.parts sr.resolved s)
  with_parts-ok now input (err e) s sr h = cc h
  with_parts-ok now input (ok parts) s sr h =
      let (target, admission, request) =
        to_agent-ok now input parts (resolve_agent parse s.agents input.agent) s sr h in
      let same : parts ≡ sr.request.message.parts = ap (λ r. r.message.parts) (sym request) in
      (ap ok same, target, admission, request ∙ ap (λ ps. request_of E input ps sr.resolved s) same)

  with_parts-Untouched :
      (now : ℕ) (input : SendMessageInput) (parts : Result (List (Option Part))) (s : Stores E)
      → Untouched s (with_parts E now input parts s).1
  with_parts-Untouched now input (err e) s = (refl, refl, refl, refl, refl, refl)
  with_parts-Untouched now input (ok parts) s =
      to_agent-Untouched now input parts (resolve_agent parse s.agents input.agent) s

  named-ok :
      (b : Bool) (e : Error) (s : Stores E) (out : Result (SendRequest E) × Stores E)
      (sr : SendRequest E)
      → (if b then (err e, s) else out).0 ≡ ok sr
      → (b ≡ false) × (out.0 ≡ ok sr)
  named-ok true e s out sr h = cc h
  named-ok false e s out sr h = (refl, h)

  -- A request is only built for an identifier that is not empty and resolves, with parts that are
  -- accepted, and past the limit of its alias. It carries these parts, the context of the caller or
  -- else, for an alias, the stored one, the caller's task, and the metadata with the caller card.
  pub build-request :
      (now : ℕ) (input : SendMessageInput) (s : Stores E) (sr : SendRequest E)
      → (build_send_request E now input s).0 ≡ ok sr
      → (input.agent ≢ "")
        × (build_message_parts decode_string input.message input.parts
            ≡ ok sr.request.message.parts)
        × (resolve_agent parse s.agents input.agent ≡ ok sr.resolved)
        × IsAdmitted now sr.resolved s
        × (sr.request.message.context_id ≡ (
            if input.context_id == "" && sr.resolved.is_alias
            then Contexts.get input.agent s.contexts
            else input.context_id))
        × (sr.request.message.task_id ≡ input.task_id)
        × (sr.request.metadata ≡ inject_caller_card s.caller_cards (given_metadata input.metadata))
  unfolding build_send_request
  build-request now input s sr h =
      let parts = build_message_parts decode_string input.message input.parts in
      let (named, built) =
        named-ok (input.agent == "") (errorf "agent identifier is required" []) s
          (with_parts E now input parts s) sr h in
      let (accepted, target, admission, request) = with_parts-ok now input parts s sr built in
      (
        λ e. cc ((eq_iff input.agent "").1 e, named),
        accepted,
        target,
        admission,
        ap (λ r. r.message.context_id) request ∙ (unfold context_for in refl),
        ap (λ r. r.message.task_id) request,
        ap (λ r. r.metadata) request,
      )

  -- Whether a request is built or refused, and for whatever reason, it leaves the agents, the
  -- contexts, the caller card, the health, the history and the inbox as they are.
  pub build-Untouched :
      (now : ℕ) (input : SendMessageInput) (s : Stores E)
      → Untouched s (build_send_request E now input s).1
  unfolding build_send_request
  build-Untouched now input s = elim (Bool-cases (input.agent == "")) [
    | inl q ↦ rw q (refl, refl, refl, refl, refl, refl)
    | inr q ↦ rw q (
        with_parts-Untouched now input (build_message_parts decode_string input.message input.parts)
          s)
  ]
