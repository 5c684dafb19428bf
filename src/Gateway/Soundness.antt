-- ===== src/Gateway/Soundness.antt =====
-- What holds of every server, whatever options it was made with, and which option counts.
use a2a_gateway_mcp.Prelude.{
  ◌≡◌, refl, ap, ◌∙◌, true, false, not, Option, none, some, List, [], ◌∷◌, ◌++◌, if◌then◌else◌,
  is_some, Bool-cases, inl, inr,
}
use a2a_gateway_mcp.Prelude.Int.{ℤ, pos, negsuc, is_le_zero, is_zero, is_negative}
use a2a_gateway_mcp.Registry.Inbox.{new_memory_inbox}
use a2a_gateway_mcp.Registry.Limits.{RateLimitConfig, is_disabled}
use a2a_gateway_mcp.Health.Tracker.{new_health_tracker}
use a2a_gateway_mcp.Gateway.Config.{
  Packages, HistoryOptions, ServerConfig, ServerOption, initial, configured, with_history,
}
use a2a_gateway_mcp.Gateway.Server.{
  History, at_least_zero, or_default, global_rate_limit, configure_history, threshold_for,
  server_of, new_server,
}

module _ (P : Packages) where
  open P use {limiting, memory_backend}

  -- There is a default limit only if it limits.
  abbrev pub Limits : Option (RateLimitConfig limiting) → Type 0
  Limits none = Unit
  Limits (some c) = is_disabled limiting c ≡ false

  -- A history that is recorded has a backend, a depth and a length for its entries.
  abbrev pub Records : History P → Type 0
  Records h =
      (is_some h.backend ≡ h.enabled)
      × (is_zero h.depth ≡ not h.enabled)
      × (is_le_zero h.max_entry_length ≡ not h.enabled)

  length_positive : (v : ℤ) → is_le_zero (if is_le_zero v then pos 1000 else v) ≡ false
  length_positive v = elim (Bool-cases (is_le_zero v)) [ inl q ↦ rw q refl | inr q ↦ rw q q ]

  history-Records : (cfg : ServerConfig P) → Records (configure_history P cfg)
  unfolding configure_history
  history-Records cfg = elim (Bool-cases cfg.history_configured) [
    | inl q ↦ rw q (elim (Bool-cases (is_zero cfg.history_depth)) [
      | inl z ↦ rw z (refl, refl, refl)
      | inr z ↦ rw z (refl, z, length_positive cfg.history_max_entry)
    ])
    | inr q ↦ rw q (refl, refl, refl)
  ]

  global_rate_limit-Limits : (cfg : ServerConfig P) → Limits (global_rate_limit P cfg)
  unfolding is_disabled
  global_rate_limit-Limits cfg = elim (Bool-cases (limiting.is_positive cfg.rate_limit_rps)) [
    | inl q ↦ elim (Bool-cases (is_le_zero cfg.rate_limit_burst)) [
      | inl z ↦ rw (q, z) tt
      | inr z ↦ rw (q, z) (rw (limiting.positive-not cfg.rate_limit_rps q, z) refl)
    ]
    | inr q ↦ rw q tt
  ]

  ttl_positive : (v : ℤ) → is_le_zero (if is_le_zero v then pos 1800000000000 else v) ≡ false
  ttl_positive v = elim (Bool-cases (is_le_zero v)) [ inl q ↦ rw q refl | inr q ↦ rw q q ]

  never_negative : (v : ℤ) → is_negative (at_least_zero v) ≡ false
  never_negative (pos n) = refl
  never_negative (negsuc n) = refl

  threshold_sound : (cfg : ServerConfig P) → is_negative (threshold_for P cfg) ≡ false
  threshold_sound cfg = elim (Bool-cases cfg.health_check_configured) [
    | inl q ↦ rw q (never_negative cfg.health_failure_threshold)
    | inr q ↦ rw q refl
  ]

  -- Whatever options a server is made with: its history has a backend, a depth other than zero and a
  -- positive length for entries exactly if it is enabled; entries of its inbox expire; its threshold
  -- for health is not negative; and a default limit, if it has one, does limit.
  pub new_server-Records :
      (opts : List (ServerOption P))
      → let s = new_server P opts in
        Records s.history
        × (is_le_zero s.inbox.ttl ≡ false)
        × (is_negative s.health_tracker.threshold ≡ false)
        × Limits s.default_rate_limit
  unfolding new_server new_memory_inbox new_health_tracker
  new_server-Records opts =
      let cfg = configured P opts (initial P) in
      (
        history-Records cfg,
        ttl_positive cfg.inbox_ttl,
        threshold_sound cfg,
        global_rate_limit-Limits cfg,
      )

  configured-append :
      (opts later : List (ServerOption P)) (cfg : ServerConfig P)
      → configured P (opts ++ later) cfg ≡ configured P later (configured P opts cfg)
  unfolding configured
  configured-append [] later cfg = refl
  configured-append (opt ∷ opts) later cfg = configured-append opts later (opt cfg)

  -- The history that the last of the options gives.
  abbrev pub history_for : HistoryOptions P → History P
  history_for o =
      if is_zero o.depth
      then record { enabled = false; depth = pos 0; max_entry_length = pos 0; backend = none }
      else record {
        enabled = true;
        depth = o.depth;
        max_entry_length = if is_le_zero o.max_entry_length then pos 1000 else o.max_entry_length;
        backend = some (or_default P o.backend (memory_backend o.depth));
      }

  -- The last configuration of the history counts, whatever the options before it were: a depth of
  -- zero turns it off, and otherwise it has that depth, also a negative one, and the given backend or
  -- one in memory.
  pub history-last :
      (opts : List (ServerOption P)) (o : HistoryOptions P)
      → (new_server P (opts ++ with_history P o ∷ [])).history ≡ history_for o
  unfolding new_server
  history-last opts o =
      ap (λ cfg. (server_of P cfg).history)
        (configured-append opts (with_history P o ∷ []) (initial P))
      ∙ (unfold configured with_history configure_history in refl)
