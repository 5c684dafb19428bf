-- ===== src/Registry/Limits/Config.antt =====
-- The limits that are configured, over the calls that set, remove and use them.
use a2a_gateway_mcp.Prelude.{
  ◌∙◌, ℕ, ◌≡◌, Option, none, some, String, if◌then◌else◌, arith, ◌==◌, eq_iff, Option-cases,
  Bool-cases, inl, inr, nat_eq,
}
use a2a_gateway_mcp.Prelude.Int.{ℤ}
use a2a_gateway_mcp.GoMap
use a2a_gateway_mcp.GoMap.{GoMap}
use a2a_gateway_mcp.Registry.Limits.{
  RateLimiting, RateLimiterRegistry, is_disabled_pair, set, remove, allow, get, checked, stored,
  check_rate_limit,
}

module _ (R : RateLimiting) where
  open R use {Float, Limiter, new_limiter, limit, burst, allow_now, reserve, cancel}

  settings : Option Limiter → Option (Float × ℤ)
  settings none = none
  settings (some l) = some (limit l, burst l)

  get-settings :
      (b : String) (r : RateLimiterRegistry R) → get R b r ≡ settings (GoMap.lookup b r.limiters)
  unfolding get settings
  get-settings b r = ground arith

  -- `set` configures its alias alone: with the rate and the burst, or, if one of them is not
  -- positive, with no limit. `remove` leaves its alias without a limit.
  pub limit-set :
      (alias b : String) (rps : Float) (size : ℤ) (r : RateLimiterRegistry R)
      → (get R b (set R alias rps size r) ≡ (
          if alias == b
          then (if is_disabled_pair R rps size then none else some (rps, size))
          else get R b r))
        × (get R b (remove R alias r) ≡ (if alias == b then none else get R b r))
  unfolding set remove settings
  limit-set alias b rps size r = (
    get-settings b (set R alias rps size r) ∙ (elim (Bool-cases (is_disabled_pair R rps size)) [
      | inl d ↦ rw (d, GoMap.lookup-delete alias b r.limiters, get-settings b r) (ground arith)
      | inr d ↦
          rw (d, GoMap.lookup-insert alias b (new_limiter rps size) r.limiters, get-settings b r)
            (ground (arith, R.limit-new rps size, R.burst-new rps size))
    ]),
    rw (get-settings b (remove R alias r), GoMap.lookup-delete alias b r.limiters, get-settings b r)
        (ground arith),
  )

  get-stored :
      (alias b : String) (l l' : Limiter) (r : RateLimiterRegistry R)
      → GoMap.lookup alias r.limiters ≡ some l
      → limit l' ≡ limit l
      → burst l' ≡ burst l
      → get R b (stored R alias l' r) ≡ get R b r
  unfolding settings
  get-stored alias b l l' r e p q =
      rw
        (
          get-settings b (stored R alias l' r),
          GoMap.lookup-insert alias b l' r.limiters,
          get-settings b r,
        )
        (ground (arith, e, eq_iff alias b))

  get-checked :
      (now : ℕ) (alias b : String) (l : Limiter) (r : RateLimiterRegistry R)
      → GoMap.lookup alias r.limiters ≡ some l
      → get R b (checked R now alias l r).1 ≡ get R b r
  get-checked now alias b l r e =
      let held = (reserve now l).1 in
      let (lk, bk) = R.settings-reserve now l in
      let (lc, bc) = R.settings-cancel now held in
      elim (Bool-cases (nat_eq (reserve now l).0 0)) [
        | inl z ↦ rw z (get-stored alias b l held r e lk bk)
        | inr z ↦ rw z (get-stored alias b l (cancel now held).0 r e (lc ∙ lk) (bc ∙ bk))
      ]

  -- Using the limiter of an alias, granted or not, changes no configured limit.
  pub get-allow :
      (now : ℕ) (alias b : String) (r : RateLimiterRegistry R)
      → (get R b (allow R now alias r).1 ≡ get R b r)
        × (get R b (check_rate_limit R now alias r).1 ≡ get R b r)
  unfolding allow check_rate_limit
  get-allow now alias b r = elim (Option-cases (GoMap.lookup alias r.limiters)) [
    | inl e ↦ (rw (e, allow), rw (e, check_rate_limit))
    | inr (l, e) ↦ (
      rw (e, allow)
          (get-stored alias b l (allow_now now l).1 r e (R.settings-allow now l).0
            (R.settings-allow now l).1),
      rw (e, check_rate_limit) (get-checked now alias b l r e),
    )
  ]
