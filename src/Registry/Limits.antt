-- ===== src/Registry/Limits.antt =====
-- registry/rate_limiter.go: the rate limiters of the agents. The limiter itself is the package
-- golang.org/x/time/rate, a parameter here: floating-point rates, limiters, and what the code calls
-- of them at a time that it reads from the clock.
pub mod Config
use a2a_gateway_mcp.Prelude.{
  ℕ, ◌≡◌, Bool, true, false, ◌||◌, Option, none, some, List, [], ◌∷◌, String, if◌then◌else◌, nat_eq,
}
use a2a_gateway_mcp.Prelude.Int.{ℤ, pos, is_le_zero}
use a2a_gateway_mcp.GoMap
use a2a_gateway_mcp.GoMap.{GoMap}
use a2a_gateway_mcp.Errors.{Error, errorf, text}

pub record RateLimiting : Type 1 where
  pub Float : Type 0
  pub float_zero : Float
  -- f <= 0 and f > 0, which are both false of NaN
  pub is_not_positive : Float → Bool
  pub is_positive : Float → Bool
  pub is_below_zero : Float → Bool
  pub Limiter : Type 0
  -- rate.NewLimiter, and the two settings that it holds
  pub new_limiter : Float → ℤ → Limiter
  pub limit : Limiter → Float
  pub burst : Limiter → ℤ
  -- Allow: is there a token now, and the limiter after that
  pub allow_now : ℕ → Limiter → Bool × Limiter
  -- Reserve and Delay: how long to wait, and the limiter with the token reserved
  pub reserve : ℕ → Limiter → ℕ × Limiter
  -- Cancel, and the text of the rounded Delay after it
  pub cancel : ℕ → Limiter → Limiter × String
  pub positive-not : (f : Float) → is_positive f ≡ true → is_not_positive f ≡ false
  -- the settings are those of the construction, and taking tokens does not change them
  pub limit-new : (f : Float) (b : ℤ) → limit (new_limiter f b) ≡ f
  pub burst-new : (f : Float) (b : ℤ) → burst (new_limiter f b) ≡ b
  pub settings-allow :
      (now : ℕ) (l : Limiter)
      → (limit (allow_now now l).1 ≡ limit l) × (burst (allow_now now l).1 ≡ burst l)
  pub settings-reserve :
      (now : ℕ) (l : Limiter)
      → (limit (reserve now l).1 ≡ limit l) × (burst (reserve now l).1 ≡ burst l)
  pub settings-cancel :
      (now : ℕ) (l : Limiter)
      → (limit (cancel now l).0 ≡ limit l) × (burst (cancel now l).0 ≡ burst l)

module _ (R : RateLimiting) where
  open R use {
    Float, is_not_positive, Limiter, new_limiter, limit, burst, allow_now, reserve, cancel,
  }

  pub record RateLimitConfig : Type 0 where
    pub requests_per_second : Float
    pub burst : ℤ

  pub record RateLimiterRegistry : Type 0 where
    pub limiters : GoMap Limiter

  unfoldable pub new_rate_limiter_registry : RateLimiterRegistry
  new_rate_limiter_registry = record { limiters = GoMap.empty }

  abbrev pub is_disabled_pair : Float → ℤ → Bool
  is_disabled_pair rps burst_size = is_not_positive rps || is_le_zero burst_size

  unfoldable pub is_disabled : RateLimitConfig → Bool
  is_disabled c = is_disabled_pair c.requests_per_second c.burst

  unfoldable pub set : String → Float → ℤ → RateLimiterRegistry → RateLimiterRegistry
  set alias rps burst_size r =
      if is_disabled_pair rps burst_size
      then record { limiters = GoMap.delete alias r.limiters }
      else record { limiters = GoMap.insert alias (new_limiter rps burst_size) r.limiters }

  unfoldable pub remove : String → RateLimiterRegistry → RateLimiterRegistry
  remove alias r = record { limiters = GoMap.delete alias r.limiters }

  -- The limiter under the alias is changed in place.
  abbrev pub stored : String → Limiter → RateLimiterRegistry → RateLimiterRegistry
  stored alias l r = record { limiters = GoMap.insert alias l r.limiters }

  unfoldable pub allow : ℕ → String → RateLimiterRegistry → Bool × RateLimiterRegistry
  allow now alias r = elim (GoMap.lookup alias r.limiters) [
    | none ↦ (true, r)
    | some l ↦ ((allow_now now l).0, stored alias (allow_now now l).1 r)
  ]

  unfoldable pub get : String → RateLimiterRegistry → Option (Float × ℤ)
  get alias r = elim (GoMap.lookup alias r.limiters) [
    | none ↦ none
    | some l ↦ some (limit l, burst l)
  ]

  -- The message of a refused request.
  abbrev pub limited : String → String → Error
  limited alias wait =
      errorf "agent %q has exceeded its rate limit; retry after %s" (text alias ∷ text wait ∷ [])

  abbrev pub checked :
      ℕ → String → Limiter → RateLimiterRegistry → Option Error × RateLimiterRegistry
  checked now alias l r =
      let held = reserve now l in
      let back = cancel now held.1 in
      if nat_eq held.0 0
      then (none, stored alias held.1 r)
      else (some (limited alias back.1), stored alias back.0 r)

  unfoldable pub check_rate_limit :
      ℕ → String → RateLimiterRegistry → Option Error × RateLimiterRegistry
  check_rate_limit now alias r = elim (GoMap.lookup alias r.limiters) [
    | none ↦ (none, r)
    | some l ↦ checked now alias l r
  ]

  unfoldable pub len : RateLimiterRegistry → ℕ
  len r = GoMap.size r.limiters
