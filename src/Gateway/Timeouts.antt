-- ===== src/Gateway/Timeouts.antt =====
-- From the seconds of a request to the deadline of its polling.
use native.Mathlib.Nat.{mod-eq_of_lt}
use a2a_gateway_mcp.Prelude.{
  ℕ, ◌+◌, ◌*◌, ◌≤◌, ◌<◌, ◌≡◌, refl, ap, ◌∙◌, none, some, arith, ltb, if◌then◌else◌,
}
use a2a_gateway_mcp.Prelude.Int.{ℤ, pos, negsuc}
use a2a_gateway_mcp.Gateway.Config.{Packages}
use a2a_gateway_mcp.Gateway.Server.{Server, seconds, signed_64, effective_poll_timeout}
use a2a_gateway_mcp.Tool.Poll.{deadline}

within : (m : ℕ) → m < 9223372036854775808 → signed_64 m ≡ pos m
within m h = ground arith

-- Up to 9223372036 seconds the duration is exact.
seconds_exact : (n : ℕ) → n ≤ 9223372036 → seconds n ≡ pos (n * 1000000000)
unfolding seconds
seconds_exact n h =
    let small : n * 1000000000 < 18446744073709551616 = omega arith in
    ap signed_64 (mod-eq_of_lt small) ∙ within (n * 1000000000) (omega arith)

module _ (P : Packages) where
  given : (n : ℕ) (d e : ℤ) → 0 < n → (if ltb 0 n then d else e) ≡ d
  given n d e h = ground arith

  positive : (start m : ℕ) → 0 < m → deadline start (pos m) ≡ some (start + m)
  positive start m h = ground arith

  -- A request that asks for a number of seconds, from one to 9223372036, is polled until exactly then;
  -- one that asks for a negative number is polled without a deadline; one that asks for nothing or for
  -- zero seconds is polled until the default of the server.
  pub poll-deadline :
      (s : Server P) (start n k : ℕ)
      → 0 < n
      → n ≤ 9223372036
      → (deadline start (effective_poll_timeout P s (some (pos n))) ≡ some (start + n * 1000000000))
        × (deadline start (effective_poll_timeout P s (some (negsuc k))) ≡ none)
        × (effective_poll_timeout P s none ≡ s.poll_timeout)
        × (effective_poll_timeout P s (some (pos 0)) ≡ s.poll_timeout)
  unfolding effective_poll_timeout
  poll-deadline s start n k h l = (
    ap (deadline start) (given n (seconds n) s.poll_timeout h ∙ seconds_exact n l)
        ∙ positive start (n * 1000000000) (omega arith),
    refl,
    refl,
    refl,
  )

  -- Beyond that the product wraps around: a request for 9223372037 seconds has no deadline.
  pub seconds_wrap : (start : ℕ) → deadline start (seconds 9223372037) ≡ none
  unfolding seconds
  seconds_wrap start = refl
