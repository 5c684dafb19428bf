-- ===== src/Tool/Poll/Termination.antt =====
-- The polling ends by its deadline: how many ticks of its clock that takes.
use a2a_gateway_mcp.Prelude.{
  ℕ, ◌+◌, ◌*◌, ◌≤◌, ◌<◌, ◌≡◌, refl, Bool, true, false, Option, none, some, List, [], ◌∷◌, String,
  arith, if◌then◌else◌, ltb, length,
}
use a2a_gateway_mcp.Prelude.Int.{pos}
use a2a_gateway_mcp.Errors.{Error, ok, err, Arg}
use a2a_gateway_mcp.A2a.{Task}
use a2a_gateway_mcp.Tool.Poll.{
  Round, context_done, tick, ends_polling, poll_loop, poll_task_completion, deadline,
}

-- 2 * time.Second
abbrev pub task_poll_interval : ℕ
task_poll_interval = 2000000000

-- A ticker that starts at t delivers its ticks one interval after the other, at the soonest.
abbrev pub Paced : ℕ → List Round → Type 0
Paced t [] = Unit
Paced t (context_done ∷ rounds) = Unit
Paced t (tick now reply ∷ rounds) =
    (t + task_poll_interval ≤ now) × Paced (t + task_poll_interval) rounds

limit_of : (start n : ℕ) → 0 < n → deadline start (pos n) ≡ some (start + n)
limit_of start n h = ground arith

module _ (sprintf : String → List Arg → String) where
  -- The loop returns.
  abbrev Returns : Option (Option Task × Option Error) → Type 0
  Returns out = (r : Option Task × Option Error) × (out ≡ some r)

  choice-Returns :
      (late ends : Bool) (a b : Option Task × Option Error)
      (rest : Option (Option Task × Option Error))
      → (late ≡ false → Returns rest)
      → Returns (if late then some a else if ends then some b else rest)
  choice-Returns true ends a b rest h = (a, refl)
  choice-Returns false true a b rest h = (b, refl)
  choice-Returns false false a b rest h = h refl

  either-Returns :
      (late : Bool) (a b : Option Task × Option Error) → Returns (if late then some a else some b)
  either-Returns true a b = (a, refl)
  either-Returns false a b = (b, refl)

  loop-Returns :
      (shown : String) (d t : ℕ) (rounds : List Round) (last : Option Task)
      → Paced t rounds
      → t ≤ d
      → d < t + length rounds * task_poll_interval
      → Returns (poll_loop sprintf shown (some d) rounds last)
  unfolding poll_loop
  loop-Returns shown d t [] last p h l = absurd (omega arith)
  loop-Returns shown d t (context_done ∷ rounds) last p h l = ((last, _), refl)
  loop-Returns shown d t (tick now (err e) ∷ rounds) last p h l = either-Returns (ltb d now) _ _
  loop-Returns shown d t (tick now (ok task) ∷ rounds) last p h l =
      choice-Returns (ltb d now) (ends_polling task.status.state) _ _
        (poll_loop sprintf shown (some d) rounds (some task))
        (λ q.
          loop-Returns shown d (t + task_poll_interval) rounds (some task) p.1 (ground (arith, p.0))
            (omega arith))

  -- With a positive timeout the polling has returned, with a task or an error, once the ticks of its
  -- clock, one every two seconds, have outlasted the timeout, whatever the agent answers.
  pub poll_returns :
      (start n : ℕ) (shown : String) (rounds : List Round)
      → 0 < n
      → Paced start rounds
      → n < length rounds * task_poll_interval
      → (r : Option Task × Option Error) × (poll_task_completion sprintf start (pos n) shown rounds
          ≡ some r)
  unfolding poll_task_completion
  poll_returns start n shown rounds h p l =
      rw (limit_of start n h)
        (loop-Returns shown (start + n) start rounds none p (omega arith) (omega arith))
