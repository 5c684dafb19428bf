-- ===== src/History/Entries.antt =====
-- history/history_backend.go: the recorded interaction, and the bounded list of recent ones that
-- the backends promise to keep.
use a2a_gateway_mcp.Prelude.{
  ℕ, suc, ◌+◌, ◌-◌, ◌≤◌, ◌≡◌, ap, Bool, List, [], ◌∷◌, ◌++◌, String, arith, length, length-append,
  drop, drop-append, drop-drop, length-drop,
}

pub record Entry : Type 0 where
  pub timestamp : String
  pub sent_message : String
  pub response : String
  pub context_id : String
  pub task_id : String
  pub is_error : Bool

-- The last d entries of a list.
unfoldable pub last_n {ℓ} : {A : Type ℓ} → ℕ → List A → List A
last_n d xs = drop (length xs - d) xs

module _ {ℓ} {A : Type ℓ} where
  pub length-last_n-le : (d : ℕ) (xs : List A) → length (last_n d xs) ≤ d
  unfolding last_n
  length-last_n-le d xs = omega (arith, length-drop (length xs - d) xs)

  pub last_n_short : (d : ℕ) (xs : List A) → length xs ≤ d → last_n d xs ≡ xs
  unfolding last_n
  last_n_short d xs h = let e : length xs - d ≡ 0 = omega arith in rw e

  -- One more entry at the end of the last d entries, and the oldest beyond d dropped, are the last d
  -- entries of the longer list.
  pub last_n-snoc :
      (d : ℕ) (xs : List A) (x : A)
      → last_n (suc d) (last_n (suc d) xs ++ x ∷ []) ≡ last_n (suc d) (xs ++ x ∷ [])
  unfolding last_n
  last_n-snoc d xs x =
      let k = length xs - suc d in
      let longer = xs ++ x ∷ [] in
      let moved : drop k longer ≡ drop k xs ++ x ∷ [] = drop-append k xs (x ∷ []) (omega arith) in
      let count : k + (length (drop k longer) - suc d) ≡ length longer - suc d =
        omega (arith, length-drop k longer, length-append xs (x ∷ [])) in
      rw (← moved, drop-drop (length (drop k longer) - suc d) k longer)
        (ap (λ n. drop n longer) count)
