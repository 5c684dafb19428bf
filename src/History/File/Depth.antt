-- ===== src/History/File/Depth.antt =====
-- What the file backend keeps, over any calls on it.
use a2a_gateway_mcp.Prelude.{
  ◌≡◌, ℕ, suc, refl, ap, ◌∙◌, sym, Option, none, some, List, [], ◌∷◌, ◌++◌, String, ◌==◌, eq_iff,
  if◌then◌else◌, All, Bool-cases, inl, inr,
}
use a2a_gateway_mcp.Prelude.Int.{pos}
use a2a_gateway_mcp.Errors.{Error, ok}
use a2a_gateway_mcp.History.Entries.{Entry, last_n, last_n-snoc, length-last_n-le}
use a2a_gateway_mcp.History.Memory.Depth.{
  Call, appends, deletes, clears, recorded, evict, evict-last_n, last_n-nil,
}
use a2a_gateway_mcp.History.File.{
  Files, FileBackend, read_entries, write_entries, list, delete, clear, alias_path,
}
use a2a_gateway_mcp.History.File.Runs.{
  IsReliable, step, run, write-succeeds, read-written, remove-succeeds, read-removed, removed-state,
  append-succeeds,
}
use a2a_gateway_mcp.Validate.Aliases.{IsAliasText}

recorded-cons :
    (c : String × Call) (cs : List (String × Call)) (b : String) (es : List Entry)
    → recorded b cs (recorded b (c ∷ []) es) ≡ recorded b (c ∷ cs) es
unfolding recorded
recorded-cons (a, appends e) cs b es = refl
recorded-cons (a, deletes) cs b es = refl
recorded-cons (a, clears) cs b es = refl

module _ (X : Files) (f : FileBackend) (r : IsReliable X f) (d : ℕ)
    (p : f.depth ≡ pos (suc d)) where
  -- The files hold the recent part of the given history of each agent.
  abbrev Holds : (String → List Entry) → X.F → Type 0
  Holds h s =
      ((b : String) → IsAliasText b → read_entries X f b s ≡ ok (last_n (suc d) (h b))) × r.Works s

  abbrev noted : String × Call → (String → List Entry) → String → List Entry
  noted c h b = recorded b (c ∷ []) (h b)

  abbrev Steps : String × Call → (String → List Entry) → X.F → Type 0
  Steps c h s = (s' : X.F) × (step X f c s ≡ some (none, s')) × Holds (noted c h) s'

  step-append :
      (a : String) (e : Entry) (h : String → List Entry) (s : X.F)
      → IsAliasText a
      → Holds h s
      → Steps (a, appends e) h s
  unfolding step recorded
  step-append a e h s va k =
      let es = last_n (suc d) (h a) in
      let le = length-last_n-le (suc d) (h a) in
      let kept = evict (suc d) es ++ e ∷ [] in
      let recent : kept ≡ last_n (suc d) (h a ++ e ∷ []) =
        evict-last_n d es e le ∙ last_n-snoc d (h a) e in
      (
        (write_entries X f a kept s).1,
        append-succeeds X f r d a e es s p le (k.0 a va)
            ∙ ap (λ o. some (o, (write_entries X f a kept s).1))
                (write-succeeds X f r a kept s va k.1).0,
        (
          λ b vb. read-written X f r a b kept s va vb k.1 ∙ elim (Bool-cases (a == b)) [
            | inl q ↦
                rw q
                  (ap ok recent ∙ ap (λ n. ok (last_n (suc d) (h n ++ e ∷ []))) ((eq_iff a b).0 q))
            | inr q ↦ rw q (k.0 b vb)
          ],
          (write-succeeds X f r a kept s va k.1).1,
        ),
      )

  removed-Holds :
      (a : String) (h : String → List Entry) (s : X.F)
      → IsAliasText a
      → Holds h s
      → (b : String) → IsAliasText b
      → read_entries X f b (X.remove (alias_path X f a) s).1
        ≡ ok (last_n (suc d) (if a == b then [] else h b))
  removed-Holds a h s va k b vb = read-removed X f r a b s va vb k.1 ∙ elim (Bool-cases (a == b)) [
    | inl q ↦ rw q (ap ok (sym (last_n-nil (suc d))))
    | inr q ↦ rw q (k.0 b vb)
  ]

  -- An outcome without an error, by its state.
  done : {o : Option Error × X.F} {s' : X.F} → o.0 ≡ none → o.1 ≡ s' → some o ≡ some (none, s')
  done q k = λ i. some (q i, k i)

  step-Holds :
      (c : String × Call) (h : String → List Entry) (s : X.F)
      → IsAliasText c.0
      → Holds h s
      → Steps c h s
  unfolding step recorded
  step-Holds (a, appends e) h s va k = step-append a e h s va k
  step-Holds (a, deletes) h s va k = (
    (X.remove (alias_path X f a) s).1,
    done (remove-succeeds X f r a s va k.1).0
        (unfold delete in removed-state X f r "deleting history file for %q: %w" a s va k.1),
    ((λ b vb. removed-Holds a h s va k b vb), (r.removes a s va k.1).1),
  )
  step-Holds (a, clears) h s va k = (
    (X.remove (alias_path X f a) s).1,
    done (remove-succeeds X f r a s va k.1).1
        (unfold clear in removed-state X f r "clearing history file for %q: %w" a s va k.1),
    ((λ b vb. removed-Holds a h s va k b vb), (r.removes a s va k.1).1),
  )

  abbrev Ends : List (String × Call) → (String → List Entry) → X.F → Type 0
  Ends cs h s = (s' : X.F) × (run X f cs s ≡ some s') × Holds (λ b. recorded b cs (h b)) s'

  run-Holds :
      (cs : List (String × Call)) (h : String → List Entry) (s : X.F)
      → All (λ c. IsAliasText c.0) cs
      → Holds h s
      → Ends cs h s
  unfolding run recorded
  run-Holds [] h s v k = (s, refl, k)
  run-Holds (c ∷ cs) h s v k =
      let (s₁, e, k₁) = step-Holds c h s v.0 k in
      let (s₂, e₂, k₂) = run-Holds cs (noted c h) s₁ v.1 k₁ in
      (
        s₂,
        rw e e₂,
        (
          (λ b vb. k₂.0 b vb ∙ ap (λ es. ok (last_n (suc d) es)) (recorded-cons c cs b (h b))),
          k₂.1,
        ),
      )

  -- On a file system that works, where nothing can be written before the directory is made, with a
  -- positive depth and no history of the agents before, no sequence
  -- of calls for valid aliases panics or fails, and afterwards `list` returns for a valid alias the
  -- last `depth` of the entries appended for it since it was last deleted or cleared, oldest first: what
  -- the in-memory backend of that depth returns.
  pub file-run :
      (cs : List (String × Call)) (b : String) (s : X.F)
      → All (λ c. IsAliasText c.0) cs
      → IsAliasText b
      → r.Works s
      → ((a : String) → IsAliasText a → read_entries X f a s ≡ ok [])
      → (s' : X.F) × (run X f cs s ≡ some s')
        × (list X f b s' ≡ ok (last_n (suc d) (recorded b cs [])))
  unfolding list
  file-run cs b s v vb works fresh =
      let start : Holds (λ _. []) s =
        ((λ a va. fresh a va ∙ ap ok (sym (last_n-nil (suc d)))), works) in
      let (s', e, k) = run-Holds cs (λ _. []) s v start in (s', e, k.0 b vb)
