-- ===== src/History/Memory/Depth.antt =====
-- The backend keeps the most recent entries of each agent, as many as its depth.
use a2a_gateway_mcp.Prelude.{
  ℕ, suc, ◌-◌, leb→le, ◌≤◌, ◌≡◌, refl, ◌∙◌, sym, true, false, Option, none, some, List, [], ◌∷◌,
  ◌++◌, String, ◌==◌, eq_iff, arith, if◌then◌else◌, length, length-append, drop-append, drop, leb,
  Bool-cases, inl, inr,
}
use a2a_gateway_mcp.Prelude.Int.{ℤ, pos, negsuc, is_le_zero, reaches}
use a2a_gateway_mcp.GoMap
use a2a_gateway_mcp.History.Entries.{Entry, last_n, last_n-snoc, last_n_short, length-last_n-le}
use a2a_gateway_mcp.History.Memory.{
  MemoryBackend, new_memory_backend, or_nil, tail, append, list, delete, clear,
}

-- The calls that change the backend.
pub data Call : Type 0 where
  appends : Entry → Call
  deletes clears : Call

unfoldable pub step : String × Call → MemoryBackend → Option MemoryBackend
step (alias, appends e) m = append alias e m
step (alias, deletes) m = some (delete alias m)
step (alias, clears) m = some (clear alias m)

-- A panic ends the run.
unfoldable pub run : List (String × Call) → MemoryBackend → Option MemoryBackend
run [] m = some m
run (c ∷ cs) m = elim (step c m) [ none ↦ none | some m' ↦ run cs m' ]

-- All that was recorded for the agent since it was last deleted or cleared.
unfoldable pub recorded : String → List (String × Call) → List Entry → List Entry
recorded alias [] es = es
recorded alias ((a, appends e) ∷ cs) es =
    recorded alias cs (if a == alias then es ++ e ∷ [] else es)
recorded alias ((a, deletes) ∷ cs) es = recorded alias cs (if a == alias then [] else es)
recorded alias ((a, clears) ∷ cs) es = recorded alias cs (if a == alias then [] else es)

-- Room is made for one more entry.
unfoldable pub evict : ℕ → List Entry → List Entry
evict d es = if leb d (length es) then drop 1 es else es

tail-evict :
    (d : ℕ) (es : List Entry)
    → (if reaches (length es) (pos (suc d)) then tail es else some es) ≡ some (evict (suc d) es)
unfolding evict
tail-evict d [] = ground arith
tail-evict d (e ∷ es) = ground arith

pub evict-last_n :
    (d : ℕ) (es : List Entry) (e : Entry)
    → length es ≤ suc d
    → evict (suc d) es ++ e ∷ [] ≡ last_n (suc d) (es ++ e ∷ [])
unfolding evict
evict-last_n d es e h = elim (Bool-cases (leb (suc d) (length es))) [
  | inl q ↦
      let one : length (es ++ e ∷ []) - suc d ≡ 1 =
        omega (arith, leb→le (suc d) (length es) q, length-append es (e ∷ [])) in
      rw q (
        unfold last_n in
        rw one (sym (drop-append 1 es (e ∷ []) (omega (arith, leb→le (suc d) (length es) q)))))
  | inr q ↦ rw q (
      sym (
        last_n_short (suc d) (es ++ e ∷ []) (omega (arith, short es q, length-append es (e ∷ [])))))
]
  where
    short : (xs : List Entry) → leb (suc d) (length xs) ≡ false → length xs ≤ d
    short xs q = ground arith

-- The state after an append, where the depth is positive.
after : ℕ → String → Entry → MemoryBackend → MemoryBackend
after d alias e m = record m {
  entries = GoMap.insert alias (evict (suc d) (list alias m) ++ e ∷ []) m.entries;
}

append-after :
    (d : ℕ) (alias : String) (e : Entry) (m : MemoryBackend)
    → m.depth ≡ pos (suc d)
    → append alias e m ≡ some (after d alias e m)
unfolding append after list
append-after d alias e m h = rw (h, tail-evict d (or_nil (GoMap.lookup alias m.entries)))

-- The backend holds the recent part of the given history of each agent.
record Holds (d : ℕ) (h : String → List Entry) (m : MemoryBackend) : Type 0 where
  depth : m.depth ≡ pos (suc d)
  recent : (alias : String) → list alias m ≡ last_n (suc d) (h alias)

-- The history of each agent after one more call.
abbrev noted : String × Call → (String → List Entry) → String → List Entry
noted c h alias = recorded alias (c ∷ []) (h alias)

list-after :
    (d : ℕ) (a alias : String) (e : Entry) (m : MemoryBackend)
    → list alias (after d a e m)
      ≡ (if a == alias then evict (suc d) (list a m) ++ e ∷ [] else list alias m)
unfolding after list
list-after d a alias e m =
    rw
      (GoMap.lookup-insert a alias (evict (suc d) (or_nil (GoMap.lookup a m.entries)) ++ e ∷ [])
        m.entries)
      (ground arith)

pub list-delete :
    (a alias : String) (m : MemoryBackend)
    → (list alias (delete a m) ≡ (if a == alias then [] else list alias m))
      × (list alias (clear a m) ≡ (if a == alias then [] else list alias m))
unfolding list delete clear
list-delete a alias m = rw (GoMap.lookup-delete a alias m.entries) (ground arith, ground arith)

pub last_n-nil : (d : ℕ) → last_n {A = Entry} d [] ≡ []
last_n-nil d = last_n_short d [] (omega arith)

append-Holds :
    (d : ℕ) (a : String) (e : Entry) (h : String → List Entry) (m : MemoryBackend)
    → Holds d h m
    → Holds d (noted (a, appends e) h) (after d a e m)
unfolding recorded
append-Holds d a e h m k = record {
  depth = unfold after in k.depth;
  recent = λ alias. list-after d a alias e m ∙ at alias;
}
  where
    at :
        (alias : String)
        → (if a == alias then evict (suc d) (list a m) ++ e ∷ [] else list alias m)
          ≡ last_n (suc d) (if a == alias then h alias ++ e ∷ [] else h alias)
    at alias = elim (Bool-cases (a == alias)) [
      | inl q ↦
          rw (q, ← (eq_iff a alias).0 q, k.recent a)
            (evict-last_n d (last_n (suc d) (h a)) e (length-last_n-le (suc d) (h a))
              ∙ last_n-snoc d (h a) e)
      | inr q ↦ rw q (k.recent alias)
    ]

delete-Holds :
    (d : ℕ) (a : String) (h : String → List Entry) (m : MemoryBackend)
    → Holds d h m
    → Holds d (noted (a, deletes) h) (delete a m) × Holds d (noted (a, clears) h) (clear a m)
unfolding recorded
delete-Holds d a h m k = (
  record {
    depth = unfold delete in k.depth;
    recent = λ alias. (list-delete a alias m).0 ∙ at alias;
  },
  record {
    depth = unfold clear in k.depth;
    recent = λ alias. (list-delete a alias m).1 ∙ at alias;
  },
)
  where
    at :
        (alias : String)
        → (if a == alias then [] else list alias m)
          ≡ last_n (suc d) (if a == alias then [] else h alias)
    at alias = elim (Bool-cases (a == alias)) [
      | inl q ↦ rw q (sym (last_n-nil (suc d)))
      | inr q ↦ rw q (k.recent alias)
    ]

step-append :
    (d : ℕ) (a : String) (e : Entry) (m : MemoryBackend)
    → m.depth ≡ pos (suc d)
    → step (a, appends e) m ≡ some (after d a e m)
unfolding step
step-append d a e m h = append-after d a e m h

abbrev Runs : ℕ → List (String × Call) → (String → List Entry) → MemoryBackend → Type 0
Runs d cs h m =
    (m' : MemoryBackend) × (run cs m ≡ some m')
    × ((alias : String) → list alias m' ≡ last_n (suc d) (recorded alias cs (h alias)))

run-cons :
    (c : String × Call) (cs : List (String × Call)) (m m' : MemoryBackend)
    → step c m ≡ some m'
    → run (c ∷ cs) m ≡ run cs m'
unfolding run
run-cons c cs m m' e = rw (e, run)

step-deletes :
    (a : String) (m : MemoryBackend)
    → (step (a, deletes) m ≡ some (delete a m)) × (step (a, clears) m ≡ some (clear a m))
unfolding step
step-deletes a m = (refl, refl)

run-Holds :
    (d : ℕ) (cs : List (String × Call)) (h : String → List Entry) (m : MemoryBackend)
    → Holds d h m
    → Runs d cs h m
unfolding recorded
run-Holds d [] h m k = (m, unfold run in refl, k.recent)
run-Holds d ((a, appends e) ∷ cs) h m k =
    let (m', runs, recent) =
      run-Holds d cs (noted (a, appends e) h) (after d a e m) (append-Holds d a e h m k) in
    (m', run-cons (a, appends e) cs m (after d a e m) (step-append d a e m k.depth) ∙ runs, recent)
run-Holds d ((a, deletes) ∷ cs) h m k =
    let (m', runs, recent) =
      run-Holds d cs (noted (a, deletes) h) (delete a m) (delete-Holds d a h m k).0 in
    (m', run-cons (a, deletes) cs m (delete a m) (step-deletes a m).0 ∙ runs, recent)
run-Holds d ((a, clears) ∷ cs) h m k =
    let (m', runs, recent) =
      run-Holds d cs (noted (a, clears) h) (clear a m) (delete-Holds d a h m k).1 in
    (m', run-cons (a, clears) cs m (clear a m) (step-deletes a m).1 ∙ runs, recent)

empty-Holds : (d : ℕ) → Holds d (λ _. []) (new_memory_backend (pos (suc d)))
unfolding new_memory_backend list
empty-Holds d = record {
  depth = refl;
  recent = λ alias. rw GoMap.lookup-empty (sym (last_n-nil (suc d)));
}

-- On a new backend with a positive depth no sequence of calls panics, and afterwards `list` returns
-- for each agent the last `depth` of the entries appended for it since it was last deleted or
-- cleared, oldest first.
pub list-run :
    (d : ℕ) (cs : List (String × Call))
    → (m : MemoryBackend) × (run cs (new_memory_backend (pos (suc d))) ≡ some m)
      × ((alias : String) → list alias m ≡ last_n (suc d) (recorded alias cs []))
list-run d cs = run-Holds d cs (λ _. []) (new_memory_backend (pos (suc d))) (empty-Holds d)

-- With a depth of 0 or less the first append for an agent panics.
pub append_panics :
    (depth : ℤ) (alias : String) (e : Entry)
    → is_le_zero depth ≡ true
    → append alias e (new_memory_backend depth) ≡ none
unfolding append new_memory_backend
append_panics (pos n) alias e h = rw GoMap.lookup-empty (ground arith)
append_panics (negsuc n) alias e h = rw GoMap.lookup-empty
