-- ===== src/GoMap.antt =====
-- Go's `map[string]V`, in which every store of the gateway keeps its state: an association list.
-- The representation is private to this file, so clients work with the laws below it.
-- `entries` is what a `range` loop goes through. Go leaves that order open: a client whose result
-- depends on it sorts, or takes the order as a parameter.
use a2a_gateway_mcp.Prelude.{
  nat_eq, true, ◌⊎◌, ℕ, suc, ◌≡◌, refl, Option, none, some, List, [], ◌∷◌, String, arith, ◌==◌,
  eq_iff, if◌then◌else◌, is_some, length, ◌≢◌, eq_refl, Bool-cases, inl, inr, subst, sym, ap, ◌∙◌,
  ◌⊎◌,
}

pub record GoMap {ℓ} (V : Type ℓ) : Type ℓ where
  items : List (String × V)

module _ {ℓ} {V : Type ℓ} where
  find : String → List (String × V) → Option V
  find k [] = none
  find k ((j, v) ∷ m) = let rest = find k m in if j == k then some v else rest

  put : String → V → List (String × V) → List (String × V)
  put k v [] = (k, v) ∷ []
  put k v ((j, w) ∷ m) = let rest = put k v m in if j == k then (k, v) ∷ m else (j, w) ∷ rest

  without : String → List (String × V) → List (String × V)
  without k [] = []
  without k ((j, w) ∷ m) = let rest = without k m in if j == k then rest else (j, w) ∷ rest

  -- m[k], with the flag of the two-valued form
  unfoldable pub lookup : String → GoMap V → Option V
  unfolding find
  lookup k m = find k m.items

  -- m[k] = v
  unfoldable pub insert : String → V → GoMap V → GoMap V
  unfolding put
  insert k v m = record { items = put k v m.items }

  -- delete(m, k)
  unfoldable pub delete : String → GoMap V → GoMap V
  unfolding without
  delete k m = record { items = without k m.items }

  -- make(map[string]V)
  unfoldable pub empty : GoMap V
  empty = record { items = [] }

  -- len(m)
  unfoldable pub size : GoMap V → ℕ
  size m = length m.items

  -- the keys and values, for a loop
  unfoldable pub entries : GoMap V → List (String × V)
  entries m = m.items

  pub lookup-empty : (k : String) → lookup k empty ≡ none
  unfolding lookup empty
  lookup-empty k = refl

  find-put :
      (k j : String) (v : V) (m : List (String × V))
      → find j (put k v m) ≡ (if k == j then some v else find j m)
  unfolding find put
  find-put k j v [] = refl
  find-put k j v ((i, w) ∷ m) = ground (arith, find-put k j v m, eq_iff k j, eq_iff i k, eq_iff i j)

  find-without :
      (k j : String) (m : List (String × V))
      → find j (without k m) ≡ (if k == j then none else find j m)
  unfolding find without
  find-without k j [] = ground arith
  find-without k j ((i, w) ∷ m) =
      ground (arith, find-without k j m, eq_iff k j, eq_iff i k, eq_iff i j)

  pub lookup-insert :
      (k j : String) (v : V) (m : GoMap V)
      → lookup j (insert k v m) ≡ (if k == j then some v else lookup j m)
  unfolding lookup insert
  lookup-insert k j v m = find-put k j v m.items

  pub lookup-delete :
      (k j : String) (m : GoMap V) → lookup j (delete k m) ≡ (if k == j then none else lookup j m)
  unfolding lookup delete
  lookup-delete k j m = find-without k j m.items

  length-put :
      (k : String) (v : V) (m : List (String × V))
      → length (put k v m) ≡ (if is_some (find k m) then length m else suc (length m))
  unfolding find put
  length-put k v [] = refl
  length-put k v ((i, w) ∷ m) = ground (arith, length-put k v m)

  find-none :
      (k : String) (kvs : List (String × V)) → nat_eq (length kvs) 0 ≡ true → find k kvs ≡ none
  unfolding find
  find-none k [] h = refl
  find-none k ((j, v) ∷ kvs) h = ground arith

  pub lookup-none : (k : String) (m : GoMap V) → nat_eq (size m) 0 ≡ true → lookup k m ≡ none
  unfolding size lookup
  lookup-none k m h = find-none k m.items h

  pub size-insert :
      (k : String) (v : V) (m : GoMap V)
      → size (insert k v m) ≡ (if is_some (lookup k m) then size m else suc (size m))
  unfolding size insert lookup
  size-insert k v m = length-put k v m.items

  -- The key does not occur.
  abbrev IsFresh : String → List (String × V) → Type 0
  IsFresh k [] = Unit
  IsFresh k ((j, w) ∷ m) = (j ≢ k) × IsFresh k m

  abbrev HasKeysOnce : List (String × V) → Type 0
  HasKeysOnce [] = Unit
  HasKeysOnce ((j, w) ∷ m) = IsFresh j m × HasKeysOnce m

  -- No key stands twice: a map is a function.
  pub record IsFunctional (m : GoMap V) : Type 0 where
    once : HasKeysOnce m.items

  IsFresh-put :
      (k j : String) (v : V) (m : List (String × V)) → j ≢ k → IsFresh k m → IsFresh k (put j v m)
  unfolding put
  IsFresh-put k j v [] h f = (h, tt)
  IsFresh-put k j v ((i, w) ∷ m) h f = ground (arith, IsFresh-put k j v m h f.1)

  HasKeysOnce-put :
      (k : String) (v : V) (m : List (String × V)) → HasKeysOnce m → HasKeysOnce (put k v m)
  unfolding put
  HasKeysOnce-put k v [] h = (tt, tt)
  HasKeysOnce-put k v ((i, w) ∷ m) h = elim (Bool-cases (i == k)) [
    | inl e ↦ rw e (subst (λ j. IsFresh j m) ((eq_iff i k).0 e) h.0, h.1)
    | inr e ↦
        rw e (IsFresh-put i k v m (λ p. cc ((eq_iff i k).1 (sym p))) h.0, HasKeysOnce-put k v m h.1)
  ]

  pub insert-IsFunctional :
      (k : String) (v : V) {m : GoMap V} → IsFunctional m → IsFunctional (insert k v m)
  unfolding insert
  insert-IsFunctional k v {m} f = record { once = HasKeysOnce-put k v m.items f.once }

  IsFresh-without : (k j : String) (m : List (String × V)) → IsFresh k m → IsFresh k (without j m)
  unfolding without
  IsFresh-without k j [] f = tt
  IsFresh-without k j ((i, w) ∷ m) f = ground (arith, IsFresh-without k j m f.1)

  HasKeysOnce-without :
      (k : String) (m : List (String × V)) → HasKeysOnce m → HasKeysOnce (without k m)
  unfolding without
  HasKeysOnce-without k [] h = tt
  HasKeysOnce-without k ((i, w) ∷ m) h =
      ground (arith, HasKeysOnce-without k m h.1, IsFresh-without i k m h.0)

  pub delete-IsFunctional : (k : String) {m : GoMap V} → IsFunctional m → IsFunctional (delete k m)
  unfolding delete
  delete-IsFunctional k {m} f = record { once = HasKeysOnce-without k m.items f.once }

  find_fresh : (k : String) (m : List (String × V)) → IsFresh k m → find k m ≡ none
  unfolding find
  find_fresh k [] f = refl
  find_fresh k ((i, w) ∷ m) f = ground (arith, find_fresh k m f.1, eq_iff i k, f.0)

  without_fresh : (k : String) (m : List (String × V)) → IsFresh k m → without k m ≡ m
  unfolding without
  without_fresh k [] f = refl
  without_fresh k ((i, w) ∷ m) f = ground (arith, without_fresh k m f.1, eq_iff i k, f.0)

  length-without :
      (k : String) (m : List (String × V))
      → HasKeysOnce m
      → length m ≡ (if is_some (find k m) then suc (length (without k m)) else length (without k m))
  unfolding find without
  length-without k [] h = refl
  length-without k ((i, w) ∷ m) h = elim (Bool-cases (i == k)) [
    | inl e ↦ rw e (
        ap (λ l. suc (length l))
          (sym (without_fresh k m (subst (λ j. IsFresh j m) ((eq_iff i k).0 e) h.0))))
    | inr e ↦ rw e (ground (arith, length-without k m h.1))
  ]

  pub size-delete :
      (k : String) {m : GoMap V}
      → IsFunctional m
      → size m ≡ (if is_some (lookup k m) then suc (size (delete k m)) else size (delete k m))
  unfolding size delete lookup
  size-delete k {m} f = length-without k m.items f.once

  pub empty-IsFunctional : IsFunctional empty
  unfolding empty
  empty-IsFunctional = record { once = tt }

module _ {ℓ κ} {V : Type ℓ} {W : Type κ} (f : V → Option W) where
  step : String → Option W → List (String × W) → List (String × W)
  step k none m = m
  step k (some w) m = put k w m

  chosen : List (String × V) → List (String × W)
  unfolding step
  chosen [] = []
  chosen ((j, v) ∷ m) = step j (f v) (chosen m)

  -- for k, v := range m, the entries with a value of f are those of a new map
  unfoldable pub filter_map : GoMap V → GoMap W
  unfolding chosen step put
  filter_map m = record { items = chosen m.items }

  -- The value of f, if there is one.
  abbrev pub then_value : Option V → Option W
  then_value none = none
  then_value (some v) = f v

  find-step :
      (k j : String) (o : Option W) (m : List (String × W))
      → (j == k ≡ true → find k m ≡ none)
      → find k (step j o m) ≡ (if j == k then o else find k m)
  unfolding step
  find-step k j none m h = elim (Bool-cases (j == k)) [ inl e ↦ rw e (h e) | inr e ↦ rw e refl ]
  find-step k j (some w) m h = find-put j k w m

  find-chosen :
      (k : String) (m : List (String × V))
      → HasKeysOnce m
      → find k (chosen m) ≡ then_value (find k m)
  unfolding find chosen
  find-chosen k [] h = refl
  find-chosen k ((j, v) ∷ m) h =
      let gone : j == k ≡ true → find k (chosen m) ≡ none = λ e.
        find-chosen k m h.1
        ∙ ap then_value (find_fresh k m (subst (λ i. IsFresh i m) ((eq_iff j k).0 e) h.0)) in
      find-step k j (f v) (chosen m) gone
      ∙ elim (Bool-cases (j == k)) [ inl e ↦ rw e refl | inr e ↦ rw e (find-chosen k m h.1) ]

  -- The new map has the values of f, whatever the order of the loop was.
  pub lookup-filter_map :
      (k : String) {m : GoMap V}
      → IsFunctional m
      → lookup k (filter_map m) ≡ then_value (lookup k m)
  unfolding lookup filter_map
  lookup-filter_map k {m} h = find-chosen k m.items h.once

pub ruleset map_laws = (lookup-empty, lookup-insert, lookup-delete, eq_refl)
