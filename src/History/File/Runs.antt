-- ===== src/History/File/Runs.antt =====
-- The file backend on a reliable file system keeps what the in-memory backend keeps.
use mathlib.Core.Path.{◌≡◌}
use a2a_gateway_mcp.Prelude.{
  ℕ, suc, ◌+◌, ◌-◌, ◌≤◌, refl, ap, ◌∙◌, sym, Option, none, some, List, [], ◌∷◌, ◌++◌, String, ◌==◌,
  eq_iff, arith, if◌then◌else◌, length, leb, leb→le, Bool-cases, inl, inr, ◌⊎◌,
}
use a2a_gateway_mcp.Prelude.Int.{pos, reaches}
use a2a_gateway_mcp.Errors.{Error, ok}
use a2a_gateway_mcp.History.Entries.{Entry}
use a2a_gateway_mcp.History.Memory.Depth.{Call, appends, deletes, clears, evict}
use a2a_gateway_mcp.History.File.{
  Files, FileBackend, content, not_exist, gone, already_gone, alias_path, entries_in, read_entries,
  write_entries, append, delete, clear, make_room, removed,
}
use a2a_gateway_mcp.Validate.Aliases.{IsAliasText}

-- The file system works. While it does, which its own calls leave so, the directory of the backend can
-- be made, a file of it can be written once the directory exists, and files of it can be removed; a
-- file is read as it was last written and the others as they were. JSON documents of entries are
-- parsed back. Only the paths of valid aliases are spoken of, and different aliases have different ones.
pub record IsReliable (X : Files) (f : FileBackend) : Type 1 where
  pub Works : X.F → Type 0
  pub HasDir : X.F → Type 0
  pub mkdir :
      (s : X.F)
      → Works s
      → ((X.mkdir_all f.dir s).0 ≡ none)
        × Works (X.mkdir_all f.dir s).1
        × HasDir (X.mkdir_all f.dir s).1
  pub read-mkdir :
      (a : String) (s : X.F)
      → IsAliasText a
      → Works s
      → X.read_file (alias_path X f a) (X.mkdir_all f.dir s).1 ≡ X.read_file (alias_path X f a) s
  pub marshals :
      (es : List Entry)
      → (document : X.Bytes) × (X.marshal es ≡ ok document) × (X.unmarshal document ≡ ok es)
  pub writes :
      (a : String) (document : X.Bytes) (s : X.F)
      → IsAliasText a
      → Works s
      → HasDir s
      → ((X.write_file (alias_path X f a) document s).0 ≡ none)
        × Works (X.write_file (alias_path X f a) document s).1
  pub read-write :
      (a b : String) (document : X.Bytes) (s : X.F)
      → IsAliasText a
      → IsAliasText b
      → Works s
      → HasDir s
      → X.read_file (alias_path X f b) (X.write_file (alias_path X f a) document s).1 ≡ (
          if alias_path X f a == alias_path X f b
          then content document
          else X.read_file (alias_path X f b) s)
  pub removes :
      (a : String) (s : X.F)
      → IsAliasText a
      → Works s
      → (((X.remove (alias_path X f a) s).0 ≡ gone)
          ⊎ ((X.remove (alias_path X f a) s).0 ≡ already_gone))
        × Works (X.remove (alias_path X f a) s).1
  pub read-remove :
      (a b : String) (s : X.F)
      → IsAliasText a
      → IsAliasText b
      → Works s
      → X.read_file (alias_path X f b) (X.remove (alias_path X f a) s).1 ≡ (
          if alias_path X f a == alias_path X f b
          then not_exist
          else X.read_file (alias_path X f b) s)
  pub paths :
      (a b : String) → IsAliasText a → IsAliasText b → alias_path X f a ≡ alias_path X f b → a ≡ b

module _ (X : Files) (f : FileBackend) where
  unfoldable pub step : String × Call → X.F → Option (Option Error × X.F)
  unfolding append delete clear
  step (alias, appends e) s = append X f alias e s
  step (alias, deletes) s = some (delete X f alias s)
  step (alias, clears) s = some (clear X f alias s)

  -- The calls in turn; a panic or an error ends the run.
  abbrev next : Option (Option Error × X.F) → (X.F → Option X.F) → Option X.F
  next none k = none
  next (some (some e, s)) k = none
  next (some (none, s)) k = k s

  unfoldable pub run : List (String × Call) → X.F → Option X.F
  unfolding step
  run [] s = some s
  run (c ∷ cs) s = next (step c s) (run cs)

  module _ (r : IsReliable X f) where
    same_path :
        (a b : String)
        → IsAliasText a
        → IsAliasText b
        → (alias_path X f a == alias_path X f b) ≡ (a == b)
    same_path a b va vb =
        let p = alias_path X f a in
        let q = alias_path X f b in
        elim (Bool-cases (a == b)) [
          | inl e ↦ (eq_iff p q).1 (ap (alias_path X f) ((eq_iff a b).0 e)) ∙ sym e
          | inr e ↦ elim (Bool-cases (p == q)) [
            | inl k ↦ k ∙ sym ((eq_iff a b).1 (r.paths a b va vb ((eq_iff p q).0 k)))
            | inr k ↦ k ∙ sym e
          ]
        ]

    -- A write succeeds and is what is read from then on, the directory being made first.
    pub write-succeeds :
        (a : String) (es : List Entry) (s : X.F)
        → IsAliasText a
        → r.Works s
        → ((write_entries X f a es s).0 ≡ none) × r.Works (write_entries X f a es s).1
    unfolding write_entries
    write-succeeds a es s va w =
        let (document, m, u) = r.marshals es in
        let (made, works, there) = r.mkdir s w in
        let (wrote, still) = r.writes a document (X.mkdir_all f.dir s).1 va works there in
        rw made (rw m (rw wrote (refl, still)))

    pub read-written :
        (a b : String) (es : List Entry) (s : X.F)
        → IsAliasText a
        → IsAliasText b
        → r.Works s
        → read_entries X f b (write_entries X f a es s).1
          ≡ (if a == b then ok es else read_entries X f b s)
    unfolding write_entries read_entries
    read-written a b es s va vb w =
        let (document, m, u) = r.marshals es in
        let (made, works, there) = r.mkdir s w in
        let (wrote, still) = r.writes a document (X.mkdir_all f.dir s).1 va works there in
        rw made (
          rw m (
            rw wrote (
              rw
                (
                  r.read-write a b document (X.mkdir_all f.dir s).1 va vb works there,
                  same_path a b va vb,
                )
                (elim (Bool-cases (a == b)) [
                  | inl q ↦ rw q (rw u refl)
                  | inr q ↦ rw q (ap (entries_in X b) (r.read-mkdir b s vb w))
                ]))))

    pub remove-succeeds :
        (a : String) (s : X.F)
        → IsAliasText a
        → r.Works s
        → ((delete X f a s).0 ≡ none) × ((clear X f a s).0 ≡ none)
    unfolding delete clear
    remove-succeeds a s va w = elim (r.removes a s va w).0 [
      | inl g ↦ (rw g refl, rw g refl)
      | inr g ↦ (rw g refl, rw g refl)
    ]

    -- What is left after a removal, whatever its message would be.
    pub read-removed :
        (a b : String) (s : X.F)
        → IsAliasText a
        → IsAliasText b
        → r.Works s
        → read_entries X f b (X.remove (alias_path X f a) s).1
          ≡ (if a == b then ok [] else read_entries X f b s)
    unfolding read_entries
    read-removed a b s va vb w =
        rw (r.read-remove a b s va vb w, same_path a b va vb)
          (elim (Bool-cases (a == b)) [ inl q ↦ rw q refl | inr q ↦ rw q refl ])

    pub removed-state :
        (format a : String) (s : X.F)
        → IsAliasText a
        → r.Works s
        → (removed X format a (X.remove (alias_path X f a) s)).1 ≡ (X.remove (alias_path X f a) s).1
    removed-state format a s va w = elim (r.removes a s va w).0 [
      | inl g ↦ rw g refl
      | inr g ↦ rw g refl
    ]

    make_room-evict :
        (d : ℕ) (es : List Entry)
        → length es ≤ suc d
        → (if reaches (length es) (pos (suc d)) then make_room (pos (suc d)) es else some es)
          ≡ some (evict (suc d) es)
    unfolding evict
    make_room-evict d es h = elim (Bool-cases (leb (suc d) (length es))) [
      | inl q ↦
          let one : length es - suc d + 1 ≡ 1 = omega (arith, leb→le (suc d) (length es) q) in
          rw q (rw one refl)
      | inr q ↦ rw q refl
    ]

    pub append-succeeds :
        (d : ℕ) (a : String) (e : Entry) (es : List Entry) (s : X.F)
        → f.depth ≡ pos (suc d)
        → length es ≤ suc d
        → read_entries X f a s ≡ ok es
        → append X f a e s ≡ some (write_entries X f a (evict (suc d) es ++ e ∷ []) s)
    unfolding append
    append-succeeds d a e es s k h p = rw p (rw (k, make_room-evict d es h) refl)
