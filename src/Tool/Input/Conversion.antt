-- ===== src/Tool/Input/Conversion.antt =====
-- Which parts are accepted, and what they become.
use a2a_gateway_mcp.Prelude.{
  ℕ, suc, ◌≡◌, ◌≢◌, ◌↔◌, refl, ap, Option, none, some, List, [], ◌∷◌, String, inl, inr, ◌==◌, subst,
  sym, eq_iff, Bool-cases,
}
use a2a_gateway_mcp.Errors.{ok_injective, Result, ok, err}
use a2a_gateway_mcp.A2a.{Json, Part, text, data_value, url, raw}
use a2a_gateway_mcp.Tool.Input.{
  raw_part, InputPart, Decoded, decoded, malformed, convert_part, cons_part, nonempty, convert_from,
  convert_input_parts, build_message_parts,
}

-- A part with one content only.
abbrev pub as_text : String → InputPart
as_text t = record { plain = some t; json = none; link = none; binary = none }

abbrev pub as_data : Json → InputPart
as_data d = record { plain = none; json = some d; link = none; binary = none }

abbrev pub as_url : String → InputPart
as_url u = record { plain = none; json = none; link = some u; binary = none }

abbrev pub as_raw : String → InputPart
as_raw r = record { plain = none; json = none; link = none; binary = some r }

module _ (decode_string : String → Decoded) where
  -- An input part and the part of the message that it stands for.
  pub data Converts : InputPart → Part → Type 0 where
    of_text : (t : String) → Converts (as_text t) (text t)
    of_data : (d : Json) → Converts (as_data d) (data_value d)
    of_url : (u : String) → Converts (as_url u) (url u)
    of_raw : (r bytes : String) → decode_string r ≡ decoded bytes → Converts (as_raw r) (raw bytes)

  -- The parts stand for the parts of the message, one by one in their order.
  abbrev pub ConvertAll : List InputPart → List (Option Part) → Type 0
  ConvertAll [] [] = Unit
  ConvertAll [] (q ∷ qs) = ⊥
  ConvertAll (p ∷ ps) [] = ⊥
  ConvertAll (p ∷ ps) (none ∷ qs) = ⊥
  ConvertAll (p ∷ ps) (some q ∷ qs) = Converts p q × ConvertAll ps qs

  Converts-convert :
      (i : ℕ) (p : InputPart) (q : Part) → Converts p q → convert_part decode_string i p ≡ ok q
  unfolding convert_part
  Converts-convert i p q (of_text t) = refl
  Converts-convert i p q (of_data d) = refl
  Converts-convert i p q (of_url u) = refl
  Converts-convert i p q (of_raw r bytes e) = rw e refl

  -- What an accepted part is.
  abbrev accepted : Result Part → Part → Part
  accepted (ok p) q = p
  accepted (err e) q = q

  Converts-accepted : {p : InputPart} {a q : Part} → Converts p a → ok a ≡ ok q → Converts p q
  Converts-accepted {p} {a} {q} c h = subst (Converts p) (ap (λ r. accepted r q) h) c

  raw-Converts :
      (i : ℕ) (r : String) (d : Decoded) (q : Part)
      → decode_string r ≡ d
      → raw_part decode_string i d ≡ ok q
      → Converts (as_raw r) q
  raw-Converts i r (decoded bytes) q e h = Converts-accepted (of_raw r bytes e) h
  raw-Converts i r (malformed m) q e h = cc h

  convert-Converts :
      (i : ℕ) (a : Option String) (b : Option Json) (c d : Option String) (q : Part)
      → convert_part decode_string i (record { plain = a; json = b; link = c; binary = d }) ≡ ok q
      → Converts (record { plain = a; json = b; link = c; binary = d }) q
  unfolding convert_part
  convert-Converts i none none none none q h = cc h
  convert-Converts i (some a) none none none q h = Converts-accepted (of_text a) h
  convert-Converts i none (some b) none none q h = Converts-accepted (of_data b) h
  convert-Converts i none none (some c) none q h = Converts-accepted (of_url c) h
  convert-Converts i none none none (some d) q h = raw-Converts i d (decode_string d) q refl h
  convert-Converts i (some a) (some b) none none q h = cc h
  convert-Converts i (some a) (some b) none (some d) q h = cc h
  convert-Converts i (some a) (some b) (some c) none q h = cc h
  convert-Converts i (some a) (some b) (some c) (some d) q h = cc h
  convert-Converts i (some a) none (some c) none q h = cc h
  convert-Converts i (some a) none (some c) (some d) q h = cc h
  convert-Converts i (some a) none none (some d) q h = cc h
  convert-Converts i none (some b) (some c) none q h = cc h
  convert-Converts i none (some b) (some c) (some d) q h = cc h
  convert-Converts i none (some b) none (some d) q h = cc h
  convert-Converts i none none (some c) (some d) q h = cc h

  ConvertAll-convert :
      (i : ℕ) (ps : List InputPart) (qs : List (Option Part))
      → ConvertAll ps qs
      → convert_from decode_string i ps ≡ ok qs
  unfolding convert_from
  ConvertAll-convert i [] [] c = refl
  ConvertAll-convert i [] (q ∷ qs) c = absurd c
  ConvertAll-convert i (p ∷ ps) [] c = absurd c
  ConvertAll-convert i (p ∷ ps) (none ∷ qs) c = absurd c
  ConvertAll-convert i (p ∷ ps) (some q ∷ qs) c =
      rw (Converts-convert i p q c.0, ConvertAll-convert (suc i) ps qs c.1) refl

  -- The first part and the others of an accepted list.
  cons_part-ok :
      (r : Result Part) (rest : Result (List (Option Part))) (qs : List (Option Part))
      → cons_part decode_string r rest ≡ ok qs
      → (p : Part) × (ps : List (Option Part)) × (r ≡ ok p) × (rest ≡ ok ps) × (some p ∷ ps ≡ qs)
  cons_part-ok (err e) rest qs h = cc h
  cons_part-ok (ok p) (err e) qs h = cc h
  cons_part-ok (ok p) (ok ps) qs h = (p, ps, refl, refl, ok_injective h)

  convert-ConvertAll :
      (i : ℕ) (ps : List InputPart) (qs : List (Option Part))
      → convert_from decode_string i ps ≡ ok qs
      → ConvertAll ps qs
  unfolding convert_from
  convert-ConvertAll i [] [] h = tt
  convert-ConvertAll i [] (q ∷ qs) h = cc h
  convert-ConvertAll i (p ∷ ps) qs h =
      let (a, rest, first, others, e) =
        cons_part-ok (convert_part decode_string i p) (convert_from decode_string (suc i) ps) qs
          h in
      subst (ConvertAll (p ∷ ps)) e (
        convert-Converts i p.plain p.json p.link p.binary a first,
        convert-ConvertAll (suc i) ps rest others,
      )

  nonempty-ok :
      (r : Result (List (Option Part))) (qs : List (Option Part))
      → nonempty decode_string r ≡ ok qs
      → r ≡ ok qs
  nonempty-ok (err e) qs h = cc h
  nonempty-ok (ok []) qs h = cc h
  nonempty-ok (ok (q ∷ rest)) qs h = h

  nonempty_all :
      (p : InputPart) (ps : List InputPart) (qs : List (Option Part))
      → ConvertAll (p ∷ ps) qs
      → nonempty decode_string (ok qs) ≡ ok qs
  nonempty_all p ps [] c = absurd c
  nonempty_all p ps (q ∷ qs) c = refl

  build-parts :
      (message : String) (p : InputPart) (ps : List InputPart) (qs : List (Option Part))
      → (build_message_parts decode_string message (p ∷ ps) ≡ ok qs) ↔ ConvertAll (p ∷ ps) qs
  unfolding build_message_parts convert_input_parts
  build-parts message p ps qs = (
    λ h.
        convert-ConvertAll 0 (p ∷ ps) qs (nonempty-ok (convert_from decode_string 0 (p ∷ ps)) qs h),
    λ c. rw (ConvertAll-convert 0 (p ∷ ps) qs c) (nonempty_all p ps qs c),
  )

  build-message :
      (message : String) (qs : List (Option Part))
      → (build_message_parts decode_string message [] ≡ ok qs)
        ↔ ((message ≢ "") × (qs ≡ some (text message) ∷ []))
  unfolding build_message_parts
  build-message message qs = elim (Bool-cases (message == "")) [
    | inl e ↦ rw e (λ h. cc h, λ c. absurd (c.0 ((eq_iff message "").0 e)))
    | inr e ↦
        rw e
          (λ h. (λ q. cc ((eq_iff message "").1 q, e), sym (ok_injective h)), λ c. ap ok (sym c.1))
  ]

  -- A caller's parts are accepted exactly as the message parts that they stand for, one by one in
  -- their order, and only if there is a part: each has just one of a text, a datum, a URL, or base64
  -- text that decodes. In the absence of parts the message itself is the one part, unless it is empty.
  pub build-ConvertAll :
      (message : String) (p : InputPart) (ps : List InputPart) (qs : List (Option Part))
      → ((build_message_parts decode_string message (p ∷ ps) ≡ ok qs) ↔ ConvertAll (p ∷ ps) qs)
        × ((build_message_parts decode_string message [] ≡ ok qs)
            ↔ ((message ≢ "") × (qs ≡ some (text message) ∷ [])))
  build-ConvertAll message p ps qs = (build-parts message p ps qs, build-message message qs)
