-- ===== src/Directory/Resolver.antt =====
-- directory/resolver.go: the default filter. The lower-case mapping of package strings is a parameter.
use a2a_gateway_mcp.Prelude.{
  ◌≡◌, ◌↔◌, ◌⊎◌, ap, subst, ◌∙◌, Bool, true, false, ◌||◌, List, [], ◌∷◌, String, arith,
  if◌then◌else◌, keep_if, Bool-cases, inl, inr,
}
use Prim.Native.Char.{Char}
use Prim.Native.String.append
use Prim.Native.String.{◌++◌}
use package.text.Mathlib.TextPositions.{starts_with-append}
use package.text.Mathlib.Text.{starts_with}
use package.text.Mathlib.TextEquality.{starts_with_iff}
use a2a_gateway_mcp.A2a.{AgentCard}

-- strings.Contains(s, sub)
unfoldable pub contains : String → String → Bool
contains String.[] sub = starts_with "" sub
contains (String.◌∷◌ c s) sub =
    let rest = contains s sub in starts_with (String.◌∷◌ c s) sub || rest

-- The text is part of the other, with what stands before and after it.
abbrev pub IsPart : String → String → Type 0
IsPart sub s = (before : String) × (after : String) × (before ++ (sub ++ after) ≡ s)

contains→IsPart : (s sub : String) → contains s sub ≡ true → IsPart sub s
unfolding contains
contains→IsPart String.[] sub h =
    let (after, e) = (starts_with_iff "" sub).0 h in ("", after, append.nil (sub ++ after) ∙ e)
contains→IsPart (String.◌∷◌ c s) sub h = elim (Bool-cases (starts_with (String.◌∷◌ c s) sub)) [
  | inl q ↦
      let (after, e) = (starts_with_iff (String.◌∷◌ c s) sub).0 q in
      ("", after, append.nil (sub ++ after) ∙ e)
  | inr q ↦
      let (before, after, e) = contains→IsPart s sub (rw q at h) in
      (String.◌∷◌ c before, after, append.cons c before (sub ++ after) ∙ ap (String.◌∷◌ c) e)
]

contains_start : (s sub : String) → starts_with s sub ≡ true → contains s sub ≡ true
unfolding contains
contains_start String.[] sub h = h
contains_start (String.◌∷◌ c s) sub h = rw h

contains_tail :
    (c : Char) (s sub : String) → contains s sub ≡ true → contains (String.◌∷◌ c s) sub ≡ true
unfolding contains
contains_tail c s sub h = rw h (ground arith)

IsPart→contains : (before sub after : String) → contains (before ++ (sub ++ after)) sub ≡ true
IsPart→contains String.[] sub after =
    rw append.nil (contains_start (sub ++ after) sub (starts_with-append sub after))
IsPart→contains (String.◌∷◌ c before) sub after =
    rw append.cons
      (contains_tail c (before ++ (sub ++ after)) sub (IsPart→contains before sub after))

-- `contains` decides whether a text is part of the other.
pub contains_iff : (s sub : String) → (contains s sub ≡ true) ↔ IsPart sub s
contains_iff s sub = (
  contains→IsPart s sub,
  λ (before, after, e). subst (λ t. contains t sub ≡ true) e (IsPart→contains before sub after),
)

-- Some element has the property.
abbrev pub Any {ℓ} : {A : Type ℓ} → (A → Type 0) → List A → Type 0
Any P [] = ⊥
Any P (x ∷ xs) = P x ⊎ Any P xs

module _ (to_lower : String → String) where
  any_tag : String → List String → Bool
  any_tag filter [] = false
  any_tag filter (tag ∷ tags) =
      let rest = any_tag filter tags in if contains (to_lower tag) filter then true else rest

  -- The two nested loops over the skills and their tags.
  any_skill : String → List (List String) → Bool
  unfolding any_tag
  any_skill filter [] = false
  any_skill filter (tags ∷ skills) =
      let rest = any_skill filter skills in if any_tag filter tags then true else rest

  unfoldable pub matches_card : String → AgentCard → Bool
  unfolding any_skill
  matches_card filter card =
      if contains (to_lower card.name) filter
      then true
      else if contains (to_lower card.description) filter
      then true
      else any_skill filter card.skills

  unfoldable pub resolve : String → List AgentCard → List AgentCard
  resolve filter cards = let q = to_lower filter in keep_if (matches_card q) cards

  any_tag_iff :
      (q : String) (tags : List String)
      → (any_tag q tags ≡ true) ↔ Any (λ tag. IsPart q (to_lower tag)) tags
  unfolding any_tag
  any_tag_iff q [] = (λ h. cc h, λ h. absurd h)
  any_tag_iff q (tag ∷ tags) = elim (Bool-cases (contains (to_lower tag) q)) [
    | inl e ↦ (λ _. inl ((contains_iff (to_lower tag) q).0 e), λ _. rw e)
    | inr e ↦ (
      λ h. inr ((any_tag_iff q tags).0 (rw e at h)),
      λ h. elim h [
        | inl part ↦ cc (e, (contains_iff (to_lower tag) q).1 part)
        | inr more ↦ rw e ((any_tag_iff q tags).1 more)
      ],
    )
  ]

  any_skill_iff :
      (q : String) (skills : List (List String))
      → (any_skill q skills ≡ true) ↔ Any (λ tags. Any (λ tag. IsPart q (to_lower tag)) tags) skills
  unfolding any_skill
  any_skill_iff q [] = (λ h. cc h, λ h. absurd h)
  any_skill_iff q (tags ∷ skills) = elim (Bool-cases (any_tag q tags)) [
    | inl e ↦ (λ _. inl ((any_tag_iff q tags).0 e), λ _. rw e)
    | inr e ↦ (
      λ h. inr ((any_skill_iff q skills).0 (rw e at h)),
      λ h. elim h [
        | inl tag ↦ cc (e, (any_tag_iff q tags).1 tag)
        | inr more ↦ rw e ((any_skill_iff q skills).1 more)
      ],
    )
  ]

  -- A card passes the default filter exactly if the filter, in lower case, is part of its name, of its
  -- description or of a tag of one of its skills, in lower case.
  pub matches_card_iff :
      (filter : String) (card : AgentCard)
      → (matches_card (to_lower filter) card ≡ true) ↔ (
          IsPart (to_lower filter) (to_lower card.name)
          ⊎ (IsPart (to_lower filter) (to_lower card.description)
              ⊎ Any
                  (λ tags. Any (λ tag. IsPart (to_lower filter) (to_lower tag)) tags)
                  card.skills))
  unfolding matches_card
  matches_card_iff filter card = (to, from)
    where
      q : String
      q = to_lower filter

      to :
          matches_card q card ≡ true
          → IsPart q (to_lower card.name)
            ⊎ (IsPart q (to_lower card.description)
                ⊎ Any (λ tags. Any (λ tag. IsPart q (to_lower tag)) tags) card.skills)
      to h = elim (Bool-cases (contains (to_lower card.name) q)) [
        | inl e ↦ inl ((contains_iff (to_lower card.name) q).0 e)
        | inr e ↦ elim (Bool-cases (contains (to_lower card.description) q)) [
          | inl d ↦ inr (inl ((contains_iff (to_lower card.description) q).0 d))
          | inr d ↦ inr (inr ((any_skill_iff q card.skills).0 (rw (e, d) at h)))
        ]
      ]

      from :
          IsPart q (to_lower card.name)
            ⊎ (IsPart q (to_lower card.description)
                ⊎ Any (λ tags. Any (λ tag. IsPart q (to_lower tag)) tags) card.skills)
          → matches_card q card ≡ true
      from (inl part) = rw ((contains_iff (to_lower card.name) q).1 part)
      from (inr (inl part)) =
          rw ((contains_iff (to_lower card.description) q).1 part) (ground arith)
      from (inr (inr some_tag)) = rw ((any_skill_iff q card.skills).1 some_tag) (ground arith)
