-- ===== src/Registry/Agents/Listing.antt =====
-- The list of agents: every entry once, in ascending order of the aliases.
use mathlib.Core.List.{Perm}
use mathlib.Core.List.Perm
use a2a_gateway_mcp.Prelude.{
  ◌≡◌, refl, true, false, List, [], ◌∷◌, String, arith, Bool-cases, inl, inr, All,
}
use a2a_gateway_mcp.Registry.Agents.{
  RegisteredAgent, AgentRegistry, text_lt, place, sort_by_alias, values, list,
}

-- No later alias is below an earlier one.
abbrev pub IsAscending : List RegisteredAgent → Type 0
IsAscending [] = Unit
IsAscending (e ∷ es) = All (λ f. text_lt f.alias e.alias ≡ false) es × IsAscending es

text_lt_asymm : (s t : String) → text_lt s t ≡ true → text_lt t s ≡ false
unfolding text_lt
text_lt_asymm String.[] String.[] h = cc
text_lt_asymm String.[] (String.◌∷◌ d t) h = refl
text_lt_asymm (String.◌∷◌ c s) String.[] h = cc
text_lt_asymm (String.◌∷◌ c s) (String.◌∷◌ d t) h = ground (arith, text_lt_asymm s t)

-- s ≤ t and t ≤ u give s ≤ u, where s ≤ t is ¬ (t < s).
text_le_trans : (s t u : String) → text_lt t s ≡ false → text_lt u t ≡ false → text_lt u s ≡ false
unfolding text_lt
text_le_trans String.[] String.[] u h k = k
text_le_trans String.[] (String.◌∷◌ d t) String.[] h k = refl
text_le_trans String.[] (String.◌∷◌ d t) (String.◌∷◌ e u) h k = refl
text_le_trans (String.◌∷◌ c s) String.[] u h k = cc
text_le_trans (String.◌∷◌ c s) (String.◌∷◌ d t) String.[] h k = cc
text_le_trans (String.◌∷◌ c s) (String.◌∷◌ d t) (String.◌∷◌ e u) h k =
    ground (arith, text_le_trans s t u)

All-place :
    (P : RegisteredAgent → Type 0) (e : RegisteredAgent) (es : List RegisteredAgent)
    → P e
    → All P es
    → All P (place e es)
unfolding place
All-place P e [] h k = (h, tt)
All-place P e (f ∷ fs) h k = elim (Bool-cases (text_lt f.alias e.alias)) [
  | inl q ↦ rw q (k.0, All-place P e fs h k.1)
  | inr q ↦ rw q (h, k)
]

-- What is not above the first of an ascending list is above none of it.
below_all :
    (a b : String) (es : List RegisteredAgent)
    → text_lt b a ≡ false
    → All (λ f. text_lt f.alias b ≡ false) es
    → All (λ f. text_lt f.alias a ≡ false) es
below_all a b [] h k = tt
below_all a b (e ∷ es) h k = (text_le_trans a b e.alias h k.0, below_all a b es h k.1)

place-IsAscending :
    (e : RegisteredAgent) (es : List RegisteredAgent) → IsAscending es → IsAscending (place e es)
unfolding place
place-IsAscending e [] h = (tt, tt)
place-IsAscending e (f ∷ fs) h = elim (Bool-cases (text_lt f.alias e.alias)) [
  | inl q ↦ rw q (
    All-place (λ g. text_lt g.alias f.alias ≡ false) e fs (text_lt_asymm f.alias e.alias q) h.0,
    place-IsAscending e fs h.1,
  )
  | inr q ↦ rw q ((q, below_all e.alias f.alias fs q h.0), h)
]

place-perm : (e : RegisteredAgent) (es : List RegisteredAgent) → Perm (place e es) (e ∷ es)
unfolding place
place-perm e [] = Perm.refl (e ∷ [])
place-perm e (f ∷ fs) = elim (Bool-cases (text_lt f.alias e.alias)) [
  | inl q ↦ rw q (Perm.trans (Perm.cons f (place-perm e fs)) (Perm.swap e f fs))
  | inr q ↦ rw q (Perm.refl (e ∷ (f ∷ fs)))
]

sort-perm : (es : List RegisteredAgent) → Perm (sort_by_alias es) es
unfolding sort_by_alias
sort-perm [] = Perm.refl []
sort-perm (e ∷ es) = Perm.trans (place-perm e (sort_by_alias es)) (Perm.cons e (sort-perm es))

sort-IsAscending : (es : List RegisteredAgent) → IsAscending (sort_by_alias es)
unfolding sort_by_alias
sort-IsAscending [] = tt
sort-IsAscending (e ∷ es) = place-IsAscending e (sort_by_alias es) (sort-IsAscending es)

-- Whatever order a loop over the map takes, `list` returns its entries, each as often as it is
-- there, with no alias before a smaller one.
pub list-sorted : (r : AgentRegistry) → Perm (list r) (values r) × IsAscending (list r)
unfolding list
list-sorted r = (sort-perm (values r), sort-IsAscending (values r))
