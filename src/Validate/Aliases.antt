-- ===== src/Validate/Aliases.antt =====
-- Which aliases are accepted.
use Prim.Native.Char.{Char, code, len_utf8, len_utf8_def}
use Prim.Native.String.{len}
use Prim.Native.String.len
use a2a_gateway_mcp.Prelude.{
  sym, ℕ, ◌+◌, ◌≤◌, ◌<◌, ◌≡◌, ◌≢◌, ◌↔◌, ◌⊎◌, refl, ◌∙◌, true, false, none, String, ◌==◌, eq_iff,
  arith, Bool-cases, inl, inr, ltb,
}
use a2a_gateway_mcp.History.Recorder.{rune_count}
use a2a_gateway_mcp.Validate.{is_valid_alias_char, alias_chars, validate_alias}

-- A lowercase letter, a digit or a hyphen.
abbrev pub IsAliasChar : Char → Type 0
IsAliasChar c =
    ((b'a' ≤ code c) × (code c ≤ b'z')) ⊎ (((b'0' ≤ code c) × (code c ≤ b'9')) ⊎ (code c ≡ b'-'))

abbrev pub IsAliasText : String → Type 0
IsAliasText String.[] = Unit
IsAliasText (String.◌∷◌ c s) = IsAliasChar c × IsAliasText s

is_valid_alias_char_iff : (c : Char) → (is_valid_alias_char c ≡ true) ↔ IsAliasChar c
unfolding is_valid_alias_char
is_valid_alias_char_iff c = (ground arith, ground arith)

len_utf8-ascii : (c : Char) → code c < 128 → len_utf8 c ≡ 1
len_utf8-ascii c h = rw len_utf8_def (ground arith)

IsAliasChar-ascii : (c : Char) → IsAliasChar c → code c < 128
IsAliasChar-ascii c h = omega arith

-- The characters of such a text are bytes.
len_alias : (s : String) → IsAliasText s → len s ≡ rune_count s
unfolding rune_count
len_alias String.[] h = len.nil
len_alias (String.◌∷◌ c s) h =
    rw (len.cons, len_utf8-ascii c (IsAliasChar-ascii c h.0), len_alias s h.1) (omega arith)

alias_chars_iff : (i : ℕ) (s : String) → (alias_chars i s ≡ none) ↔ IsAliasText s
unfolding alias_chars
alias_chars_iff i String.[] = (λ _. tt, λ _. refl)
alias_chars_iff i (String.◌∷◌ c s) = elim (Bool-cases (is_valid_alias_char c)) [
  | inl v ↦ (
    λ h. ((is_valid_alias_char_iff c).0 v, (alias_chars_iff (i + len_utf8 c) s).0 (rw v at h)),
    λ h. rw v ((alias_chars_iff (i + len_utf8 c) s).1 h.1),
  )
  | inr v ↦ (λ h. cc (rw v at h), λ h. cc (v, (is_valid_alias_char_iff c).1 h.0))
]

not_empty : (c : Char) (s : String) → (String.◌∷◌ c s == "") ≡ false
not_empty c s = elim (Bool-cases (String.◌∷◌ c s == "")) [
  | inl e ↦ cc ((eq_iff (String.◌∷◌ c s) "").0 e)
  | inr e ↦ e
]

fits : (s : String) → len s ≤ 64 → ltb 64 (len s) ≡ false
fits s h = ground arith

-- Past the two tests on the whole text, the loop decides.
accepted :
    (c : Char) (s : String)
    → len (String.◌∷◌ c s) ≤ 64
    → validate_alias (String.◌∷◌ c s) ≡ alias_chars 0 (String.◌∷◌ c s)
unfolding validate_alias
accepted c s h = rw (not_empty c s, fits (String.◌∷◌ c s) h)

too_long :
    (c : Char) (s : String) → 64 < len (String.◌∷◌ c s) → validate_alias (String.◌∷◌ c s) ≢ none
unfolding validate_alias
too_long c s h = ground (arith, eq_iff (String.◌∷◌ c s) "")

-- An alias is accepted exactly if it has from 1 to 64 characters, each a lowercase letter, a digit or
-- a hyphen.
pub validate_alias_iff :
    (alias : String)
    → (validate_alias alias ≡ none)
      ↔ ((1 ≤ rune_count alias) × (rune_count alias ≤ 64) × IsAliasText alias)
unfolding rune_count
validate_alias_iff String.[] = (λ h. unfold validate_alias in cc h, λ h. absurd (omega arith))
validate_alias_iff (String.◌∷◌ c s) = (to, from)
  where
    whole : String
    whole = String.◌∷◌ c s

    to :
        validate_alias whole ≡ none
        → (1 ≤ rune_count whole) × (rune_count whole ≤ 64) × IsAliasText whole
    to h = elim (Bool-cases (ltb 64 (len whole))) [
      | inl l ↦ absurd (too_long c s (ground arith) h)
      | inr l ↦
          let fits : len whole ≤ 64 = ground arith in
          let good = (alias_chars_iff 0 whole).0 (sym (accepted c s fits) ∙ h) in
          (omega arith, omega (arith, len_alias whole good), good)
    ]

    from :
        (1 ≤ rune_count whole) × (rune_count whole ≤ 64) × IsAliasText whole
        → validate_alias whole ≡ none
    from h = accepted c s (omega (arith, len_alias whole h.2)) ∙ (alias_chars_iff 0 whole).1 h.2
