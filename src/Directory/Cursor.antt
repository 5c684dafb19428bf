-- ===== src/Directory/Cursor.antt =====
-- directory/handler.go: the cursor of a page. Package encoding/base64, and fmt's printing and scanning
-- by a format, are parameters with their round trips; the formats are those of the code.
use a2a_gateway_mcp.Prelude.{
  ℕ, ◌≡◌, ◌≢◌, false, Option, none, some, [], String, ◌==◌, eq_iff, if◌then◌else◌, Bool-cases, inl,
  inr,
}
use a2a_gateway_mcp.Prelude.Int.{ℤ, pos, negsuc}
use a2a_gateway_mcp.Errors.{Error, Result, ok, err, errorf}

pub record Codec : Type 0 where
  -- base64.StdEncoding
  pub encode_string : String → String
  pub decode_string : String → Option String
  -- fmt.Sprintf of a format and a number, and fmt.Sscanf of a text by a format
  pub sprintf : String → ℕ → String
  pub sscanf : String → String → Option ℤ
  pub decode-encode : (s : String) → decode_string (encode_string s) ≡ some s
  pub encode_nonempty : (s : String) → s ≢ "" → encode_string s ≢ ""
  pub sprintf_nonempty : (n : ℕ) → sprintf "offset:%d" n ≢ ""
  pub sscanf-sprintf : (n : ℕ) → sscanf (sprintf "offset:%d" n) "offset:%d" ≡ some (pos n)

abbrev pub invalid_cursor : Error
invalid_cursor = errorf "invalid cursor" []

module _ (c : Codec) where
  open c use {
    encode_string, decode_string, sprintf, sscanf, decode-encode, encode_nonempty, sprintf_nonempty,
    sscanf-sprintf,
  }

  unfoldable pub encode_cursor : ℕ → String
  encode_cursor offset = encode_string (sprintf "offset:%d" offset)

  abbrev not_negative : Option ℤ → Result ℕ
  not_negative none = err invalid_cursor
  not_negative (some (pos n)) = ok n
  not_negative (some (negsuc n)) = err invalid_cursor

  abbrev decoded : Option String → Result ℕ
  decoded none = err invalid_cursor
  decoded (some text) = not_negative (sscanf text "offset:%d")

  unfoldable pub decode_cursor : String → Result ℕ
  decode_cursor cursor = if cursor == "" then ok 0 else decoded (decode_string cursor)

  pub encode_cursor-ne : (n : ℕ) → (encode_cursor n == "") ≡ false
  unfolding encode_cursor
  encode_cursor-ne n = elim (Bool-cases (encode_cursor n == "")) [
    | inl e ↦ absurd (
        encode_nonempty (sprintf "offset:%d" n) (sprintf_nonempty n)
          ((eq_iff (encode_cursor n) "").0 e))
    | inr e ↦ e
  ]

  -- Decoding the token of an offset gives the offset back.
  pub decode-encode_cursor : (n : ℕ) → decode_cursor (encode_cursor n) ≡ ok n
  unfolding decode_cursor
  decode-encode_cursor n =
      rw (encode_cursor-ne n)
        (unfold encode_cursor in rw (decode-encode (sprintf "offset:%d" n), sscanf-sprintf n))
