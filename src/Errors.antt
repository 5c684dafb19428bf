-- ===== src/Errors.antt =====
-- Go's error values, as far as the program looks at them: made by `errors.New` or `fmt.Errorf`,
-- wrapped by `fmt.Errorf` with `%w`, or handed out by a library. Formatting stays symbolic: an error
-- of the program's own is its format and its arguments.
use a2a_gateway_mcp.Prelude.{Bool, false, List, [], ◌∷◌, ◌++◌, String, ◌≡◌, ap}
use a2a_gateway_mcp.Prelude.Int.{ℤ}

-- What the program asks `errors.Is` and `errors.As` about.
pub data Target : Type 0 where
  canceled deadline_exceeded op_error tls_certificate net_error eof unexpected_eof : Target
  unauthenticated unauthorized task_not_found task_not_cancelable : Target
  stream_timeout stream_connection_timeout invalid_cursor : Target

-- An argument of a format.
pub data Arg : Type 0 where
  text : String → Arg
  number : ℤ → Arg

pub data Error : Type 0 where
  -- errors.New, or fmt.Errorf with no %w
  errorf : String → List Arg → Error
  -- fmt.Errorf whose last argument is wrapped by %w
  wrapf : String → List Arg → Error → Error
  -- an error of a library or a sentinel: what it answers, and its text
  foreign : (Target → Bool) → String → Error

unfoldable pub errors_is : Target → Error → Bool
errors_is t (errorf f args) = false
errors_is t (wrapf f args e) = errors_is t e
errors_is t (foreign answers message) = answers t

-- err.Error(), over the formatting of package fmt
unfoldable pub error_text : (String → List Arg → String) → Error → String
error_text sprintf (errorf f args) = sprintf f args
error_text sprintf (wrapf f args e) = sprintf f (args ++ text (error_text sprintf e) ∷ [])
error_text sprintf (foreign answers message) = message

-- A value, or the error that is returned in its place.
pub data Result {ℓ} (A : Type ℓ) : Type ℓ where
  ok : A → Result A
  err : Error → Result A

pub ok_injective {ℓ} : {A : Type ℓ} {a b : A} → ok a ≡ ok b → a ≡ b
ok_injective {A} {a} {b} h = ap (λ r. elim r [ ok x ↦ x | err e ↦ a ]) h

-- A formatted text that is no error: its format and its arguments.
pub record Formatted : Type 0 where
  pub format : String
  pub args : List Arg
