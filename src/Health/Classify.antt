-- ===== src/Health/Classify.antt =====
-- health/health_classify.go: what an error of a connection attempt says of the agent. An error is
-- known by the answers of `errors.Is` and `errors.As` for the targets that the code asks about.
use a2a_gateway_mcp.Prelude.{
  ◌≡◌, ◌≢◌, ◌↔◌, true, false, not, ◌&&◌, ◌||◌, Option, none, some, if◌then◌else◌, arith,
}
use a2a_gateway_mcp.Errors.{
  canceled, deadline_exceeded, op_error, tls_certificate, net_error, eof, unexpected_eof, Error,
  errors_is,
}

pub data ConnectionOutcome : Type 0 where
  outcome_success outcome_connection_error outcome_context_canceled : ConnectionOutcome

classify_some : Error → ConnectionOutcome
classify_some err =
    if errors_is canceled err && not (errors_is deadline_exceeded err)
    then outcome_context_canceled
    else if errors_is deadline_exceeded err
    then outcome_connection_error
    else if errors_is op_error err
    then outcome_connection_error
    else if errors_is tls_certificate err
    then outcome_connection_error
    else if errors_is net_error err
    then outcome_connection_error
    else if errors_is eof err || errors_is unexpected_eof err
    then outcome_connection_error
    else outcome_connection_error

unfoldable pub classify_error : Option Error → ConnectionOutcome
unfolding classify_some
classify_error none = outcome_success
classify_error (some err) = classify_some err

-- An error counts against the agent exactly unless it is a cancellation that is no timeout; no
-- error is ever classified as a success.
pub classify_error_iff :
    (err : Error)
    → (classify_error (some err) ≢ outcome_success)
      × ((classify_error (some err) ≡ outcome_context_canceled)
          ↔ ((errors_is canceled err ≡ true) × (errors_is deadline_exceeded err ≡ false)))
unfolding classify_error
classify_error_iff err = (ground arith, (ground arith, ground arith))
