-- ===== src/Ai/AdapterErrors.antt =====
-- src/ai/adapters/adapter.errors.ts: what went wrong at a provider.
use dhund_research_ai.Base.{
  ℕ, Bool, true, false, String, Option, none, some, ◌==◌, ◌||◌, leb, if◌then◌else◌, value_or,
  or_else,
}

pub data AdapterErrorKind : Type 0 where
  rate_limited unavailable timeout auth circuit_open terminal : AdapterErrorKind

-- What `classifyProviderError` reads of an error: the kind of an AdapterError, or of any other error
-- its two statuses and its message.
pub data Thrown : Type 0 where
  adapter_error : AdapterErrorKind → Thrown
  provider_error : Option ℕ → Option ℕ → Option String → Thrown

unfoldable pub is_retryable_kind : AdapterErrorKind → Bool
is_retryable_kind rate_limited = true
is_retryable_kind unavailable = true
is_retryable_kind timeout = true
is_retryable_kind _ = false

-- The kind by status, and by message where the status says nothing.
unfoldable pub kind_of_message : (String → Bool) → Option String → AdapterErrorKind
kind_of_message mentions_network message =
    if mentions_network (value_or message "Provider invocation failed")
    then timeout
    else unavailable

unfoldable pub kind_of_status : ℕ → Option AdapterErrorKind
kind_of_status status =
    if status == 429
    then some rate_limited
    else if (status == 401) || (status == 403)
    then some auth
    else if leb 500 status
    then some unavailable
    else if leb 400 status
    then some terminal
    else none

unfoldable pub read_http_status : Option ℕ → Option ℕ → Option ℕ
read_http_status status status_code = or_else status status_code

-- The kind of the error. `mentions_network` is the regular expression on its message.
unfoldable pub classify_provider_error : (String → Bool) → Thrown → AdapterErrorKind
unfolding kind_of_message kind_of_status read_http_status
classify_provider_error mentions_network (adapter_error kind) = kind
classify_provider_error mentions_network (provider_error status status_code message) =
    elim (read_http_status status status_code) [
      | none ↦ kind_of_message mentions_network message
      | some code ↦ value_or (kind_of_status code) (kind_of_message mentions_network message)
    ]

-- The error that `assertIntegerMicros` throws.
abbrev pub money_micros_error : Thrown
money_micros_error =
    provider_error none none
      (some "Cost values must be integer micros; float/fractional values are forbidden")
