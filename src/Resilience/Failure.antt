-- ===== src/Resilience/Failure.antt =====
-- Which failures of a PUT are worth another try: the upper half of
-- client/transfer/src/resilience/put-with-retry.ts, and the messages of the errors it reads.
use c_stateless_relay_tran.Base.{
  ℕ, ◌+◌, ◌*◌, ◌-◌, ◌||◌, ◌&&◌, Bool, true, false, if◌then◌else◌, ◌==◌, leb, String, Option, none,
  some, List, [], ◌∷◌, drop, Thrown, error, type_error, placement_expired, tokens_occupied,
  retry_exhausted, upload_put_error, reservation_exhausted, value, OccupiedTokenInfo,
}
use c_stateless_relay_tran.Base.Text.{codes, is_prefix, any_of_ci, concat, decimal, is_blank}

abbrev not_blank : String → Option String
not_blank s = if is_blank (codes s) then none else some s

abbrev put_message : Option String → String
put_message none = "PUT retries exhausted"
put_message (some detail) = detail

put_failed_message : String → ℕ → Option String → String
unfolding concat decimal
put_failed_message token attempts none =
    concat ("PUT failed for token " ∷ token ∷ " after " ∷ decimal attempts ∷ " attempt(s)" ∷ [])
put_failed_message token attempts (some detail) =
    concat (
      "PUT failed for token "
      ∷ token
      ∷ " after "
      ∷ decimal attempts
      ∷ " attempt(s): "
      ∷ detail
      ∷ [])

joined : List OccupiedTokenInfo → String
unfolding concat
joined [] = ""
joined (item ∷ []) = item.token
joined (item ∷ next ∷ rest) = concat (item.token ∷ ", " ∷ joined (next ∷ rest) ∷ [])

-- formatPutCauseMessage and formatPutFailureDetail: the text of a cause whose `message` is given.
cause_text : Thrown → Option String → Option String
unfolding is_blank
cause_text (value s) message = not_blank s
cause_text _ none = none
cause_text _ (some message) = not_blank message

-- The `message` of an `Error`; another value has none.
unfoldable pub message_of : Thrown → Option String
unfolding put_failed_message joined concat decimal cause_text
message_of (error message) = some message
message_of (type_error message) = some message
message_of (placement_expired token) = some (concat ("token placement expired: " ∷ token ∷ []))
message_of (tokens_occupied occupied) =
    some (concat ("registry tokens occupied: " ∷ joined occupied ∷ []))
message_of (retry_exhausted attempts cause) =
    some (put_message (cause_text cause (message_of cause)))
message_of (upload_put_error token attempts cause) =
    some (put_failed_message token attempts (cause_text cause (message_of cause)))
message_of (reservation_exhausted attempts occupied) = some (
    concat (
      "upload token reservation failed after "
      ∷ decimal attempts
      ∷ " attempts; last occupied: "
      ∷ joined occupied
      ∷ []))
message_of (value s) = none

abbrev is_digit : ℕ → Bool
is_digit c = leb b'0' c && leb c b'9'

three_digits : List ℕ → Option ℕ
three_digits (a ∷ b ∷ c ∷ rest) =
    if is_digit a && (is_digit b && is_digit c)
    then some ((a - 48) * 100 + (b - 48) * 10 + (c - 48))
    else none
three_digits _ = none

abbrev or_rest : Option ℕ → Option ℕ → Option ℕ
or_rest (some n) rest = some n
or_rest none rest = rest

-- message.match(/HTTP (\d{3})/), over the message's code points
unfoldable pub read_http_status_from_message : List ℕ → Option ℕ
unfolding three_digits is_prefix
read_http_status_from_message [] = none
read_http_status_from_message (c ∷ s) =
    or_rest (if is_prefix (codes "HTTP ") (c ∷ s) then three_digits (drop 5 (c ∷ s)) else none)
      (read_http_status_from_message s)

is_retried_status : Option ℕ → Bool
is_retried_status none = false
is_retried_status (some status) = status == 408 || (status == 429 || leb 500 status)

abbrev pub transient_words : List String
transient_words =
    "failed to fetch" ∷ "networkerror" ∷ "load failed" ∷ "network" ∷ "timed out" ∷ "timeout"
    ∷ "aborted" ∷ []

is_transient_message : Option String → Bool
unfolding is_retried_status read_http_status_from_message any_of_ci
is_transient_message none = false
is_transient_message (some message) =
    if any_of_ci transient_words message
    then true
    else is_retried_status (read_http_status_from_message (codes message))

unfoldable pub is_transient_put_failure : Thrown → Bool
unfolding is_transient_message message_of
is_transient_put_failure (type_error message) = true
is_transient_put_failure e = is_transient_message (message_of e)
