-- ===== src/Errors.antt =====
-- The error values of pkg/bullmq/errors.go and `CategorizeError`.
-- A Go error is a value of `Error`; `nil_error` is the nil error value. An error chain is a single
-- line of wrapped errors (no errors.Join). Errors of the network and of Redis enter as data.
pub mod Category
use bullmq_go.Prelude.{
  Bytes, codes, Bool, true, false, ◌||◌, [], ◌∷◌, ◌++◌, ◌==◌, ◌&&◌, if◌then◌else◌,
}

pub data Error : Type 0 where
  nil_error : Error
  -- TransientError{Err, Msg} and PermanentError{Err, Msg}
  transient permanent : Error → Bytes → Error
  -- ValidationError{Field, Message}
  validation : Bytes → Bytes → Error
  -- a net.Error, by its text and what its Unwrap returns
  network : Bytes → Error → Error
  deadline_exceeded canceled redis_nil : Error
  -- fmt.Errorf("text: %w", err)
  wrapped : Bytes → Error → Error
  -- any other error, by its text
  plain : Bytes → Error

pub data ErrorCategory : Type 0 where
  category_permanent category_transient : ErrorCategory

unfoldable pub is_empty : Bytes → Bool
is_empty [] = true
is_empty (c ∷ s) = false

-- `Error() string` of each type, and "%v" of an error.
unfoldable pub error_string : Error → Bytes
unfolding is_empty
error_string nil_error = codes "<nil>"
error_string (transient e m) =
    let inner = error_string e in
    if is_empty m
    then codes "transient error: " ++ inner
    else codes "transient error: " ++ (m ++ (codes ": " ++ inner))
error_string (permanent e m) =
    let inner = error_string e in
    if is_empty m
    then codes "permanent error: " ++ inner
    else codes "permanent error: " ++ (m ++ (codes ": " ++ inner))
error_string (validation field message) =
    codes "validation error: " ++ (field ++ (codes ": " ++ message))
error_string (network t e) = t
error_string deadline_exceeded = codes "context deadline exceeded"
error_string canceled = codes "context canceled"
error_string redis_nil = codes "redis: nil"
error_string (wrapped m e) = m ++ (codes ": " ++ error_string e)
error_string (plain t) = t

-- `Unwrap`: nil where the type has no such method.
unfoldable pub unwrap : Error → Error
unwrap (transient e m) = e
unwrap (permanent e m) = e
unwrap (network t e) = e
unwrap (wrapped m e) = e
unwrap e = nil_error

-- errors.As and errors.Is walk along `Unwrap` until a value fits.
unfoldable pub any_in_chain : (Error → Bool) → Error → Bool
any_in_chain p nil_error = false
any_in_chain p (transient e m) = p (transient e m) || any_in_chain p e
any_in_chain p (permanent e m) = p (permanent e m) || any_in_chain p e
any_in_chain p (network t e) = p (network t e) || any_in_chain p e
any_in_chain p (wrapped m e) = p (wrapped m e) || any_in_chain p e
any_in_chain p e = p e

abbrev pub is_transient : Error → Bool
is_transient (transient e m) = true
is_transient e = false

abbrev pub is_permanent : Error → Bool
is_permanent (permanent e m) = true
is_permanent e = false

abbrev pub is_validation : Error → Bool
is_validation (validation f m) = true
is_validation e = false

-- context.DeadlineExceeded has the methods of net.Error too.
abbrev pub is_net : Error → Bool
is_net (network t e) = true
is_net deadline_exceeded = true
is_net e = false

abbrev pub is_context : Error → Bool
is_context deadline_exceeded = true
is_context canceled = true
is_context e = false

abbrev pub is_redis_nil : Error → Bool
is_redis_nil redis_nil = true
is_redis_nil e = false

unfoldable pub starts_with : Bytes → Bytes → Bool
starts_with [] s = true
starts_with (c ∷ p) [] = false
starts_with (c ∷ p) (d ∷ s) = c == d && starts_with p s

-- strings.Contains(s, sub), its arguments the other way round.
unfoldable pub contains_text : Bytes → Bytes → Bool
unfolding starts_with
contains_text sub [] = starts_with sub []
contains_text sub (c ∷ s) = starts_with sub (c ∷ s) || contains_text sub s

-- The four texts of a Redis connection error.
unfoldable pub mentions_connection : Bytes → Bool
unfolding contains_text
mentions_connection s =
    contains_text (codes "connection refused") s
    || (contains_text (codes "i/o timeout") s
        || (contains_text (codes "LOADING") s || contains_text (codes "READONLY") s))

unfoldable pub is_nil : Error → Bool
is_nil nil_error = true
is_nil e = false

unfoldable pub categorize_error : Error → ErrorCategory
unfolding is_nil
categorize_error e =
    if is_nil e
    then category_permanent
    else if any_in_chain is_transient e
    then category_transient
    else if any_in_chain is_permanent e
    then category_permanent
    else if any_in_chain is_net e
    then category_transient
    else if any_in_chain is_context e
    then category_transient
    else if any_in_chain is_redis_nil e
    then category_permanent
    else if mentions_connection (error_string e)
    then category_transient
    else if any_in_chain is_validation e
    then category_permanent
    else category_permanent
