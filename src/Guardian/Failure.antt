-- ===== src/Guardian/Failure.antt =====
-- internal/guardian/parent.go and state.go: the errors that the guardian tells apart, the exit code
-- that it reads from them, and how a generation of the worker ended.
use pxgo.Shared.{
  ℕ, ◌≡◌, ℤ, pos, negsuc, Bool, true, false, ◌||◌, Option, none, some, arith, if◌then◌else◌,
}

-- What `errors.Is` and `errors.As` can see of an error, where exitCode and normalizeParentStopError
-- tell them apart: ErrProtocol, context.DeadlineExceeded, an exec.ExitError with its code, any other
-- error, and errors.Join of two.
pub data Failure : Type 0 where
  protocol deadline_exceeded : Failure
  exit_error : ℤ → Failure
  other : ℕ → Failure
  joined : Failure → Failure → Failure

-- errors.Join(a, b): a nil error is left out.
unfoldable pub join : Option Failure → Option Failure → Option Failure
join none b = b
join (some a) none = some a
join (some a) (some b) = some (joined a b)

abbrev or_else : Option ℤ → Option ℤ → Option ℤ
or_else none b = b
or_else (some c) b = some c

-- errors.As(err, &exitErr): the first `*exec.ExitError` of the tree, and its code.
unfoldable pub find_exit_error : Failure → Option ℤ
find_exit_error (exit_error code) = some code
find_exit_error (joined a b) = or_else (find_exit_error a) (find_exit_error b)
find_exit_error protocol = none
find_exit_error deadline_exceeded = none
find_exit_error (other _) = none

-- errors.Is(err, context.DeadlineExceeded)
unfoldable pub is_deadline_exceeded : Failure → Bool
is_deadline_exceeded deadline_exceeded = true
is_deadline_exceeded (joined a b) = is_deadline_exceeded a || is_deadline_exceeded b
is_deadline_exceeded protocol = false
is_deadline_exceeded (exit_error _) = false
is_deadline_exceeded (other _) = false

-- errors.Is(err, ErrProtocol)
unfoldable pub is_protocol : Failure → Bool
is_protocol protocol = true
is_protocol (joined a b) = is_protocol a || is_protocol b
is_protocol deadline_exceeded = false
is_protocol (exit_error _) = false
is_protocol (other _) = false

abbrev code_or_minus_one : Option ℤ → ℤ
code_or_minus_one none = negsuc 0
code_or_minus_one (some code) = code

unfoldable pub exit_code : Option Failure → ℤ
unfolding find_exit_error
exit_code none = pos 0
exit_code (some err) = code_or_minus_one (find_exit_error err)

abbrev drop_exit_error : Failure → Option ℤ → Option Failure
drop_exit_error err (some _) = none
drop_exit_error err none = some err

unfoldable pub normalize_parent_stop_error : Option Failure → Option Failure
unfolding is_deadline_exceeded find_exit_error
normalize_parent_stop_error none = none
normalize_parent_stop_error (some err) =
    if is_deadline_exceeded err then some err else drop_exit_error err (find_exit_error err)

pub data ExitDisposition : Type 0 where
  exit_startup_failure exit_restart exit_normal_stop : ExitDisposition

unfoldable pub classify_exit : Bool → Bool → Bool → ExitDisposition
classify_exit ready stopping internal_recycle =
    if ready
    then (if stopping
        then exit_normal_stop
        else if internal_recycle
        then exit_restart
        else exit_restart)
    else exit_startup_failure

-- A stop is never reported clean when the child could not be reaped.
pub normalize_parent_stop_error-keeps_deadline :
    (err : Failure)
    → is_deadline_exceeded err ≡ true
    → normalize_parent_stop_error (some err) ≡ some err
unfolding normalize_parent_stop_error
normalize_parent_stop_error-keeps_deadline err h = ground arith
