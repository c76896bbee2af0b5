-- ===== src/Sapi/Errors.antt =====
-- `ngx_php_error_cb` of src/ngx_http_php_core.c as PHP 7 compiles it: an error of PHP's as the answer.
-- Memory is taken to be found; the lines for nginx's log are left out. `none` is a read through NULL.
use ngx_php.Prelude.{
  ℕ, Bool, true, false, not, ◌&&◌, ◌||◌, Option, none, some, ◌==◌, if◌then◌else◌, equal,
}
use ngx_php.Prelude.Text.{codes}
use ngx_php.Handler.State.{Bytes, Request, World}
use ngx_php.Handler.Respond.{set_output_chain}
use ngx_php.Handler.Uthread.{uthread_exit}

pub data ErrorType : Type 0 where
  e_error e_warning e_parse e_notice e_core_error e_core_warning e_compile_error e_compile_warning
        e_user_error e_user_warning e_user_notice e_strict e_recoverable_error e_deprecated
        e_user_deprecated e_unknown :
      ErrorType

pub data ErrorHandling : Type 0 where
  eh_normal eh_suppress eh_throw : ErrorHandling

-- What PHP gives; `message` is what `vspprintf` makes of `format` and `args`.
pub record PhpError : Type 0 where
  pub type : ErrorType
  pub filename : Option Bytes
  pub lineno : ℕ
  pub message : Bytes

-- `PG(last_error_…)`
pub record LastError : Type 0 where
  pub type : ErrorType
  pub message : Bytes
  pub file : Bytes
  pub lineno : ℕ

-- The members of PG and EG that are read or written. `error_reporting` is the test of a type against
-- the mask; `exception` is the message of the pending exception.
pub record Globals : Type 0 where
  pub ignore_repeated_errors : Bool
  pub ignore_repeated_source : Bool
  pub log_errors : Bool
  pub display_errors : Bool
  pub error_reporting : ErrorType → Bool
  pub error_handling : ErrorHandling
  pub exception : Option Bytes
  pub last_error : Option LastError

-- `strcmp(PG(last_error_file), error_filename)`
abbrev pub file_differs : Bytes → Option Bytes → Option Bool
file_differs file none = none
file_differs file (some filename) = some (not (equal file filename))

-- Two errors with the same message, where the source is not ignored.
abbrev pub source_differs : LastError → PhpError → Option Bool
source_differs l e = if l.lineno == e.lineno then file_differs l.file e.filename else some true

-- `display`
unfoldable pub displays : PhpError → Globals → Option Bool
displays e g =
    if g.ignore_repeated_errors
    then elim g.last_error [
      | none ↦ some true
      | some l ↦
          if equal l.message e.message
          then if g.ignore_repeated_source then some false else source_differs l e
          else some true
    ]
    else some true

abbrev pub or_unknown : Option Bytes → Bytes
or_unknown none = codes "Unknown"
or_unknown (some filename) = filename

-- `if (display) { … }`: the error is stored.
unfoldable pub remember : Bool → PhpError → Globals → Globals
remember display e g =
    if display
    then record g {
      last_error = some (record {
        type = e.type;
        message = e.message;
        file = or_unknown e.filename;
        lineno = e.lineno;
      });
    }
    else g

-- The types that stay errors in every mode: fatal ones, deprecations and notices.
unfoldable pub stays_error : ErrorType → Bool
stays_error e_warning = false
stays_error e_core_warning = false
stays_error e_compile_warning = false
stays_error e_user_warning = false
stays_error e_recoverable_error = false
stays_error e_unknown = false
stays_error _ = true

abbrev pub is_normal : ErrorHandling → Bool
is_normal eh_normal = true
is_normal _ = false

abbrev pub becomes_exception : PhpError → Globals → Bool
becomes_exception e g = not (is_normal g.error_handling) && not (stays_error e.type)

-- `if (EG(error_handling) == EH_THROW && !EG(exception))`
abbrev pub throw_unless : Option Bytes → Bytes → Option Bytes
throw_unless none message = some message
throw_unless (some pending) message = some pending

unfoldable pub thrown : PhpError → Globals → Globals
thrown e g = elim g.error_handling [
  | eh_throw ↦ record g { exception = throw_unless g.exception e.message }
  | _ ↦ g
]

-- `type & E_CORE`
abbrev pub is_core : ErrorType → Bool
is_core e_core_error = true
is_core e_core_warning = true
is_core _ = false

-- `error_type_str`
unfoldable pub error_type_str : ErrorType → Bytes
error_type_str e_error = codes "Fatal error"
error_type_str e_core_error = codes "Fatal error"
error_type_str e_compile_error = codes "Fatal error"
error_type_str e_user_error = codes "Fatal error"
error_type_str e_recoverable_error = codes "Catchable fatal error"
error_type_str e_warning = codes "Warning"
error_type_str e_core_warning = codes "Warning"
error_type_str e_compile_warning = codes "Warning"
error_type_str e_user_warning = codes "Warning"
error_type_str e_parse = codes "Parse error"
error_type_str e_notice = codes "Notice"
error_type_str e_user_notice = codes "Notice"
error_type_str e_strict = codes "Strict Standards"
error_type_str e_deprecated = codes "Deprecated"
error_type_str e_user_deprecated = codes "Deprecated"
error_type_str e_unknown = codes "Unknown error"

abbrev pub is_reported : PhpError → Globals → Bool
is_reported e g = (g.error_reporting e.type || is_core e.type) && (g.log_errors || g.display_errors)

-- `if (!r->headers_out.status) { … = NGX_HTTP_INTERNAL_SERVER_ERROR; }`
abbrev pub or_internal_error : Request → Request
or_internal_error r = record r { status = if r.status == 0 then 500 else r.status }

-- `spprintf type message file lineno` is the text of the format `%s: %s in %s on line %d`.
module _ (spprintf : Bytes → Bytes → Bytes → ℕ → Bytes) (w : World) where
  abbrev pub log_buffer : PhpError → Bytes
  log_buffer e = spprintf (error_type_str e.type) e.message (or_unknown e.filename) e.lineno

  -- `if (display && …) { … }`
  unfoldable pub report : Bool → PhpError → Globals → Request → Request
  report display e g r =
      if display && is_reported e g
      then if r.slot
        then uthread_exit w (or_internal_error (set_output_chain (log_buffer e) r))
        else r
      else r

  -- From `if (EG(error_handling) != EH_NORMAL)` on.
  unfoldable pub handle_error : Bool → PhpError → Globals → Request → Globals × Request
  handle_error display e g r =
      if becomes_exception e g then (thrown e g, r) else (g, report display e g r)

  unfoldable pub error_cb : PhpError → Globals → Request → Option (Globals × Request)
  error_cb e g r = elim (displays e g) [
    | none ↦ none
    | some display ↦ some (handle_error display e (remember display e g) r)
  ]
