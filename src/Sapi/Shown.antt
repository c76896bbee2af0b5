-- ===== src/Sapi/Shown.antt =====
-- An error of PHP's in a content block that has waited: `ngx_php_error_cb` of
-- src/ngx_http_php_core.c with the handler that answers behind it.
use ngx_php.Prelude.{◌⊎◌, ◌≢◌, not, ◌≡◌, true, false, not, none, some, equal}
use ngx_php.Sapi.Errors.{PhpError, Globals, LastError, stays_error, is_core, eh_normal, or_unknown}

-- What is stored of an error.
abbrev pub stored_error : PhpError → LastError
stored_error e = record {
  type = e.type;
  message = e.message;
  file = or_unknown e.filename;
  lineno = e.lineno;
}

-- The same, with repeated errors left out.
abbrev pub quiet : Globals → Globals
quiet g = record g { ignore_repeated_errors = true; ignore_repeated_source = true }

-- An error that is not the one before: repeated errors are not left out, or there was none, or it
-- had another message.
abbrev pub IsNew : PhpError → Globals → Type 0
IsNew e g =
    (g.ignore_repeated_errors ≡ false)
    ⊎ (g.last_error ≡ none)
    ⊎ ((l : LastError) × (g.last_error ≡ some l) × (equal l.message e.message ≡ false))

-- An error that is handled as an error, and one that becomes an exception or is left out.
abbrev pub IsError : PhpError → Globals → Type 0
IsError e g = (g.error_handling ≡ eh_normal) ⊎ (stays_error e.type ≡ true)

abbrev pub IsSoft : PhpError → Globals → Type 0
IsSoft e g = (g.error_handling ≢ eh_normal) × (stays_error e.type ≡ false)

-- An error that PHP is to report, to the log or to the answer.
abbrev pub IsReported : PhpError → Globals → Type 0
IsReported e g =
    ((g.error_reporting e.type ≡ true) ⊎ (is_core e.type ≡ true))
    × ((g.log_errors ≡ true) ⊎ (g.display_errors ≡ true))
