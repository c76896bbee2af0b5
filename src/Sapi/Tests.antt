-- ===== src/Sapi/Tests.antt =====
-- Outputs and errors of PHP on a request whose answer is not begun.
use ngx_php.Prelude.{ℕ, ◌≡◌, refl, true, false, none, some, List, [], ◌∷◌, ◌++◌}
use ngx_php.Prelude.Codes.{pos}
use ngx_php.Sapi.Errors.{PhpError, Globals, e_error, e_warning, eh_normal, eh_throw}
use ngx_php.Handler.State.{Bytes, Request, output_content, output_stack}
use ngx_php.Handler.Respond.{fill_empty, end_chain}
use ngx_php.Handler.Output.{answer_of, IsEnded}
use ngx_php.Handler.Samples.{hello, world, request}
use ngx_php.Sapi.Write.{ub_write, echo_all}
use ngx_php.Sapi.Echo.{lengths_so_far, echo-answer}

abbrev fresh : Request
fresh = record request { ctx = record (request.ctx) { output_type = output_content } }

abbrev stacked : Request
stacked = record request { ctx = record (request.ctx) { output_type = output_stack } }

abbrev outputs : List Bytes
outputs = hello ∷ world ∷ []

echo-answer_example :
    ((echo_all outputs fresh).0 ≡ lengths_so_far 0 outputs)
    × IsEnded (answer_of outputs) (end_chain (fill_empty (echo_all outputs fresh).1))
    × (ub_write hello (record fresh { slot = false }) ≡ (pos 0, record fresh { slot = false }))
    × (ub_write hello (record stacked { slot = true })
        ≡ (stacked.content_length_n, record stacked { slot = true }))
echo-answer_example = echo-answer outputs hello fresh stacked refl refl refl refl refl

-- An error that ends PHP code, where errors are errors; and a warning, where warnings are thrown.
abbrev fatal : PhpError
fatal = record { type = e_error; filename = none; lineno = 3; message = hello }

abbrev warning : PhpError
warning = record { type = e_warning; filename = some world; lineno = 4; message = world }

abbrev normal : Globals
normal = record {
  ignore_repeated_errors = false;
  ignore_repeated_source = false;
  log_errors = true;
  display_errors = false;
  error_reporting = λ t. true;
  error_handling = eh_normal;
  exception = none;
  last_error = none;
}

abbrev throwing : Globals
throwing = record normal { error_handling = eh_throw }

abbrev formatted : Bytes → Bytes → Bytes → ℕ → Bytes
formatted type message file line = type ++ message ++ file
