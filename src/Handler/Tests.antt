-- ===== src/Handler/Tests.antt =====
-- The theorems about the handlers of src/ngx_http_php_handler.c at concrete requests, in worlds
-- where PHP writes fixed texts.
use ngx_php.Prelude.{suc, ◌≡◌, refl, true, false, some, [], ◌∷◌, ◌++◌, arith, length}
use ngx_php.Prelude.Codes.{ngx_ok, ngx_again}
use ngx_php.Handler.State.{content, Request}
use ngx_php.Handler.Uthread.{uthread_exit}
use ngx_php.Handler.Respond.{clear_slot}
use ngx_php.Handler.Phases.{rewrite_inline_handler, access_inline_handler, content_inline_handler}
use ngx_php.Handler.Naming.{
  func_name, func_name_room, inline_source, inline_room, test_text, function_text, body_text,
  end_text, func_name-overruns,
}
use ngx_php.Handler.Body.{flat, read_request_body_callback}
use ngx_php.Handler.Output.{answer_of}
use ngx_php.Handler.Steps.{entered}
use ngx_php.Handler.Answer.{IsSent}
use ngx_php.Handler.Waiting.{pending, arrived, body-arrives}
use ngx_php.Handler.Cycle.{reset_status}
use ngx_php.Handler.Resume.{exit-answers, left_waiting}
use ngx_php.Handler.Samples.{hello, world, ending, request, nothing_yet, posted, in_memory, some_id}

-- A request as nginx's post-read phase hands it over.
abbrev new_request : Request
new_request = record request { slot = false }

body-arrives_example :
    (rewrite_inline_handler ending posted ≡ some (ngx_again, pending nothing_yet (entered posted)))
    × (access_inline_handler ending posted ≡ some (ngx_again, pending nothing_yet (entered posted)))
    × (content_inline_handler ending posted
        ≡ some (ngx_again, pending nothing_yet (reset_status (entered posted))))
    × ((s : Request)
        → read_request_body_callback ending (arrived nothing_yet in_memory s)
          ≡ ending.run_phases (record (arrived nothing_yet in_memory s) {
            ctx = record (s.ctx) {
              read_request_body_done = true;
              request_body_ctx = flat (hello ∷ world ∷ []);
              request_body_more = false;
            };
          }))
body-arrives_example =
    body-arrives ending posted nothing_yet (λ s e. refl) refl refl refl refl in_memory hello
      (world ∷ []) refl refl (omega arith)

func_name-overruns_example :
    (inline_source content some_id hello
      ≡ test_text
        ++ func_name content some_id
        ++ function_text
        ++ func_name content some_id
        ++ body_text
        ++ hello
        ++ end_text)
    × (length (inline_source content some_id hello) ≡ inline_room content hello)
    × (length (func_name content some_id) ≡ suc (func_name_room content))
func_name-overruns_example = func_name-overruns content some_id hello refl

exit-answers_example :
    (ready : Request) × (sent : Request) × (uthread_exit ending (left_waiting (hello ∷ []) request)
      ≡ ending.run_phases ready)
    × (content_inline_handler ending ready ≡ some (ngx_ok, clear_slot (ending.output_filter sent)))
    × IsSent (answer_of (hello ∷ [])) request sent
exit-answers_example =
    exit-answers ending (hello ∷ []) request (λ s h. refl) refl refl refl refl refl refl refl refl
