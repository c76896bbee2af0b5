-- ===== src/Headers/Redirect.antt =====
-- `ngx_redirect` of src/php/impl/php_ngx_core.c, and what the content handler for blocks of
-- src/ngx_http_php_handler.c makes of its status.
use ngx_php.Prelude.{◌⊎◌, ◌≡◌, true, if◌then◌else◌}
use ngx_php.Prelude.Codes.{ℤ, pos, ◌==ℤ◌, ngx_ok}
use ngx_php.Handler.State.{Request, World}
use ngx_php.Handler.Respond.{fill_empty, send_response}

-- The statuses of a redirect with an address.
abbrev pub Redirects : ℤ → Type 0
Redirects status =
    (status ≡ pos 301)
    ⊎ (status ≡ pos 302)
    ⊎ (status ≡ pos 303)
    ⊎ (status ≡ pos 307)
    ⊎ (status ≡ pos 308)

-- What the content handler for blocks makes of the status that a redirect has left: 301 is not
-- among those that it returns.
abbrev pub answered : World → ℤ → Request → ℤ × Request
answered w status request =
    if status ==ℤ pos 301
    then send_response w true ngx_ok (fill_empty request)
    else (status, request)
