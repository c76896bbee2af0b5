-- ===== src/Socket/Sleep.antt =====
-- src/ngx_http_php_sleep.c: the timer that PHP code waits for.
use ngx_php.Prelude.{suc, true, false, if◌then◌else◌, ◌&&◌}
use ngx_php.Prelude.Codes.{ℤ, pos, ngx_ok, ngx_error, ngx_again}
use ngx_php.Socket.State.{Socket, Net}

abbrev pub ngx_http_internal_server_error : ℤ
ngx_http_internal_server_error = pos 500

module _ {L N : Type 0} where
  -- `ngx_http_php_sleep`: the timer is set even if the clean-up cannot be added.
  unfoldable pub sleep : Net N → Socket L N → ℤ × Socket L N
  sleep net s =
      if s.slot
      then (let waiting = record s { phase_status = ngx_again; sleep_timer_set = true } in
          if net.cleanup_add_succeeds
          then (ngx_ok, record waiting { cleanups = suc s.cleanups })
          else (ngx_error, waiting))
      else (ngx_http_internal_server_error, s)

  -- `ngx_http_php_sleep_cleanup`
  unfoldable pub sleep_cleanup : Socket L N → Socket L N
  sleep_cleanup s = if s.slot && s.sleep_timer_set then record s { sleep_timer_set = false } else s

  -- `ngx_http_php_sleep_handler`, where `resume` is `ngx_http_php_zend_uthread_resume`.
  unfoldable pub sleep_handler : (Socket L N → Socket L N) → Socket L N → Socket L N
  sleep_handler resume s = resume s
