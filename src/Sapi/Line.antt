-- ===== src/Sapi/Line.antt =====
-- `ngx_http_php_code_header_handler` of src/ngx_http_php_core.c: a line that PHP's `header` gives. Memory
-- is taken to be found.
use ngx_php.Prelude.{◌-◌, Bool, true, false, none, some, [], ◌∷◌, length, take, ◌==◌, if◌then◌else◌}
use ngx_php.Prelude.Codes.{ℤ, pos, ngx_error}
use ngx_php.Util.Replace.{Strstr}
use ngx_php.Handler.State.{Bytes}
use ngx_php.Headers.State.{HeadersOut, location_key}
use ngx_php.Headers.Functions.{push}

-- `: `
abbrev pub separator : Bytes
separator = b':' ∷ b' ' ∷ []

-- `ngx_strncmp(key, prefix, length prefix) == 0`, the key being followed by a NUL.
unfoldable pub begins_with : Bytes → Bytes → Bool
begins_with [] key = true
begins_with (b ∷ bs) [] = false
begins_with (b ∷ bs) (k ∷ ks) = if b == k then begins_with bs ks else false

-- `if (ngx_strncmp(…) == 0) { r->headers_out.status = NGX_HTTP_MOVED_TEMPORARILY; }`
abbrev pub relocated : Bytes → HeadersOut → HeadersOut
relocated key r = if begins_with location_key key then record r { status = pos 302 } else r

-- The key is what stands before the separator; the value has the length that is left of the line's.
unfoldable pub header_handler : Strstr → Bool → Bytes → HeadersOut → ℤ × HeadersOut
header_handler strstr list_push_succeeds line r = elim (strstr line separator) [
  | none ↦ (ngx_error, r)
  | some (front, back) ↦
      if list_push_succeeds
      then (let key = take (length front) line in
          let value = take (length line - length key - 2) back in
          (pos 0, relocated key (push (record { key = key; value = value }) r)))
      else (ngx_error, r)
]
