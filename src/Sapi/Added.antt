-- ===== src/Sapi/Added.antt =====
-- What `ngx_http_php_code_header_handler` of src/ngx_http_php_core.c adds, and what PHP reads back of it.
use ngx_php.Prelude.{
  suc, ◌+◌, ◌-◌, ◌≡◌, refl, ap, ◌∙◌, true, false, none, some, [], ◌∷◌, ◌++◌, arith, length, take,
  take-append, take-length, length-append, append_assoc, if◌then◌else◌, Bool, Bool-cases, inl, inr,
}
use ngx_php.Prelude.Codes.{pos, ngx_error}
use ngx_php.Util.Replace.{Strstr, Finds}
use ngx_php.Handler.State.{Bytes}
use ngx_php.Cookie.Get.{Strncasecmp}
use ngx_php.Headers.State.{Elt, HeadersOut, location_key}
use ngx_php.Headers.Functions.{push, is_content_type, first_header, ngx_header_get}
use ngx_php.Headers.Found.{Compares, first_of, get-push}
use ngx_php.Sapi.Line.{separator, begins_with, relocated, header_handler}

module _ (strstr : Strstr) (finds : Finds strstr) where
  handler-adds :
      (line key value : Bytes) (r : HeadersOut)
      → strstr line separator ≡ some (key, value)
      → header_handler strstr true line r
        ≡ (pos 0, relocated key (push (record { key = key; value = value }) r))
  unfolding header_handler
  handler-adds line key value r found =
      let split = finds.split line separator key value found ∙ append_assoc key separator value in
      let front : take (length key) line ≡ key =
        ap (take (length key)) split ∙ take-append key (separator ++ value) in
      let long : length line ≡ length key + suc (suc (length value)) =
        ap length split ∙ length-append key (separator ++ value) in
      let room : length line - length key - 2 ≡ length value = omega (arith, long) in
      rw (header_handler, found, front, room, take-length value) refl

  get-relocated :
      (strncasecmp : Strncasecmp) (key k : Bytes) (r : HeadersOut)
      → ngx_header_get strncasecmp true k (relocated key r) ≡ ngx_header_get strncasecmp true k r
  unfolding ngx_header_get
  get-relocated strncasecmp key k r = elim (Bool-cases (begins_with location_key key)) [
    | inl h ↦ rw h refl
    | inr h ↦ rw h refl
  ]

  relocated-headers : (key : Bytes) (r : HeadersOut) → (relocated key r).headers ≡ r.headers
  relocated-headers key r = elim (Bool-cases (begins_with location_key key)) [
    | inl h ↦ rw h refl
    | inr h ↦ rw h refl
  ]

  relocated-status :
      (key : Bytes) (r : HeadersOut)
      → (relocated key r).status ≡ (if begins_with location_key key then pos 302 else r.status)
  relocated-status key r = elim (Bool-cases (begins_with location_key key)) [
    | inl h ↦ rw h refl
    | inr h ↦ rw h refl
  ]

  -- Where C's `strstr` finds `: ` in a line, between a key and a value, and the list of headers grows:
  -- PHP's `header` adds exactly this key and value behind the headers, sets the status 302 if the key
  -- begins with `Location` and keeps it else, and reading the key back with `ngx_header_get` gives
  -- the value of the first header that was there before with such a key, or else the value, for a key
  -- that is not that of the content type and texts that equal themselves. A list that does not grow,
  -- or a line without `: `, is an error, and nothing changes.
  pub header_handler-get :
      (strncasecmp : Strncasecmp) (compares : Compares strncasecmp) (line key value bare : Bytes)
      (grows : Bool) (r : HeadersOut)
      → strstr line separator ≡ some (key, value)
      → strstr bare separator ≡ none
      → is_content_type strncasecmp true key ≡ false
      → ((r' : HeadersOut) × (header_handler strstr true line r ≡ (pos 0, r'))
          × (r'.headers ≡ r.headers ++ record { key = key; value = value } ∷ [])
          × (r'.status ≡ (if begins_with location_key key then pos 302 else r.status))
          × (ngx_header_get strncasecmp true key r'
              ≡ first_of (first_header strncasecmp true key r.headers) value))
        × (header_handler strstr false line r ≡ (ngx_error, r))
        × (header_handler strstr grows bare r ≡ (ngx_error, r))
  unfolding header_handler
  header_handler-get strncasecmp compares line key value bare grows r found missing other =
      let h : Elt = record { key = key; value = value } in
      (
        (
          relocated key (push h r),
          handler-adds line key value r found,
          relocated-headers key (push h r),
          relocated-status key (push h r),
          get-relocated strncasecmp key key (push h r)
              ∙ get-push strncasecmp key value r (compares.same key) other,
        ),
        rw (header_handler, found) refl,
        rw (header_handler, missing) refl,
      )
