-- ===== src/Headers/Functions.antt =====
-- The functions on headers, over `ngx_strncasecmp`, `ngx_list_push` and PHP's arrays. Where a
-- function reads a member of a value that its type does not have, the result is `none`.
use ngx_php.Prelude.{
  ℕ, Bool, false, not, ◌&&◌, ◌||◌, Option, none, some, List, [], ◌∷◌, ◌++◌, length, ◌==◌,
  if◌then◌else◌,
}
use ngx_php.Prelude.Codes.{ℤ, pos, ◌==ℤ◌}
use ngx_php.Prelude.Text.{codes}
use ngx_php.Handler.State.{Bytes}
use ngx_php.Cookie.Get.{Strncasecmp}
use ngx_php.Args.Scan.{PhpArray}
use ngx_php.Headers.State.{
  Elt, HeadersOut, Zval, is_null, is_false, is_true, is_long, is_string, is_other, content_type_key,
  content_length_key, set_cookie_key, location_key,
}

-- `h = ngx_list_push(&r->headers_out.headers)` and what is set in it.
abbrev pub push : Elt → HeadersOut → HeadersOut
push h r = record r { headers = r.headers ++ h ∷ [] }

-- `zend_throw_error(zend_ce_type_error, …)` and `RETURN_NULL()`.
abbrev pub type_error : HeadersOut → Zval × HeadersOut
type_error r =
    (is_null, record r { thrown = codes "header value type must be long or string." ∷ r.thrown })

module _ (strncasecmp : Strncasecmp) (list_push_succeeds : Bool) where
  abbrev pub is_content_type : Bytes → Bool
  is_content_type key = strncasecmp key content_type_key 12

  abbrev pub is_content_length : Bytes → Bool
  is_content_length key = strncasecmp key content_length_key 14

  -- `ngx_header_set` once the value is known to be a string, and to be a long.
  abbrev pub set_string : Bytes → Bytes → HeadersOut → Option (Zval × HeadersOut)
  set_string key s r =
      if is_content_type key
      then some (is_true, record r { content_type = s; content_type_len = length s })
      else if is_content_length key
      then none
      else if list_push_succeeds
      then some (is_true, push (record { key = key; value = s }) r)
      else some (is_false, r)

  abbrev pub set_long : Bytes → ℤ → HeadersOut → Option (Zval × HeadersOut)
  set_long key n r =
      if is_content_type key
      then none
      else if is_content_length key
      then some (is_true, record r { content_length_n = n })
      else if list_push_succeeds
      then none
      else some (is_false, r)

  unfoldable pub ngx_header_set : Bytes → Zval → HeadersOut → Option (Zval × HeadersOut)
  ngx_header_set key (is_string s) r = set_string key s r
  ngx_header_set key (is_long n) r = set_long key n r
  ngx_header_set key is_null r = some (type_error r)
  ngx_header_set key is_false r = some (type_error r)
  ngx_header_set key is_true r = some (type_error r)
  ngx_header_set key is_other r = some (type_error r)

  -- `ngx_http_php_output_header_set`: 0 for a list that does not grow, else 1.
  unfoldable pub output_header_set : Bytes → Bytes → HeadersOut → ℕ × HeadersOut
  output_header_set key value r =
      if is_content_type key
      then (1, record r { content_type = value; content_type_len = length value })
      else if is_content_length key
      then (1, record r { content_length_n = pos (length value) })
      else if list_push_succeeds
      then (1, push (record { key = key; value = value }) r)
      else (0, r)

  -- The loop over the headers.
  unfoldable pub first_header : Bytes → List Elt → Option Bytes
  first_header key [] = none
  first_header key (h ∷ hs) =
      let rest = first_header key hs in
      if strncasecmp key h.key (length h.key) then some h.value else rest

  -- `ngx_http_php_output_header_get`; `none` is NULL.
  unfoldable pub output_header_get : Bytes → HeadersOut → Option Bytes
  output_header_get key r =
      if is_content_type key then some r.content_type else first_header key r.headers

  unfoldable pub ngx_header_get : Bytes → HeadersOut → Zval
  ngx_header_get key r =
      if is_content_type key
      then is_string r.content_type
      else elim (first_header key r.headers) [ none ↦ is_null | some v ↦ is_string v ]

  unfoldable pub ngx_cookie_set : Bytes → HeadersOut → Zval × HeadersOut
  ngx_cookie_set value r =
      if list_push_succeeds
      then (is_true, push (record { key = set_cookie_key; value = value }) r)
      else (is_false, r)

  -- The statuses that `ngx_redirect` takes.
  abbrev pub is_redirect : ℤ → Bool
  is_redirect status =
      status ==ℤ pos 302
      || (status ==ℤ pos 301 || (status ==ℤ pos 303 || (status ==ℤ pos 307 || status ==ℤ pos 308)))

  -- `ZSTR_LEN(uri) && ngx_uri[0] != '/'`
  abbrev pub is_absolute : Bytes → Bool
  is_absolute [] = false
  is_absolute (b ∷ bs) = not (b == b'/')

  -- `ctx` says that the request has a context, `palloc_succeeds` that memory for the address is
  -- found.
  unfoldable pub ngx_redirect : Bool → Bool → Bytes → ℤ → HeadersOut → Zval × HeadersOut
  ngx_redirect ctx palloc_succeeds uri status r =
      if is_redirect status && (ctx && (palloc_succeeds && list_push_succeeds))
      then (let h : Elt = record { key = location_key; value = uri } in
          let r' = record (push h r) { status = status; exit_status = status } in
          (is_true, if is_absolute uri then record r' { location = some h } else r'))
      else (is_false, r)

unfoldable pub ngx_status : ℤ → HeadersOut → HeadersOut
ngx_status status r = record r { status = status; exit_status = status }

module _ (php : PhpArray) where
  open php use {Array, array_init, add_assoc}

  abbrev pub add_headers : List Elt → Array → Array
  add_headers [] array = array
  add_headers (h ∷ hs) array = add_headers hs (add_assoc h.key h.value array)

  unfoldable pub ngx_header_get_all : HeadersOut → Array
  ngx_header_get_all r = add_headers r.headers (
      if length r.content_type == 0
      then array_init
      else add_assoc content_type_key r.content_type array_init)
