-- ===== src/RequestInfo/Headers.antt =====
-- `ngx_request_headers` of src/php/impl/php_ngx_request.c and the method `ngx_request::headers`, over
-- `ngx_strncasecmp` and PHP's arrays.
use ngx_php.Prelude.{List, [], ◌∷◌, length, if◌then◌else◌}
use ngx_php.Prelude.Text.{codes}
use ngx_php.Handler.State.{Bytes}
use ngx_php.Cookie.Get.{Strncasecmp, Header}
use ngx_php.Args.Scan.{PhpArray}

-- One test of the loop: the header's name, and the key in the array.
pub record Row : Type 0 where
  pub name : Bytes
  pub key : Bytes

-- The tests of the method, in their order.
abbrev pub method_rows : List Row
method_rows =
    record { name = codes "content-type"; key = codes "content_type" }
    ∷ record { name = codes "content-length"; key = codes "content_length" }
    ∷ record { name = codes "accept"; key = codes "accept" }
    ∷ record { name = codes "host"; key = codes "host" }
    ∷ record { name = codes "connection"; key = codes "connection" }
    ∷ record { name = codes "user-agent"; key = codes "user_agent" }
    ∷ record { name = codes "accept-encoding"; key = codes "accept_encoding" }
    ∷ record { name = codes "accept-language"; key = codes "accept_language" }
    ∷ record { name = codes "referer"; key = codes "referer" }
    ∷ record { name = codes "pragma"; key = codes "pragma" }
    ∷ record { name = codes "cache-control"; key = codes "cache_control" }
    ∷ record { name = codes "upgrade-insecure-requests"; key = codes "upgrade_insecure_requests" }
    ∷ record { name = codes "cookie"; key = codes "cookie" }
    ∷ []

-- The tests of the function, in their order.
abbrev pub rows : List Row
rows =
    record { name = codes "content-type"; key = codes "content_type" }
    ∷ record { name = codes "content-length"; key = codes "content_length" }
    ∷ record { name = codes "accept"; key = codes "accept" }
    ∷ record { name = codes "host"; key = codes "host" }
    ∷ record { name = codes "connection"; key = codes "connection" }
    ∷ record { name = codes "user-agent"; key = codes "user_agent" }
    ∷ record { name = codes "accept-encoding"; key = codes "accept_encoding" }
    ∷ record { name = codes "accept-language"; key = codes "accept_language" }
    ∷ record { name = codes "referer"; key = codes "referer" }
    ∷ record { name = codes "pragma"; key = codes "pragma" }
    ∷ record { name = codes "cache-control"; key = codes "cache_control" }
    ∷ record { name = codes "upgrade-insecure-requests"; key = codes "upgrade_insecure_requests" }
    ∷ record { name = codes "cookie"; key = codes "cookie" }
    ∷ record { name = codes "authorization"; key = codes "authorization" }
    ∷ record { name = codes "x-csrf-token"; key = codes "x_csrf_token" }
    ∷ record { name = codes "x-xsrf-token"; key = codes "x_xsrf_token" }
    ∷ record { name = codes "x-http-method-override"; key = codes "x_http_method_override" }
    ∷ []

module _ (php : PhpArray) (strncasecmp : Strncasecmp) where
  open php use {Array, array_init, add_assoc}

  -- One turn of the loop.
  unfoldable pub add_rows : List Row → Header → Array → Array
  add_rows [] h array = array
  add_rows (row ∷ rest) h array = add_rows rest h (
      if strncasecmp h.lowcase_key row.name (length h.lowcase_key)
      then add_assoc row.key h.value array
      else array)

  unfoldable pub add_headers : List Row → List Header → Array → Array
  add_headers table [] array = array
  add_headers table (h ∷ hs) array = add_headers table hs (add_rows table h array)

  unfoldable pub ngx_request_headers : List Header → Array
  ngx_request_headers hs = add_headers rows hs array_init

  unfoldable pub headers_method : List Header → Array
  headers_method hs = add_headers method_rows hs array_init
