-- ===== src/RequestInfo/Tests.antt =====
-- The theorems about what PHP reads of a request at one address and two headers.
use ngx_php.Prelude.{
  ◌≡◌, refl, none, some, List, [], ◌∷◌, ◌++◌, ◌==◌, if◌then◌else◌, arith, take, equal,
}
use ngx_php.Prelude.Text.{codes}
use ngx_php.Handler.State.{Bytes}
use ngx_php.Cookie.Get.{Header}
use ngx_php.Cookie.Samples.{same_bytes}
use ngx_php.Args.Decode.{no_nul}
use ngx_php.Args.Samples.{find_in, entries, entries-ArrayLaws}
use ngx_php.Headers.State.{is_null, is_string}
use ngx_php.RequestInfo.Paths.{
  Made, index_uri, script_made, ngx_request_document_uri, ngx_request_script_name,
  ngx_request_script_filename, ngx_request_uri, document_uri_method, script_name_method,
  script_filename_method, request_uri_method,
}
use ngx_php.RequestInfo.Headers.{ngx_request_headers, headers_method}
use ngx_php.RequestInfo.Fits.{Fills, paths-agree}
use ngx_php.RequestInfo.Found.{name_of, last_named, headers-finds}

abbrev root : Bytes
root = codes "/srv"

abbrev uri : Bytes
uri = codes "/a/"

-- `/a/?b HTTP`, with a NUL behind it.
abbrev memory : Bytes
memory = codes "/a/?b HTTP" ++ 0 ∷ []

paths-agree_example :
    ((doc : Bytes) × (ngx_request_document_uri uri ≡ some (is_string doc))
      × (ngx_request_script_filename root uri ≡ some (is_string (root ++ doc)))
      × (ngx_request_script_name uri ≡ some (if b'/' == b'/' then is_null else is_string doc)))
    × Fills (index_uri uri)
    × ((made : Made) × (script_made root uri ≡ some made) × Fills made)
    × (ngx_request_uri memory 5 ≡ is_string (take 5 memory))
    × (document_uri_method uri ≡ ngx_request_document_uri uri)
    × (script_name_method uri ≡ ngx_request_script_name uri)
    × (script_filename_method root uri ≡ ngx_request_script_filename root uri)
    × (request_uri_method memory 5 ≡ ngx_request_uri memory 5)
unfolding no_nul
paths-agree_example = paths-agree root uri memory 5 b'/' refl (omega arith) (omega arith) refl

-- `Host: h` and `Accept: a`
abbrev headers : List Header
headers =
    record { lowcase_key = codes "host"; value = codes "h" }
    ∷ record { lowcase_key = codes "accept"; value = codes "a" }
    ∷ []

headers-finds_example :
    (find_in (codes "accept_encoding") (ngx_request_headers entries same_bytes headers)
      ≡ last_named same_bytes (codes "accept-encoding") headers none)
    × (find_in (codes "host") (headers_method entries same_bytes headers)
        ≡ last_named same_bytes (codes "host") headers none)
    × (find_in (codes "x") (ngx_request_headers entries same_bytes headers) ≡ none)
unfolding no_nul name_of equal
headers-finds_example =
    headers-finds same_bytes entries entries-ArrayLaws headers (codes "accept_encoding")
      (codes "accept-encoding") (codes "host") (codes "host") (codes "x") refl refl refl refl refl
      refl

-- A request with `Accept: a` has an `accept_encoding`.
accept_is_encoding : last_named same_bytes (codes "accept-encoding") headers none ≡ some (codes "a")
unfolding same_bytes
accept_is_encoding = refl
