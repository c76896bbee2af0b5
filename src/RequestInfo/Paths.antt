-- ===== src/RequestInfo/Paths.antt =====
-- The functions of src/php/impl/php_ngx_request.c that make texts of the address of a request. nginx
-- refuses an address with a NUL, so a C string that is copied is whole. `none` is a read in front of
-- the address.
use ngx_php.Prelude.{
  ℕ, ◌+◌, ◌-◌, ◌%◌, ◌^◌, Option, none, some, [], ◌∷◌, ◌++◌, length, take, drop, ◌==◌, if◌then◌else◌,
}
use ngx_php.Prelude.Text.{codes}
use ngx_php.Handler.State.{Bytes}
use ngx_php.Directive.Code.{strlen}
use ngx_php.Headers.State.{Zval, is_null, is_string}

-- `(r->uri.data)[r->uri.len-1]`
abbrev pub last_byte : Bytes → Option ℕ
last_byte [] = none
last_byte (b ∷ []) = some b
last_byte (b ∷ c ∷ cs) = last_byte (c ∷ cs)

abbrev pub index_php : Bytes
index_php = codes "index.php"

-- A text that is made in `room` bytes, a NUL behind it.
pub record Made : Type 0 where
  pub text : Bytes
  pub room : ℕ

-- The two branches of `ngx_request_document_uri`, the first with its memory.
unfoldable pub index_uri : Bytes → Made
index_uri uri = record { text = uri ++ index_php; room = length uri + 9 + 1 }

unfoldable pub ngx_request_document_uri : Bytes → Option Zval
unfolding index_uri
ngx_request_document_uri uri = elim (last_byte uri) [
  | none ↦ none
  | some b ↦ some (is_string (if b == b'/' then (index_uri uri).text else uri))
]

unfoldable pub ngx_request_script_name : Bytes → Option Zval
ngx_request_script_name uri = elim (last_byte uri) [
  | none ↦ none
  | some b ↦ some (if b == b'/' then is_null else is_string uri)
]

-- The two branches of `ngx_request_script_filename`.
unfoldable pub index_script : Bytes → Bytes → Made
index_script document_root uri = record {
  text = (document_root ++ uri) ++ index_php;
  room = length document_root + length uri + 9 + 1;
}

unfoldable pub own_script : Bytes → Bytes → Made
own_script document_root uri = record {
  text = document_root ++ uri;
  room = length document_root + length uri + 1;
}

unfoldable pub script_made : Bytes → Bytes → Option Made
unfolding index_script own_script
script_made document_root uri = elim (last_byte uri) [
  | none ↦ none
  | some b ↦
      some (if b == b'/' then index_script document_root uri else own_script document_root uri)
]

unfoldable pub ngx_request_script_filename : Bytes → Bytes → Option Zval
unfolding script_made
ngx_request_script_filename document_root uri = elim (script_made document_root uri) [
  | none ↦ none
  | some made ↦ some (is_string made.text)
]

unfoldable pub ngx_request_query_string : Bytes → Zval
ngx_request_query_string args = if length args == 0 then is_string [] else is_string args

-- `strlen(uri_start) - strlen(uri_end)`, a `size_t`.
abbrev pub sub_size : ℕ → ℕ → ℕ
sub_size a b = (a + 2 ^ 64 - b) % 2 ^ 64

-- `uri_start` is the memory from there on, and `uri_end` stands `n` bytes behind it.
unfoldable pub ngx_request_uri : Bytes → ℕ → Zval
ngx_request_uri uri_start n =
    is_string (take (sub_size (strlen uri_start) (strlen (drop n uri_start))) uri_start)

-- The methods of the class `ngx_request` have the text of the functions.
unfoldable pub document_uri_method : Bytes → Option Zval
unfolding index_uri
document_uri_method uri = elim (last_byte uri) [
  | none ↦ none
  | some b ↦ some (is_string (if b == b'/' then (index_uri uri).text else uri))
]

unfoldable pub script_name_method : Bytes → Option Zval
script_name_method uri = elim (last_byte uri) [
  | none ↦ none
  | some b ↦ some (if b == b'/' then is_null else is_string uri)
]

unfoldable pub script_filename_method : Bytes → Bytes → Option Zval
unfolding script_made
script_filename_method document_root uri = elim (script_made document_root uri) [
  | none ↦ none
  | some made ↦ some (is_string made.text)
]

unfoldable pub query_string_method : Bytes → Zval
query_string_method args = if length args == 0 then is_string [] else is_string args

unfoldable pub request_uri_method : Bytes → ℕ → Zval
request_uri_method uri_start n =
    is_string (take (sub_size (strlen uri_start) (strlen (drop n uri_start))) uri_start)
