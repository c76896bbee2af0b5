-- ===== src/RequestInfo/Fits.antt =====
-- The paths of src/php/impl/php_ngx_request.c, and the memory that they take.
use ngx_php.Prelude.{
  ℕ, suc, zero, ◌+◌, ◌<◌, ◌≤◌, ◌^◌, ◌≡◌, refl, ap, true, some, [], ◌∷◌, ◌++◌, append_assoc, arith,
  Bool-cases, inl, inr, length, length-append, take, drop, ◌==◌, if◌then◌else◌,
}
use ngx_php.Handler.State.{Bytes}
use ngx_php.Directive.Code.{c_string, strlen}
use ngx_php.Args.Decode.{no_nul}
use ngx_php.Headers.State.{is_null, is_string}
use ngx_php.RequestInfo.Paths.{
  last_byte, index_php, Made, index_uri, index_script, own_script, script_made, sub_size,
  ngx_request_document_uri, ngx_request_script_name, ngx_request_script_filename, ngx_request_uri,
  document_uri_method, script_name_method, script_filename_method, request_uri_method,
}

strlen-drop :
    (n : ℕ) (text : Bytes)
    → n ≤ length text
    → no_nul (take n text) ≡ true
    → strlen text ≡ n + strlen (drop n text)
unfolding c_string no_nul
strlen-drop zero text h nul = omega arith
strlen-drop (suc n) [] h nul = absurd (omega arith)
strlen-drop (suc n) (b ∷ bs) h nul = ground (arith, strlen-drop n bs)

strlen-le : (text : Bytes) → strlen text ≤ length text
unfolding c_string
strlen-le [] = omega arith
strlen-le (b ∷ bs) = ground (arith, strlen-le bs)

request_uri-take :
    (n : ℕ) (text : Bytes)
    → n ≤ length text
    → length text < 2 ^ 64
    → no_nul (take n text) ≡ true
    → ngx_request_uri text n ≡ is_string (take n text)
unfolding ngx_request_uri
request_uri-take n text h small nul =
    let exact : sub_size (strlen text) (strlen (drop n text)) ≡ n =
      omega (arith, strlen-drop n text h nul, strlen-le text, h, small) in
    ap (λ k. is_string (take k text)) exact

-- The text and its NUL fill the memory.
abbrev pub Fills : Made → Type 0
Fills made = length made.text + 1 ≡ made.room

index_uri-Fills : (uri : Bytes) → Fills (index_uri uri)
unfolding index_uri
index_uri-Fills uri = omega (arith, length-append uri index_php)

script_made-Fills :
    (root uri : Bytes) (b : ℕ)
    → last_byte uri ≡ some b
    → (made : Made) × (script_made root uri ≡ some made) × Fills made
unfolding script_made
script_made-Fills root uri b there = elim (Bool-cases (b == b'/')) [
  | inl slash ↦ (
    index_script root uri,
    ground (arith, there, slash),
    unfold index_script in
        (omega (arith, length-append (root ++ uri) index_php, length-append root uri)),
  )
  | inr other ↦ (
    own_script root uri,
    ground (arith, there, other),
    unfold own_script in (omega (arith, length-append root uri)),
  )
]

script_filename-document_uri :
    (root uri : Bytes) (b : ℕ)
    → last_byte uri ≡ some b
    → (doc : Bytes) × (ngx_request_document_uri uri ≡ some (is_string doc))
      × (ngx_request_script_filename root uri ≡ some (is_string (root ++ doc)))
      × (ngx_request_script_name uri ≡ some (if b == b'/' then is_null else is_string doc))
unfolding ngx_request_document_uri ngx_request_script_filename ngx_request_script_name
script_filename-document_uri root uri b there = elim (Bool-cases (b == b'/')) [
  | inl slash ↦ (
    uri ++ index_php,
    ground (arith, there, slash),
    ground (arith, there, slash, append_assoc root uri index_php),
    ground (arith, there, slash),
  )
  | inr other ↦ (
    uri,
    ground (arith, there, other),
    ground (arith, there, other),
    ground (arith, there, other),
  )
]

-- For an address that is not empty: `ngx_request_script_filename` is the document root with what
-- `ngx_request_document_uri` gives behind it, `ngx_request_script_name` is that too, or null for an
-- address that ends with a slash, and both texts that are made fill their memory exactly, with their
-- NUL. Of a memory of fewer than 2^64 bytes whose first `n` have no NUL, `ngx_request_uri` gives these
-- `n`. The methods give what the functions give.
pub paths-agree :
    (root uri memory : Bytes) (n b : ℕ)
    → last_byte uri ≡ some b
    → n ≤ length memory
    → length memory < 2 ^ 64
    → no_nul (take n memory) ≡ true
    → ((doc : Bytes) × (ngx_request_document_uri uri ≡ some (is_string doc))
        × (ngx_request_script_filename root uri ≡ some (is_string (root ++ doc)))
        × (ngx_request_script_name uri ≡ some (if b == b'/' then is_null else is_string doc)))
      × Fills (index_uri uri)
      × ((made : Made) × (script_made root uri ≡ some made) × Fills made)
      × (ngx_request_uri memory n ≡ is_string (take n memory))
      × (document_uri_method uri ≡ ngx_request_document_uri uri)
      × (script_name_method uri ≡ ngx_request_script_name uri)
      × (script_filename_method root uri ≡ ngx_request_script_filename root uri)
      × (request_uri_method memory n ≡ ngx_request_uri memory n)
unfolding document_uri_method script_name_method script_filename_method request_uri_method
    ngx_request_document_uri ngx_request_script_name ngx_request_script_filename ngx_request_uri
paths-agree root uri memory n b there h small nul = (
  script_filename-document_uri root uri b there,
  index_uri-Fills uri,
  script_made-Fills root uri b there,
  request_uri-take n memory h small nul,
  refl,
  refl,
  refl,
  refl,
)
