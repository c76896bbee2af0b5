-- ===== src/Headers/Tests.antt =====
-- The theorems about headers at an answer with one header.
use ngx_php.Prelude.{◌≡◌, refl, true, none, some, [], ◌∷◌}
use ngx_php.Prelude.Codes.{pos, negsuc}
use ngx_php.Prelude.Text.{codes}
use ngx_php.Cookie.Samples.{same_bytes, same_bytes_refl}
use ngx_php.Headers.State.{HeadersOut, is_null, is_true, is_string}
use ngx_php.Headers.Functions.{ngx_header_set, first_header, ngx_header_get}
use ngx_php.Headers.Found.{Compares, first_of, header_set-get}

abbrev answer : HeadersOut
answer = record {
  status = pos 0;
  content_type = codes "text/html";
  content_type_len = 9;
  content_length_n = negsuc 0;
  headers = record { key = codes "X-A"; value = codes "1" } ∷ [];
  location = none;
  exit_status = pos 0;
  thrown = [];
}

same_bytes-Compares : Compares same_bytes
same_bytes-Compares = record { same = same_bytes_refl }

-- A Boolean is refused by a TypeError.
run_refusal :
    ngx_header_set same_bytes true (codes "X-A") is_true answer
    ≡ some
        (is_null, record answer { thrown = codes "header value type must be long or string." ∷ [] })
unfolding ngx_header_set
run_refusal = refl

header_set-get_example :
    (r' : HeadersOut) × (r'' : HeadersOut) × (ngx_header_set same_bytes true
        (codes "X-B")
        (is_string (codes "2"))
        answer
      ≡ some (is_true, r'))
    × (ngx_header_set same_bytes true (codes "X-B") (is_string (codes "3")) r'
        ≡ some (is_true, r''))
    × (ngx_header_get same_bytes true (codes "X-B") r'
        ≡ first_of (first_header same_bytes true (codes "X-B") answer.headers) (codes "2"))
    × (ngx_header_get same_bytes true (codes "X-B") r''
        ≡ ngx_header_get same_bytes true (codes "X-B") r')
unfolding same_bytes
header_set-get_example =
    header_set-get same_bytes same_bytes-Compares (codes "X-B") (codes "2") (codes "3") answer refl
      refl
