-- ===== src/Cookie/Tests.antt =====
-- The theorems about cookies at a request with two headers and at a cookie with a `=` in it.
use ngx_php.Prelude.{◌≡◌, refl, inl, some, List, [], ◌∷◌, ◌++◌}
use ngx_php.Cookie.Samples.{same_bytes}
use ngx_php.Cookie.Get.{Bytes, Header, cookie, or_else, ngx_cookie_get, ngx_cookie_get_all}
use ngx_php.Cookie.Decode.{Cookie, render, first_match, well_formed, all_plain}
use ngx_php.Cookie.Found.{no_cookie, cookie_get-finds, cookie_value-cut}

abbrev host : Header
host = record { lowcase_key = b'h' ∷ b'o' ∷ b's' ∷ b't' ∷ []; value = b'a' ∷ [] }

-- `a=1; id=xy`
abbrev cookies : List Cookie
cookies =
    record { name = b'a' ∷ []; value = b'1' ∷ [] }
    ∷ record { name = b'i' ∷ b'd' ∷ []; value = b'x' ∷ b'y' ∷ [] }
    ∷ []

abbrev both : Header
both = record { lowcase_key = cookie; value = render cookies }

-- `ID`
abbrev id : Bytes
id = b'I' ∷ b'D' ∷ []

cookie_get-finds_example :
    (ngx_cookie_get same_bytes id ((host ∷ []) ++ both ∷ host ∷ [])
      ≡ or_else (first_match same_bytes id cookies) (ngx_cookie_get same_bytes id (host ∷ [])))
    × (ngx_cookie_get_all same_bytes ((host ∷ []) ++ both ∷ host ∷ []) ≡ some (render cookies))
unfolding same_bytes no_cookie well_formed all_plain
cookie_get-finds_example =
    cookie_get-finds same_bytes id (host ∷ []) (host ∷ []) both cookies refl refl refl refl

id_is_xy : first_match same_bytes id cookies ≡ some (b'x' ∷ b'y' ∷ [])
unfolding same_bytes first_match
id_is_xy = refl

-- `k=id=z`
abbrev token : Header
token = record { lowcase_key = cookie; value = b'k' ∷ b'=' ∷ b'i' ∷ b'd' ∷ b'=' ∷ b'z' ∷ [] }

cookie_value-cut_example :
    ngx_cookie_get same_bytes (b'k' ∷ []) ((host ∷ []) ++ token ∷ []) ≡ some (b'z' ∷ [])
unfolding same_bytes no_cookie well_formed all_plain
cookie_value-cut_example =
    cookie_value-cut same_bytes (b'k' ∷ []) (host ∷ []) [] token (b'k' ∷ []) (b'i' ∷ b'd' ∷ [])
      (b'z' ∷ []) refl refl refl refl refl refl refl (inl refl)
