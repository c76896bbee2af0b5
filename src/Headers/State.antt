-- ===== src/Headers/State.antt =====
-- `r->headers_out` of nginx, and PHP's values, as the functions on headers see them.
use ngx_php.Prelude.{ℕ, Option, List, [], ◌∷◌}
use ngx_php.Prelude.Codes.{ℤ}
use ngx_php.Handler.State.{Bytes}

-- `ngx_table_elt_t` with a `hash` of 1.
pub record Elt : Type 0 where
  pub key : Bytes
  pub value : Bytes

-- `location` is the header that it points to. `exit_status` is PHP's `EG(exit_status)`; `thrown`
-- has the messages of `EG(exception)` and of the exceptions before it, the latest first.
pub record HeadersOut : Type 0 where
  pub status : ℤ
  pub content_type : Bytes
  pub content_type_len : ℕ
  pub content_length_n : ℤ
  pub headers : List Elt
  pub location : Option Elt
  pub exit_status : ℤ
  pub thrown : List Bytes

-- A value of PHP.
pub data Zval : Type 0 where
  is_null is_false is_true : Zval
  is_long : ℤ → Zval
  is_string : Bytes → Zval
  is_other : Zval

-- `content-type`
abbrev pub content_type_key : Bytes
content_type_key =
    b'c' ∷ b'o' ∷ b'n' ∷ b't' ∷ b'e' ∷ b'n' ∷ b't' ∷ b'-' ∷ b't' ∷ b'y' ∷ b'p' ∷ b'e' ∷ []

-- `content-length`
abbrev pub content_length_key : Bytes
content_length_key =
    b'c' ∷ b'o' ∷ b'n' ∷ b't' ∷ b'e' ∷ b'n' ∷ b't' ∷ b'-' ∷ b'l' ∷ b'e' ∷ b'n' ∷ b'g' ∷ b't' ∷ b'h'
    ∷ []

-- `Set-Cookie`
abbrev pub set_cookie_key : Bytes
set_cookie_key = b'S' ∷ b'e' ∷ b't' ∷ b'-' ∷ b'C' ∷ b'o' ∷ b'o' ∷ b'k' ∷ b'i' ∷ b'e' ∷ []

-- `Location`
abbrev pub location_key : Bytes
location_key = b'L' ∷ b'o' ∷ b'c' ∷ b'a' ∷ b't' ∷ b'i' ∷ b'o' ∷ b'n' ∷ []
