-- ===== src/Prelude/Codes.antt =====
-- `ngx_int_t`: nginx's return codes, and the HTTP statuses that handlers return in their place.
-- The named values are those of nginx's ngx_core.h and ngx_http_request.h.
use Prim.Native.Nat.{ℕ}
use mathlib.Core.Path.{◌≡◌}
use mathlib.Core.Bool.{Bool, true, false}
use mathlib.Core.Logic.{◌↔◌}
use native.Mathlib.Omega.{arith}
use ngx_php.Prelude.Tests.{leb, ◌==◌}

-- `negsuc n` is -(n + 1).
pub data ℤ : Type 0 where
  pos : ℕ → ℤ
  negsuc : ℕ → ℤ

infix 50 ◌==ℤ◌
abbrev pub ◌==ℤ◌ : ℤ → ℤ → Bool
pos a ==ℤ pos b = a == b
pos a ==ℤ negsuc b = false
negsuc a ==ℤ pos b = false
negsuc a ==ℤ negsuc b = a == b

-- `a >= b`
abbrev pub geb_ℤ : ℤ → ℤ → Bool
geb_ℤ (pos a) (pos b) = leb b a
geb_ℤ (pos a) (negsuc b) = true
geb_ℤ (negsuc a) (pos b) = false
geb_ℤ (negsuc a) (negsuc b) = leb a b

pub ==ℤ_iff : (a b : ℤ) → ((a ==ℤ b) ≡ true) ↔ (a ≡ b)
==ℤ_iff a b = ground arith

abbrev pub ngx_ok : ℤ
ngx_ok = pos 0

abbrev pub ngx_error : ℤ
ngx_error = negsuc 0

abbrev pub ngx_again : ℤ
ngx_again = negsuc 1

abbrev pub ngx_busy : ℤ
ngx_busy = negsuc 2

abbrev pub ngx_done : ℤ
ngx_done = negsuc 3

abbrev pub ngx_declined : ℤ
ngx_declined = negsuc 4

abbrev pub ngx_http_ok : ℤ
ngx_http_ok = pos 200

abbrev pub ngx_http_special_response : ℤ
ngx_http_special_response = pos 300
