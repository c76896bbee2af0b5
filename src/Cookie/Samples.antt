-- ===== src/Cookie/Samples.antt =====
-- A comparison of texts as `ngx_strncasecmp` makes it.
use ngx_php.Prelude.{
  ℕ, zero, suc, ◌+◌, ◌≡◌, refl, Bool, true, false, ◌&&◌, [], ◌∷◌, arith, leb, ◌==◌, if◌then◌else◌,
  length,
}
use ngx_php.Cookie.Get.{Bytes}

abbrev lower : ℕ → ℕ
lower b = if leb b'A' b && leb b b'Z' then b + 32 else b

-- The first `n` bytes, a text being followed by a NUL.
unfoldable pub same_bytes : Bytes → Bytes → ℕ → Bool
same_bytes a b zero = true
same_bytes [] [] (suc n) = true
same_bytes [] (y ∷ ys) (suc n) = false
same_bytes (x ∷ xs) [] (suc n) = false
same_bytes (x ∷ xs) (y ∷ ys) (suc n) = if lower x == lower y then same_bytes xs ys n else false

pub same_bytes_refl : (a : Bytes) → same_bytes a a (length a) ≡ true
unfolding same_bytes
same_bytes_refl [] = refl
same_bytes_refl (x ∷ xs) = ground (arith, same_bytes_refl xs)
