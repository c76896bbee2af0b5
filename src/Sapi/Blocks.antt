-- ===== src/Sapi/Blocks.antt =====
-- The blocks that `ngx_http_php_code_read_post` of src/ngx_http_php_core.c gives of a body.
use ngx_php.Prelude.{
  ℕ, zero, suc, ◌+◌, ◌-◌, ◌^◌, ◌<◌, ◌≤◌, ◌≡◌, refl, ap, subst, none, some, List, [], ◌∷◌, ◌++◌,
  arith, length, take, drop, length-take, length-drop, drop-drop,
}
use native.Mathlib.Nat.{zero-add, suc-add}
use ngx_php.Prelude.Codes.{ℤ, pos}
use ngx_php.Handler.State.{Bytes}
use ngx_php.Sapi.Post.{as_int, as_uint, smaller, read_post, read_blocks}

abbrev pub sum : List ℕ → ℕ
sum [] = 0
sum (k ∷ ks) = k + sum ks

take-nil : (n : ℕ) → take {A = ℕ} n [] ≡ []
take-nil zero = refl
take-nil (suc n) = refl

take-add : (a b : ℕ) (xs : Bytes) → take (a + b) xs ≡ take a xs ++ take b (drop a xs)
take-add zero b xs = rw zero-add refl
take-add (suc a) b [] = rw (suc-add, take-nil b) refl
take-add (suc a) b (x ∷ xs) = rw suc-add (ap (◌∷◌ x) (take-add a b xs))

as_int-small : (n : ℕ) → n < 2 ^ 31 → as_int n ≡ pos n
as_int-small n h = ground arith

as_uint-small : (n : ℕ) → n < 2 ^ 31 → as_uint (pos n) ≡ n
as_uint-small n h = omega arith

module _ (atoi : Bytes → ℤ) (text body : Bytes) (n : ℕ) (given : atoi text ≡ pos n)
    (small : length body < 2 ^ 31) where
  read_post-block :
      (k read : ℕ)
      → n ≤ length body
      → read ≤ n
      → read_post atoi (some text) body k read ≡ some (take (smaller k (n - read)) (drop read body))
  unfolding read_post
  read_post-block k read there before =
      rw (given, as_int-small (length body) small, as_uint-small n (omega arith))
        (let fits : read + smaller k (n - read) ≤ length body = ground arith in
          ground (arith, fits, there, before))

  length-block :
      (k read : ℕ)
      → n ≤ length body
      → read ≤ n
      → length (take (smaller k (n - read)) (drop read body)) ≡ smaller k (n - read)
  length-block k read there before = rw (length-take, length-drop) ground arith

  blocks-rest :
      (ks : List ℕ) (read : ℕ)
      → n ≤ length body
      → read ≤ n
      → read_blocks atoi (some text) body ks read
        ≡ some (take (smaller (sum ks) (n - read)) (drop read body))
  blocks-rest [] read there before =
      let none_left : smaller 0 (n - read) ≡ 0 = ground arith in rw none_left refl
  blocks-rest (k ∷ ks) read there before =
      let j = smaller k (n - read) in
      let fits : read + j ≤ n = ground arith in
      let whole : smaller (k + sum ks) (n - read) ≡ j + smaller (sum ks) (n - (read + j)) =
        ground arith in
      let later = blocks-rest ks (read + j) there fits in
      rw
        (
          read_blocks,
          read_post-block k read there before,
          length-block k read there before,
          later,
          whole,
          take-add j (smaller (sum ks) (n - (read + j))) (drop read body),
          drop-drop read j body,
        )
        refl

-- Where the length that the request's header gives is `n`, a body of less than 2^31 bytes that has all
-- of them: PHP's reads, in blocks of whatever sizes, give its first bytes in order, as many as the
-- sizes sum up to, and never a byte behind the `n`; so sizes that reach `n` give it whole. While the
-- body has fewer bytes than the header says, a read does not end.
pub read_blocks-body :
    (atoi : Bytes → ℤ) (text body short : Bytes) (n k read : ℕ) (ks : List ℕ)
    → atoi text ≡ pos n
    → length body < 2 ^ 31
    → n ≤ length body
    → length short < n
    → (read_blocks atoi (some text) body ks 0 ≡ some (take (smaller (sum ks) n) body))
      × (read_post atoi (some text) short k read ≡ none)
unfolding read_post
read_blocks-body atoi text body short n k read ks given small there missing =
    let all = blocks-rest atoi text body n given small ks 0 there (omega arith) in
    let none_read : n - 0 ≡ n = omega arith in
    let held : as_int (length short) ≡ pos (length short) =
      as_int-small (length short) (omega arith) in
    (
      subst (λ m. read_blocks atoi (some text) body ks 0 ≡ some (take (smaller (sum ks) m) body))
          none_read all,
      rw (given, held) (ground (arith, missing)),
    )
