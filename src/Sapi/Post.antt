-- ===== src/Sapi/Post.antt =====
-- `ngx_http_php_code_read_post` of src/ngx_http_php_core.c, by which PHP reads a request's body, over C's
-- `atoi`. `none` is a wait without an end or a read behind the body.
use ngx_php.Prelude.{
  ℕ, suc, ◌+◌, ◌-◌, ◌%◌, ◌^◌, Option, none, some, List, [], ◌∷◌, ◌++◌, length, take, drop, ltb, leb,
  if◌then◌else◌,
}
use ngx_php.Prelude.Codes.{ℤ, pos, negsuc, geb_ℤ}
use ngx_php.Handler.State.{Bytes}

-- A number as a C `int` of 32 bits, and an `int` as an `unsigned int`.
abbrev pub as_int : ℕ → ℤ
as_int n = let m = n % 2 ^ 32 in if ltb m (2 ^ 31) then pos m else negsuc (2 ^ 32 - 1 - m)

abbrev pub as_uint : ℤ → ℕ
as_uint (pos n) = n % 2 ^ 32
as_uint (negsuc k) = 2 ^ 32 - suc (k % 2 ^ 32)

-- `MIN(a, b)`
abbrev pub smaller : ℕ → ℕ → ℕ
smaller a b = if leb a b then a else b

-- `count_bytes = MIN(count_bytes, (uint)content_length_n - SG(read_post_bytes))`, the difference being
-- signed.
abbrev pub read_count : ℕ → ℕ → ℕ → ℕ
read_count count_bytes len read =
    if leb read len
    then smaller count_bytes (len - read)
    else (2 ^ 32 - (read - len) % 2 ^ 32) % 2 ^ 32

-- `content_length` is the text of the header; `read` is `SG(read_post_bytes)`.
abbrev pub content_length_n : (Bytes → ℤ) → Option Bytes → ℤ
content_length_n atoi none = pos 0
content_length_n atoi (some text) = atoi text

unfoldable pub read_post : (Bytes → ℤ) → Option Bytes → Bytes → ℕ → ℕ → Option Bytes
read_post atoi content_length body count_bytes read =
    let n = content_length_n atoi content_length in
    let k = read_count count_bytes (as_uint n) read in
    if geb_ℤ (as_int (length body)) n
    then if leb (read + k) (length body) then some (take k (drop read body)) else none
    else none

-- PHP reads a body in blocks, and adds to `SG(read_post_bytes)` what each read gave.
abbrev pub read_blocks : (Bytes → ℤ) → Option Bytes → Bytes → List ℕ → ℕ → Option Bytes
read_blocks atoi len body [] read = some []
read_blocks atoi len body (k ∷ ks) read = elim (read_post atoi len body k read) [
  | none ↦ none
  | some block ↦ elim (read_blocks atoi len body ks (read + length block)) [
    | none ↦ none
    | some rest ↦ some (block ++ rest)
  ]
]
