-- ===== src/Cookie/Get.antt =====
-- `ngx_cookie_get` and `ngx_cookie_get_all` of src/php/impl/php_ngx_cookie.c, over
-- `ngx_strncasecmp`. `start` is the text from there to `last`, and `p` the bytes from it to `start`;
-- nginx ends the value of a header with a NUL, so the read at `last` finds no mark. Memory for the
-- name is taken to be found.
use ngx_php.Prelude.{
  ℕ, Bool, true, false, ◌||◌, Option, none, some, List, [], ◌∷◌, ◌++◌, length, ◌==◌, if◌then◌else◌,
}

abbrev pub Bytes : Type 0
Bytes = List ℕ

-- `ngx_table_elt_t`; `key.len` is the length of `lowcase_key`.
pub record Header : Type 0 where
  pub lowcase_key : Bytes
  pub value : Bytes

-- `ngx_strncasecmp(a, b, n) == 0`
abbrev pub Strncasecmp : Type 0
Strncasecmp = Bytes → Bytes → ℕ → Bool

-- What `*start` is.
pub data Sign : Type 0 where
  equals semicolon plain : Sign

abbrev pub sign_of : ℕ → Sign
sign_of b = if b == b'=' then equals else if b == b';' then semicolon else plain

-- `return_value` behind a header: what was found in it, else what was there.
abbrev pub or_else : Option Bytes → Option Bytes → Option Bytes
or_else none returned = returned
or_else (some v) returned = some v

-- `"cookie"`
abbrev pub cookie : Bytes
cookie = b'c' ∷ b'o' ∷ b'o' ∷ b'k' ∷ b'i' ∷ b'e' ∷ []

module _ (strncasecmp : Strncasecmp) where
  abbrev pub is_cookie : Header → Bool
  is_cookie h = strncasecmp h.lowcase_key cookie (length h.lowcase_key)

  -- `ngx_cookie_get_all`, from a header on, with the return value so far.
  unfoldable pub get_all : List Header → Option Bytes → Option Bytes
  get_all [] returned = returned
  get_all (h ∷ hs) returned = get_all hs (if is_cookie h then some h.value else returned)

  unfoldable pub ngx_cookie_get_all : List Header → Option Bytes
  ngx_cookie_get_all hs = get_all hs none

  module _ (key : Bytes) where
    -- `query_key` has `p` and a NUL.
    abbrev pub same_key : Bytes → Bool
    same_key p = strncasecmp key p (length key)

    -- What is returned for the text of one header.
    abbrev pub found_value : Bool → Bytes → Option Bytes
    found_value found p = if found then some p else none

    unfoldable mutual
      -- `while (start != last)`
      pub cookie_loop : Bool → Bytes → Bytes → Option Bytes
      cookie_loop found p [] = found_value found p
      cookie_loop found p (b ∷ rest) = elim (sign_of b) [
        | equals ↦ value_start (found || same_key p) rest
        | semicolon ↦ elim found [ true ↦ some p | false ↦ name_start rest ]
        | plain ↦ cookie_loop found (p ++ b ∷ []) rest
      ]

      -- Behind `=`.
      pub value_start : Bool → Bytes → Option Bytes
      value_start found [] = found_value found []
      value_start found (b ∷ rest) = elim (b == b';') [
        | true ↦ elim found [ true ↦ some [] | false ↦ name_start rest ]
        | false ↦ cookie_loop found (b ∷ []) rest
      ]

      -- Behind `;`, if nothing was found.
      pub name_start : Bytes → Option Bytes
      name_start [] = none
      name_start (b ∷ rest) = elim (b == b' ') [
        | true ↦ first_byte rest
        | false ↦ cookie_loop false (b ∷ []) rest
      ]

      -- The `start++` at the end of that turn.
      pub first_byte : Bytes → Option Bytes
      first_byte [] = none
      first_byte (b ∷ rest) = cookie_loop false (b ∷ []) rest

    -- The loop over the headers.
    unfoldable pub get : List Header → Option Bytes → Option Bytes
    get [] returned = returned
    get (h ∷ hs) returned =
        get hs (if is_cookie h then or_else (cookie_loop false [] h.value) returned else returned)

    unfoldable pub ngx_cookie_get : List Header → Option Bytes
    ngx_cookie_get hs = get hs none
