-- ===== src/Args/Scan.antt =====
-- `ngx_query_args`, `ngx_post_args` and the methods `ngx::query_args` and `ngx::post_args` of
-- src/php/impl/php_ngx_core.c. `buf` is the text from there to `last`, and `p` the bytes from it to
-- `buf`. Memory is taken to be found, and a name to be small enough that `ngx_pfree` leaves it in the
-- pool.
use ngx_php.Prelude.{
  ℕ, Bool, true, false, Option, none, some, List, [], ◌∷◌, ◌++◌, length, ◌==◌, if◌then◌else◌,
}
use ngx_php.Handler.State.{Bytes, RequestBody}
use ngx_php.Handler.Body.{total_length, copy_all}

-- PHP's arrays: `array_init`, `add_assoc_stringl` for a name and a value, and a read.
pub record PhpArray : Type 1 where
  pub Array : Type 0
  pub array_init : Array
  pub add_assoc : Bytes → Bytes → Array → Array
  pub find : Bytes → Array → Option Bytes

pub data Sign : Type 0 where
  equals ampersand plain : Sign

-- What `*buf` is.
abbrev pub sign_of : ℕ → Sign
sign_of b = if b == b'=' then equals else if b == b'&' then ampersand else plain

module _ (php : PhpArray) where
  open php use {Array, array_init, add_assoc}

  -- `add_assoc_stringl(return_value, query_key, …)`: a key that is NULL is read through.
  abbrev pub add_value : Option Bytes → Bytes → Array → Option Array
  add_value none p array = none
  add_value (some key) p array = some (add_assoc key p array)

  -- `if (parsing_value)`
  abbrev pub at_last : Bool → Option Bytes → Bytes → Array → Option Array
  at_last parsing_value query_key p array =
      if parsing_value then add_value query_key p array else some array

  unfoldable mutual
    -- `while (buf != last)`
    pub scan : Bool → Option Bytes → Bytes → Array → Bytes → Option Array
    scan parsing_value query_key p array [] = at_last parsing_value query_key p array
    scan parsing_value query_key p array (b ∷ rest) = elim (sign_of b) [
      | equals ↦ behind_mark true (some p) array rest
      | ampersand ↦ elim (add_value query_key p array) [
        | none ↦ none
        | some array' ↦ behind_mark false query_key array' rest
      ]
      | plain ↦ scan parsing_value query_key (p ++ b ∷ []) array rest
    ]

    -- Behind a mark, where `p` starts: the end of that turn steps over one byte but `&`.
    pub behind_mark : Bool → Option Bytes → Array → Bytes → Option Array
    behind_mark parsing_value query_key array [] = at_last parsing_value query_key [] array
    behind_mark parsing_value query_key array (b ∷ rest) = elim (b == b'&') [
      | true ↦ elim (add_value query_key [] array) [
        | none ↦ none
        | some array' ↦ behind_mark false query_key array' rest
      ]
      | false ↦ scan parsing_value query_key (b ∷ []) array rest
    ]

  -- `none` is a read through NULL.
  unfoldable pub ngx_query_args : Bytes → Option Array
  ngx_query_args args =
      if length args == 0 then some array_init else scan false none [] array_init args

  -- The body's chain of buffers as one text.
  unfoldable pub scan_bufs : Bytes → List Bytes → Option Array
  scan_bufs first rest =
      if total_length 0 (first ∷ rest) == 0
      then some array_init
      else scan false none [] array_init (copy_all [] (first ∷ rest))

  unfoldable pub body_args : RequestBody → Option Array
  body_args body =
      if body.temp_file
      then some array_init
      else elim body.bufs [ none ↦ some array_init | some (first, rest) ↦ scan_bufs first rest ]

  unfoldable pub ngx_post_args : Bool → Option RequestBody → Option Array
  ngx_post_args discard_body request_body =
      if discard_body
      then some array_init
      else elim request_body [ none ↦ some array_init | some body ↦ body_args body ]

  -- The methods of the class `ngx` have the text of the functions.
  unfoldable pub query_args_method : Bytes → Option Array
  query_args_method args =
      if length args == 0 then some array_init else scan false none [] array_init args

  unfoldable pub post_args_method : Bool → Option RequestBody → Option Array
  post_args_method discard_body request_body =
      if discard_body
      then some array_init
      else elim request_body [ none ↦ some array_init | some body ↦ body_args body ]
