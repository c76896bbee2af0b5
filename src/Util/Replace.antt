-- ===== src/Util/Replace.antt =====
-- `occurrences` and `str_replace` of src/ngx_http_php_util.c, over C's `strstr`. A pointer into the
-- text is the text from there on.
use ngx_php.Prelude.{
  ℕ, zero, suc, ◌+◌, ◌-◌, ◌*◌, ◌%◌, ◌^◌, ◌≡◌, Bool, false, ◌&&◌, Option, none, some, List, [], ◌∷◌,
  ◌++◌, length, ltb, ◌==◌, if◌then◌else◌,
}
use ngx_php.Prelude.Codes.{ℤ, pos, negsuc}

abbrev pub Bytes : Type 0
Bytes = List ℕ

-- `strstr(haystack, needle)`: the text before the first occurrence, and the text behind it.
abbrev pub Strstr : Type 0
Strstr = Bytes → Bytes → Option (Bytes × Bytes)

-- `cut_off`: `snprintf` finds less room than its text needs. `wild`: a number that an int cannot
-- hold is the length of a text, or a size below zero is the limit of `snprintf`.
pub data Replacement : Type 0 where
  null_pointer cut_off wild out_of_fuel : Replacement
  string : Bytes → Replacement

-- A `size_t`, and `(int)` of one.
abbrev pub as_size_t : ℕ → ℕ
as_size_t n = n % 2 ^ 64

abbrev pub int_of : ℕ → ℤ
int_of n = let m = n % 2 ^ 32 in if ltb m (2 ^ 31) then pos m else negsuc (2 ^ 32 - 1 - m)

-- An int as an argument or operand of type `size_t`.
abbrev pub size_of : ℤ → ℕ
size_of (pos n) = as_size_t n
size_of (negsuc n) = 2 ^ 64 - suc n

-- `count <= 0`
abbrev pub is_positive : ℤ → Bool
is_positive (pos n) = ltb 0 n
is_positive (negsuc n) = false

abbrev pub fits_int : ℕ → Bool
fits_int n = ltb n (2 ^ 31)

module _ (strstr : Strstr) where
  -- `while ((pos = strstr(pos, needle)))`; `i` is a `size_t`, which counts no more than the bytes
  -- of the text.
  unfoldable pub count : ℕ → Bytes → Bytes → ℕ
  count zero needle here = 0
  count (suc fuel) needle here = elim (strstr here needle) [
    | none ↦ 0
    | some (front, back) ↦ suc (count fuel needle back)
  ]

  unfoldable pub occurrences : Bytes → Bytes → ℕ
  unfolding count
  occurrences needle haystack =
      if length needle == 0 then 0 else count (suc (length haystack)) needle haystack

  -- `if (*pos != '\0')` and the last `snprintf`.
  abbrev pub rest_of : ℕ → Bytes → Bytes → Replacement
  rest_of size out [] = string out
  rest_of size out (b ∷ bs) =
      if ltb (length out + length (b ∷ bs)) size then string (out ++ b ∷ bs) else cut_off

  -- The loop; `out` is what has been written, so `offset` is its length. `size` is positive, so
  -- that `size - offset` is what is left of the room.
  unfoldable pub replace_loop : ℕ → ℕ → Bytes → Bytes → Bytes → Bytes → Replacement
  replace_loop zero size sub replace out here = out_of_fuel
  replace_loop (suc fuel) size sub replace out here = elim (strstr here sub) [
    | none ↦ rest_of size out here
    | some (front, back) ↦
        let next = replace_loop fuel size sub replace (out ++ front ++ replace) back in
        if fits_int (length front) && fits_int (length replace)
        then if ltb (length out + length front) size
            && ltb (length out + length front + length replace) size
          then next
          else cut_off
        else wild
  ]

  -- `(int)(strlen(str) - (strlen(sub) * count) + (strlen(replace) * count) + 1)`
  abbrev pub result_size : ℤ → Bytes → Bytes → Bytes → ℤ
  result_size count str sub replace = int_of (
      as_size_t (
        length str
        + (2 ^ 64 - as_size_t (length sub * size_of count))
        + length replace * size_of count
        + 1))

  -- Behind `malloc`.
  abbrev pub replaced : ℤ → Bytes → Bytes → Bytes → Replacement
  replaced (pos size) str sub replace = replace_loop (suc (length str)) size sub replace [] str
  replaced (negsuc n) str sub replace = wild

  -- `malloc` says whether it finds so many bytes; `strdup` asks it too.
  unfoldable pub str_replace : (ℕ → Bool) → Bytes → Bytes → Bytes → Replacement
  unfolding occurrences replace_loop
  str_replace malloc str sub replace =
      let count = int_of (occurrences sub str) in
      let size = result_size count str sub replace in
      if is_positive count
      then if malloc (size_of size) then replaced size str sub replace else null_pointer
      else if malloc (length str + 1)
      then string str
      else null_pointer

  -- What a replacement is: every occurrence found from the left gives way, the rest stays.
  pub data Replaces (sub replace : Bytes) : Bytes → Bytes → Type 0 where
    absent : {text : Bytes} → strstr text sub ≡ none → Replaces sub replace text text
    found :
        {text front back out : Bytes}
        → strstr text sub ≡ some (front, back)
        → Replaces sub replace back out
        → Replaces sub replace text (front ++ replace ++ out)

  -- The documented behaviour of `strstr`: an occurrence stands where it says.
  pub record Finds : Type 0 where
    pub split :
        (text sub front back : Bytes)
        → strstr text sub ≡ some (front, back)
        → text ≡ front ++ sub ++ back
