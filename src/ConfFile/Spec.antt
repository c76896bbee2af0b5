-- ===== src/ConfFile/Spec.antt =====
-- A description, with no buffer, of where a PHP block of src/ngx_php_conf_file.c ends.
use ngx_php.Prelude.{
  ℕ, suc, ◌+◌, ◌-◌, ◌≤◌, ◌<◌, ◌≡◌, ◌&&◌, Option, none, some, [], ◌∷◌, ◌++◌, ◌==◌, if◌then◌else◌,
  length, take, drop,
}
use ngx_php.ConfFile.State.{Bytes, Conf, Env}

abbrev pub count_lines : Bytes → ℕ
count_lines [] = 0
count_lines (ch ∷ cs) = if ch == b'\n' then suc (count_lines cs) else count_lines cs

abbrev pub depth_after : ℕ → ℕ → ℕ
depth_after ch deep = if ch == b'{' then suc deep else if ch == b'}' then deep - 1 else deep

abbrev pub keep_byte : ℕ → Option (Bytes × Bytes) → Option (Bytes × Bytes)
keep_byte ch none = none
keep_byte ch (some (body, rest)) = some (ch ∷ body, rest)

-- The text before the first brace that closes none of `deep` open ones, and the text behind it.
unfoldable pub closing : ℕ → Bytes → Option (Bytes × Bytes)
closing deep [] = none
closing deep (ch ∷ cs) =
    if ch == b'}' && deep == 0
    then some ([], cs)
    else keep_byte ch (closing (depth_after ch deep) cs)

-- How much of the text a reader takes in: up to and with that brace, or all of it.
unfoldable pub extent : ℕ → Bytes → ℕ
extent deep [] = 0
extent deep (ch ∷ cs) = if ch == b'}' && deep == 0 then 1 else suc (extent (depth_after ch deep) cs)

-- The environment serves this file: its size is known and reads inside it return what was asked.
pub record Serves (e : Env) (file : Bytes) : Type 0 where
  pub size : e.file_size ≡ length file
  pub reads :
      (n offset : ℕ)
      → offset + n ≤ length file
      → e.ngx_read_file n offset ≡ some (take n (drop offset file), offset + n)

-- The text that the reader has not consumed.
abbrev pub remaining : Bytes → Conf → Bytes
remaining file c = c.ahead ++ drop c.offset file

-- No byte is the NUL that ends a C string.
abbrev pub IsNulFree : Bytes → Type 0
IsNulFree [] = Unit {0}
IsNulFree (ch ∷ cs) = (0 < ch) × IsNulFree cs
