-- ===== src/Util/Tests.antt =====
-- `str_replace` of src/ngx_http_php_util.c at a text, with a `strstr` that finds one byte.
use ngx_php.Prelude.{
  suc, length, ◌^◌, ◌+◌, ◌-◌, ℕ, ◌≡◌, refl, true, Option, none, some, inl, inr, [], ◌∷◌, ◌++◌,
  arith, ◌==◌, if◌then◌else◌, Bool-cases,
}
use ngx_php.Util.Replace.{
  Bytes, Strstr, string, str_replace, Replaces, Finds, int_of, replace_loop, occurrences, count,
}
use ngx_php.Util.Replaced.{needed, str_replace-Replaces}
use ngx_php.Prelude.Codes.{pos, negsuc}

abbrev before : ℕ → Option (Bytes × Bytes) → Option (Bytes × Bytes)
before b none = none
before b (some (front, back)) = some (b ∷ front, back)

-- The first place of a byte.
abbrev find_byte : ℕ → Bytes → Option (Bytes × Bytes)
find_byte x [] = none
find_byte x (b ∷ bs) = if b == x then some ([], bs) else before b (find_byte x bs)

abbrev one_byte : Strstr
one_byte text [] = none
one_byte text (x ∷ []) = find_byte x text
one_byte text (x ∷ y ∷ ys) = none

before-some :
    (b x : ℕ) (bs front back : Bytes) (o : Option (Bytes × Bytes))
    → ((f k : Bytes) → o ≡ some (f, k) → bs ≡ f ++ (x ∷ []) ++ k)
    → before b o ≡ some (front, back)
    → b ∷ bs ≡ front ++ (x ∷ []) ++ back
before-some b x bs front back none step h = ground (arith, h)
before-some b x bs front back (some (f, k)) step h = ground (arith, h, step f k refl)

find_byte-splits :
    (x : ℕ) (text front back : Bytes)
    → find_byte x text ≡ some (front, back)
    → text ≡ front ++ (x ∷ []) ++ back
find_byte-splits x [] front back h = ground (arith, h)
find_byte-splits x (b ∷ bs) front back h = elim (Bool-cases (b == x)) [
  | inl same ↦ ground (arith, h, same)
  | inr other ↦
      before-some b x bs front back (find_byte x bs) (find_byte-splits x bs)
        (ground (arith, h, other))
]

one_byte-splits :
    (text sub front back : Bytes)
    → one_byte text sub ≡ some (front, back)
    → text ≡ front ++ sub ++ back
one_byte-splits text [] front back h = ground (arith, h)
one_byte-splits text (x ∷ []) front back h = find_byte-splits x text front back h
one_byte-splits text (x ∷ y ∷ ys) front back h = ground (arith, h)

one_byte-Finds : Finds one_byte
one_byte-Finds = record { split = one_byte-splits }

abbrev path : Bytes
path = b'a' ∷ b'.' ∷ b'b' ∷ b'.' ∷ []

-- A result that an int cannot count: a size that wraps to zero, to one, and below zero.
run_sizes :
    (int_of (2 ^ 32) ≡ pos 0)
    × (int_of (2 ^ 32 + 1) ≡ pos 1)
    × (int_of (2 ^ 31) ≡ negsuc (2 ^ 31 - 1))
run_sizes = (refl, refl, refl)

str_replace-Replaces_example :
    (out : Bytes) × (str_replace one_byte (λ n. true) path (b'.' ∷ []) (b'-' ∷ b'>' ∷ [])
      ≡ string out)
    × Replaces one_byte (b'.' ∷ []) (b'-' ∷ b'>' ∷ []) path out
    × (suc (length out) ≡ needed one_byte path (b'.' ∷ []) (b'-' ∷ b'>' ∷ []))
unfolding occurrences count
str_replace-Replaces_example =
    str_replace-Replaces one_byte one_byte-Finds (b'.' ∷ []) (b'-' ∷ b'>' ∷ []) (omega arith)
      (λ n. true) path (omega arith) (omega arith) refl

run_path :
    str_replace one_byte (λ n. true) path (b'.' ∷ []) (b'-' ∷ b'>' ∷ [])
    ≡ string (b'a' ∷ b'-' ∷ b'>' ∷ b'b' ∷ b'-' ∷ b'>' ∷ [])
unfolding str_replace replace_loop occurrences count
run_path = refl
