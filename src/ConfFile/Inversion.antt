-- ===== src/ConfFile/Inversion.antt =====
-- What it means that a text which begins with a byte has its closing brace at some place.
use ngx_php.Prelude.{
  ℕ, suc, ◌<◌, ◌≡◌, refl, ap, true, false, ◌&&◌, ◌⊎◌, inl, inr, Option, none, some, [], ◌∷◌, arith,
  length, ◌==◌, Bool-cases,
}
use ngx_php.ConfFile.State.{Bytes}
use ngx_php.ConfFile.Spec.{depth_after, keep_byte, closing, extent}

abbrev pub ClosesHere : ℕ → ℕ → Bytes → Bytes → Bytes → Type 0
ClosesHere deep ch cs body rest = ((ch == b'}' && deep == 0) ≡ true) × (body ≡ []) × (rest ≡ cs)

abbrev pub ClosesLater : ℕ → ℕ → Bytes → Bytes → Bytes → Type 0
ClosesLater deep ch cs body rest =
    ((ch == b'}' && deep == 0) ≡ false)
    × (more : Bytes) × (body ≡ ch ∷ more)
    × (closing (depth_after ch deep) cs ≡ some (more, rest))

keep_byte-some :
    (ch : ℕ) (o : Option (Bytes × Bytes)) (body rest : Bytes)
    → keep_byte ch o ≡ some (body, rest)
    → (more : Bytes) × (body ≡ ch ∷ more) × (o ≡ some (more, rest))
keep_byte-some ch none body rest h = cc
keep_byte-some ch (some (more, r)) body rest h = (more, ground arith, ground arith)

keep_byte-none : (ch : ℕ) (o : Option (Bytes × Bytes)) → keep_byte ch o ≡ none → o ≡ none
keep_byte-none ch none h = refl
keep_byte-none ch (some _) h = cc

pub closing-cons :
    (deep ch : ℕ) (cs body rest : Bytes)
    → closing deep (ch ∷ cs) ≡ some (body, rest)
    → ClosesHere deep ch cs body rest ⊎ ClosesLater deep ch cs body rest
unfolding closing
closing-cons deep ch cs body rest h = elim (Bool-cases (ch == b'}' && deep == 0)) [
  | inl y ↦ let k = rw y at h in inl (y, ground arith, ground arith)
  | inr n ↦ let (more, e, k) = keep_byte-some ch _ body rest (rw n at h) in inr (n, more, e, k)
]

pub closing-cons_none :
    (deep ch : ℕ) (cs : Bytes)
    → closing deep (ch ∷ cs) ≡ none
    → ((ch == b'}' && deep == 0) ≡ false) × (closing (depth_after ch deep) cs ≡ none)
unfolding closing
closing-cons_none deep ch cs h = elim (Bool-cases (ch == b'}' && deep == 0)) [
  | inl y ↦ let k = rw y at h in cc
  | inr n ↦ (n, keep_byte-none ch _ (rw n at h))
]

pub extent-cons :
    (deep ch : ℕ) (cs : Bytes)
    → 1 < extent deep (ch ∷ cs)
    → ((ch == b'}' && deep == 0) ≡ false)
      × (extent deep (ch ∷ cs) ≡ suc (extent (depth_after ch deep) cs))
unfolding extent
extent-cons deep ch cs h = elim (Bool-cases (ch == b'}' && deep == 0)) [
  | inl y ↦ absurd (omega (arith, rw y at h))
  | inr n ↦ (n, rw n)
]

-- The reader takes in the body and its brace.
pub extent-closing :
    (deep : ℕ) (xs body rest : Bytes)
    → closing deep xs ≡ some (body, rest)
    → extent deep xs ≡ suc (length body)
unfolding closing extent
extent-closing deep [] body rest h = absurd (cc)
extent-closing deep (ch ∷ cs) body rest h = elim (closing-cons deep ch cs body rest h) [
  | inl (y, body_is, rest_is) ↦ rw y (omega (arith, ap length body_is))
  | inr (n, more, body_is, later) ↦
      let ih = extent-closing (depth_after ch deep) cs more rest later in
      rw n (omega (arith, ih, ap length body_is))
]

-- With no such brace, it takes in the whole text.
pub extent-closing-none :
    (deep : ℕ) (xs : Bytes) → closing deep xs ≡ none → extent deep xs ≡ length xs
unfolding extent
extent-closing-none deep [] h = refl
extent-closing-none deep (ch ∷ cs) h =
    let (n, later) = closing-cons_none deep ch cs h in
    rw n (ap suc (extent-closing-none (depth_after ch deep) cs later))
