-- ===== src/Result.antt =====
-- What a C++ method comes to: a value, an exception, or behaviour that C++ leaves undefined.
use doom_mc.Prelude.{ℕ, zero, suc, ◌+◌, ◌≡◌, refl, Option, none, some, ◌<◌, arith}

pub data Exception : Type 0 where
  invalid_argument error_code runtime_error : Exception

pub data Result {ℓ} (A : Type ℓ) : Type ℓ where
  ok : A → Result A
  throw : Exception → Result A
  fault : Result A

infixl 5 ◌>>=◌
abbrev pub ◌>>=◌ {ℓ κ} : {A : Type ℓ} {B : Type κ} → Result A → (A → Result B) → Result B
ok a >>= f = f a
throw e >>= f = throw e
fault >>= f = fault

abbrev pub map_result {ℓ κ} : {A : Type ℓ} {B : Type κ} → (A → B) → Result A → Result B
map_result f (ok a) = ok (f a)
map_result f (throw e) = throw e
map_result f fault = fault

-- A read through a pointer or an index: `none` is out of bounds.
abbrev pub or_fault {ℓ} : {A : Type ℓ} → Option A → Result A
or_fault none = fault
or_fault (some a) = ok a

-- `for(int i = ...; ...; i++)` with `left` rounds to go.
unfoldable pub for_range {ℓ} : {S : Type ℓ} → ℕ → ℕ → (ℕ → S → Result S) → S → Result S
for_range zero i body s = ok s
for_range (suc left) i body s = body i s >>= λ s'. for_range left (i + 1) body s'

-- The rule for such a loop: a body that always succeeds from the invariant.
pub for_range_inv {ℓ κ} :
    {S : Type ℓ} (P : ℕ → S → Type κ) (body : ℕ → S → Result S) (n : ℕ)
    → ((i : ℕ) (s : S) → i < n → P i s → (s' : S) × (body i s ≡ ok s') × P (i + 1) s')
    → (left i : ℕ) (s : S) → i + left ≡ n
    → P i s
    → (s' : S) × (for_range left i body s ≡ ok s') × P n s'
unfolding for_range
for_range_inv P body n keep zero i s e h = let e' : i ≡ n = omega arith in (s, refl, rw (← e') h)
for_range_inv P body n keep (suc left) i s e h =
    let (s', run, h') = keep i s (omega arith) h in
    let (t, runs, ht) = for_range_inv P body n keep left (i + 1) s' (omega arith) h' in
    (t, rw run runs, ht)

pub for_range_fault {ℓ} :
    {S : Type ℓ} (left i : ℕ) (body : ℕ → S → Result S) (s : S)
    → 0 < left
    → body i s ≡ fault
    → for_range left i body s ≡ fault
unfolding for_range
for_range_fault zero i body s h e = elim h [ ]
for_range_fault (suc left) i body s h e = rw e
