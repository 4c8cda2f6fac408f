-- ===== src/Errors.antt =====
-- Errors of fs/iofs.go and package io, as values.
use wanix.Base.{◌≡◌, refl, ◌⊎◌, inl, inr, ℕ, String, Bytes, Bool, true, false}

-- The sentinel errors. `other` stands for an error of a file system that is none of them.
pub data Errno : Type 0 where
  not_exist exist invalid permission not_supported not_empty closed eof closed_pipe : Errno
  other : ℕ → Errno

-- An error is a sentinel, or `&fs.PathError{Op, Path, Err}` around one.
pub data Error : Type 0 where
  bare : Errno → Error
  path_error : String → Bytes → Errno → Error

abbrev pub errno : Error → Errno
errno (bare e) = e
errno (path_error op path e) = e

abbrev pub is_not_exist_errno : Errno → Bool
is_not_exist_errno not_exist = true
is_not_exist_errno _ = false

-- errors.Is(err, fs.ErrNotExist)
abbrev pub is_not_exist : Error → Bool
is_not_exist e = is_not_exist_errno (errno e)

-- What a call comes to: its value, or the error that it returns in place of one.
pub data Result {ℓ} (T : Type ℓ) : Type ℓ where
  ok : T → Result T
  err : Error → Result T

-- How a call ends: it returns, it panics, or it never returns.
pub data Outcome (A : Type 0) : Type 0 where
  returned : Result A → Outcome A
  panicked hangs : Outcome A

-- The next call, if there was no error.
infixl 5 ◌>>=◌
abbrev pub ◌>>=◌ {κ ℓ} : {T : Type κ} {U : Type ℓ} → Result T → (T → Result U) → Result U
◌>>=◌ (err e) next = err e
◌>>=◌ (ok t) next = next t

abbrev pub succeeded {ℓ} : {A : Type ℓ} → Result A → Bool
succeeded (ok a) = true
succeeded (err e) = false

-- To split on a computed result and keep the equation.
pub Result-cases {ℓ} :
    {T : Type ℓ} (m : Result T) → ((t : T) × (m ≡ ok t)) ⊎ ((failure : Error) × (m ≡ err failure))
Result-cases (err failure) = inr (failure, refl)
Result-cases (ok t) = inl (t, refl)

-- A call has one value.
pub ok-injective : {A : Type 0} (r : Result A) (a b : A) → r ≡ ok a → r ≡ ok b → a ≡ b
ok-injective (ok c) a b h k = cc
ok-injective (err e) a b h k = cc
