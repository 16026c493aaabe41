-- ===== src/Base/Fallible.antt =====
-- Go functions that return a value and an error, or panic.
use Prim.Native.String.{String, ◌++◌ as ◌<>◌}
use mathlib.Core.Path.{◌≡◌, refl}
use native.Mathlib.Omega.{arith}

-- What a function gives that may panic.
pub data Answer (A : Type 0) : Type 0 where
  answer : A → Answer A
  error : String → Answer A
  panic : Answer A

infixl 5 ◌>>=◌
abbrev pub ◌>>=◌ : {A B : Type 0} → Answer A → (A → Answer B) → Answer B
answer a >>= f = f a
error e >>= f = error e
panic >>= f = panic

-- fmt.Errorf of an error
abbrev pub wrap : {A : Type 0} → String → Answer A → Answer A
wrap message (error e) = error (message <> e)
wrap message (answer a) = answer a
wrap message panic = panic

-- Inversion of an answer
pub >>=-answer :
    {A B : Type 0} (m : Answer A) (f : A → Answer B) {b : B}
    → (m >>= f) ≡ answer b
    → (a : A) × (m ≡ answer a) × (f a ≡ answer b)
>>=-answer (answer a) f h = (a, refl, h)
>>=-answer (error e) f h = let no : ⊥ = ground arith in elim no [ ]
>>=-answer panic f h = let no : ⊥ = ground arith in elim no [ ]

pub wrap-answer :
    {A : Type 0} (message : String) (m : Answer A) {a : A}
    → wrap message m ≡ answer a
    → m ≡ answer a
wrap-answer message (answer a) h = h
wrap-answer message (error e) h = let no : ⊥ = ground arith in elim no [ ]
wrap-answer message panic h = let no : ⊥ = ground arith in elim no [ ]
