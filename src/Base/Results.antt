-- ===== src/Base/Results.antt =====
-- What C leaves undefined, as values: the outcome of a step is a result or the first fault on its
-- path. A stateful step keeps the state that it had reached when the fault came.
use Prim.Native.Nat.{ℕ, ◌≤◌, ◌<◌}
use mathlib.Core.Path.{◌≡◌}
use shell_chat_app_multi_ser.Base.Tests.{ge→ltb, ltb, lt→ltb, if◌then◌else◌}
use shell_chat_app_multi_ser.Base.Strings.{Text}
use shell_chat_app_multi_ser.Base.Lists.{length}

pub data Fault : Type 0 where
  null_deref out_of_bounds uninit_read use_after_free buffer_overflow out_of_fuel : Fault

pub data Result {ℓ} (A : Type ℓ) : Type ℓ where
  ok : A → Result A
  err : Fault → Result A

infixl 5 ◌>>=◌
abbrev pub ◌>>=◌ {ℓ κ} : {A : Type ℓ} {B : Type κ} → Result A → (A → Result B) → Result B
ok a >>= f = f a
err e >>= f = err e

-- `strcpy` of a text into `char[size]`, the terminator included.
unfoldable pub strcpy : ℕ → Text → Result Text
strcpy size s = if ltb (length s) size then ok s else err buffer_overflow

pub strcpy-ok : (size : ℕ) (s : Text) → length s < size → strcpy size s ≡ ok s
unfolding strcpy
strcpy-ok size s h = rw (lt→ltb _ _ h)

pub strcpy_overflow : (size : ℕ) (s : Text) → size ≤ length s → strcpy size s ≡ err buffer_overflow
unfolding strcpy
strcpy_overflow size s h = rw (ge→ltb _ _ h)
