-- ===== src/Common/Options.antt =====
-- Options: `map`, `or_else`, `is_some`, `get_or`, in forms that every module computes with.
use mathlib.Core.Option.{Option, none, some}
use mathlib.Core.Bool.{Bool, true, false}

abbrev pub map {ℓ κ} : {A : Type ℓ} {B : Type κ} → (A → B) → Option A → Option B
map f none = none
map f (some a) = some (f a)

abbrev pub or_else {ℓ} : {A : Type ℓ} → Option A → Option A → Option A
or_else none b = b
or_else (some a) b = some a

abbrev pub is_some {ℓ} : {A : Type ℓ} → Option A → Bool
is_some none = false
is_some (some a) = true

abbrev pub get_or {ℓ} : {A : Type ℓ} → Option A → A → A
get_or none d = d
get_or (some a) d = a
