-- ===== src/Base/Outcomes.antt =====
-- Code with state and exceptions: what a call returns, what it throws, and the state it leaves in
-- either case (an exception does not undo what was written before it).
use mathlib.Core.Path.{◌≡◌}
use mathlib.Core.Option.{Option, none, some}

-- The exceptions of the code and of the standard library, undefined behaviour as a result, and the
-- end of the rounds that a loop was given.
pub data Error : Type 0 where
  logic_error runtime_error invalid_argument out_of_range bad_variant_access undefined out_of_fuel :
      Error

pub data Outcome (S A : Type 0) : Type 0 where
  ok : A → S → Outcome S A
  throw : Error → S → Outcome S A

abbrev pub M : Type 0 → Type 0 → Type 0
M S A = S → Outcome S A

infixl 5 ◌>>=◌ ◌>>◌
abbrev pub ◌>>=◌ : {S A B : Type 0} → M S A → (A → M S B) → M S B
◌>>=◌ m f s = elim (m s) [ ok a s' ↦ f a s' | throw e s' ↦ throw e s' ]

abbrev pub ◌>>◌ : {S A B : Type 0} → M S A → M S B → M S B
m >> k = m >>= λ _. k

abbrev pub pure : {S A : Type 0} → A → M S A
pure a s = ok a s

abbrev pub fail : {S A : Type 0} → Error → M S A
fail e s = throw e s

abbrev pub get : {S : Type 0} → M S S
get s = ok s s

abbrev pub modify : {S : Type 0} → (S → S) → M S (Unit {0})
modify f s = ok tt (f s)

-- A lookup in a container that throws when there is nothing.
abbrev pub or_throw : {S A : Type 0} → Option A → Error → M S A
or_throw none e = fail e
or_throw (some a) e = pure a

-- The state that a call leaves, returned or thrown.
abbrev pub after : {S A : Type 0} → Outcome S A → S
after (ok a s) = s
after (throw e s) = s

-- A call on a part of the state, given how to read the part and how to put it back.
abbrev pub zoom : {S T A : Type 0} → (S → T) → (T → S → S) → M T A → M S A
zoom read put m s = elim (m (read s)) [ ok a t ↦ ok a (put t s) | throw e t ↦ throw e (put t s) ]

-- A call from `s` returns, with a value and a state for which `P` holds.
abbrev pub Returns : {S A : Type 0} → M S A → S → (A → S → Type 0) → Type 0
Returns {S} {A} m s P = (a : A) × (s' : S) × (m s ≡ ok a s') × P a s'

module _ {S A B : Type 0} (m : M S A) (k : A → M S B) (s : S) {P : A → S → Type 0}
    {Q : B → S → Type 0} where
  pub Returns-bind :
      Returns m s P → ((a : A) (s' : S) → P a s' → Returns (k a) s' Q) → Returns (m >>= k) s Q
  Returns-bind r f =
      let (a, s1, run, p) = r in let (b, s2, run2, q) = f a s1 p in (b, s2, rw (◌>>=◌, run) run2, q)
