-- ===== src/Dispatcher/Effects.antt =====
-- Code that changes a world and may throw: what was written before a throw stays written.
use grlx_rpc.Prelude.{ℕ, List}
use grlx_rpc.Buffer.{ErrorCode}

pub data Exception : Type 0 where
  dispatch_denied : List ℕ → Exception
  handler_not_found : ℕ → ℕ → Exception
  sync_on_async : Exception
  system_error : ErrorCode → Exception
  call_timeout : List ℕ → Exception
  -- What a handler of the application throws.
  thrown : List ℕ → Exception

pub data Outcome {ℓ} (A : Type ℓ) : Type ℓ where
  returns : A → Outcome A
  throws : Exception → Outcome A

abbrev pub Exec {ℓ} : Type ℓ → Type ℓ → Type ℓ
Exec W A = W → Outcome A × W

module _ {ℓ} {W A : Type ℓ} where
  abbrev pub pure : A → Exec W A
  pure a w = (returns a, w)

  abbrev pub raise : Exception → Exec W A
  raise e w = (throws e, w)

module _ {ℓ} {W A B : Type ℓ} where
  abbrev pub after : Outcome A → (A → Exec W B) → Exec W B
  after (returns a) f w = f a w
  after (throws e) f w = (throws e, w)

  infixl 10 ◌>>=◌ ◌>>◌
  abbrev pub ◌>>=◌ : Exec W A → (A → Exec W B) → Exec W B
  ◌>>=◌ m f w = let (r, w') = m w in after r f w'

  abbrev pub ◌>>◌ : Exec W A → Exec W B → Exec W B
  m >> n = m >>= λ _. n
