-- ===== src/Hpack/Outcome.antt =====
-- hpack/hpack.go: a call that panics, returns an error, or returns a value.
use http.Prelude.{Option, none, some}
use http.Prelude.Results.{Result, ok, err}
use http.Hpack.Error.{DecodeError}

pub data Outcome {ℓ} (A : Type ℓ) : Type ℓ where
  panics : Outcome A
  fails : DecodeError → Outcome A
  gives : A → Outcome A

infixl 5 ◌>>=◌
abbrev pub ◌>>=◌ {ℓ κ} : {A : Type ℓ} {B : Type κ} → Outcome A → (A → Outcome B) → Outcome B
panics >>= f = panics
fails e >>= f = fails e
gives a >>= f = f a

abbrev pub of_result {ℓ} : {A : Type ℓ} → Result DecodeError A → Outcome A
of_result (ok a) = gives a
of_result (err e) = fails e

abbrev pub or_panic {ℓ} : {A : Type ℓ} → Option A → Outcome A
or_panic none = panics
or_panic (some a) = gives a

abbrev pub or_fail {ℓ} : {A : Type ℓ} → DecodeError → Option A → Outcome A
or_fail e none = fails e
or_fail e (some a) = gives a
