-- ===== src/Db/Result.antt =====
-- `Result<_, sqlx::Error>`: a statement returns, or it fails with one of the errors that the
-- modelled statements meet.
use mathlib.Core.Bool.{Bool}
use mathlib.Core.Path.{◌≡◌, refl}
use mathlib.Core.Logic.{◌⊎◌, inl, inr}

pub data SqlError : Type 0 where
  check_violation foreign_key_violation numeric_overflow invalid_row_count connection : SqlError

pub data SqlResult {ℓ} (A : Type ℓ) : Type ℓ where
  ok : A → SqlResult A
  err : SqlError → SqlResult A

-- What becomes of one round trip, which the network and the server choose. The flag says
-- whether the server carried the statement out although its answer is lost.
--   served: the statement runs, and its own result comes back
--   dropped: the client sees an error of the connection, or of the pool, which gives up after its
--     time limit for handing out a connection
--   silent: the statement has a connection, and no answer comes for as long as the client waits
pub data Reply : Type 0 where
  served : Reply
  dropped silent : (executed : Bool) → Reply

pub SqlResult-cases {ℓ} :
    {A : Type ℓ} (r : SqlResult A) → ((a : A) × (r ≡ ok a)) ⊎ ((e : SqlError) × (r ≡ err e))
SqlResult-cases (ok a) = inl (a, refl)
SqlResult-cases (err e) = inr (e, refl)

pub Reply-cases :
    (r : Reply) → (r ≡ served) ⊎ ((x : Bool) × (r ≡ dropped x)) ⊎ ((x : Bool) × (r ≡ silent x))
Reply-cases served = inl refl
Reply-cases (dropped x) = inr (inl (x, refl))
Reply-cases (silent x) = inr (inr (x, refl))
