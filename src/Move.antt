-- ===== src/Move.antt =====
-- move/sources: the contracts that register an enclave and check its receipts on chain.
pub mod Bcs
pub mod Chain
pub mod Checkpoint
pub mod Receipt
pub mod Runs
mod Tests
use sekisho.Base.{ℕ, Bool, true, false, Result, ok, err, ◌>>=◌, ◌≡◌, refl}
use sekisho.Text.{Bytes}

-- The errors of both modules, and the abort of the language on an index outside a vector.
pub data Abort : Type 0 where
  pcrs_not_approved : Abort
  pcrs_revoked : Abort
  missing_public_key : Abort
  not_gateway_operator : Abort
  entry_index_out_of_bounds : Abort
  nonce_not_sender : Abort
  missing_pcr : Abort
  invalid_signature : Abort
  revoked_gateway : Abort
  index_out_of_bounds : Abort

-- `assert!`.
abbrev pub assert : Bool → Abort → Result (Unit {0}) Abort
assert true abort = ok tt
assert false abort = err abort

-- What the code uses of a transaction: its sender, and the ids of the objects that it makes.
pub record TxContext : Type 0 where
  pub sender : Bytes
  pub new_object : ℕ → Bytes

-- The parts of a step that does not abort.
pub bind-ok :
    {A B : Type 0} (m : Result A Abort) (f : A → Result B Abort) {b : B}
    → (m >>= f) ≡ ok b
    → (a : A) × (m ≡ ok a) × (f a ≡ ok b)
bind-ok (ok a) f h = (a, refl, h)
bind-ok (err e) f h = absurd (cc h)

pub assert-ok : (b : Bool) (abort : Abort) {u : Unit {0}} → assert b abort ≡ ok u → b ≡ true
assert-ok true abort h = refl
assert-ok false abort h = cc
