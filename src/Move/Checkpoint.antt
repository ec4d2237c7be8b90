-- ===== src/Move/Checkpoint.antt =====
-- move/sources/checkpoint.move: the approved code versions, and the registration of gateways.
pub mod Attested
pub mod Matching
pub mod Register
pub mod Versions
use sekisho.Base.{
  ℕ, zero, suc, ◌+◌, Bool, true, false, not, ◌&&◌, ltb, ◌==◌, List, [], ◌∷◌, ◌++◌, Option, none,
  some, Result, ok, err, ◌>>=◌, if◌then◌else◌, length, same,
}
use sekisho.Text.{Str, Bytes}
use sekisho.Move.{
  Abort, pcrs_not_approved, pcrs_revoked, missing_public_key, not_gateway_operator,
  entry_index_out_of_bounds, nonce_not_sender, missing_pcr, index_out_of_bounds, assert, TxContext,
}

pub record PcrSet : Type 0 where
  pub pcr0 : Bytes
  pub pcr1 : Bytes
  pub pcr2 : Bytes
  pub code_ref : Str
  pub revoked : Bool

pub record Checkpoint : Type 0 where
  pub id : Bytes
  pub approved_pcrs : List PcrSet

pub record CheckpointCap : Type 0 where
  pub id : Bytes

pub record Gateway : Type 0 where
  pub id : Bytes
  pub pk : Bytes
  pub pcr_version : ℕ
  pub operator : Bytes
  pub registered_at_ms : ℕ

-- What the getters of `sui::nitro_attestation` give.
pub record PcrEntry : Type 0 where
  pub index : ℕ
  pub value : Bytes

pub record NitroAttestationDocument : Type 0 where
  pub pcrs : List PcrEntry
  pub nonce : Option Bytes
  pub public_key : Option Bytes
  pub timestamp : ℕ

-- The element of a vector at an index, which aborts outside of it.
module _ {A : Type 0} where
  unfoldable pub borrow : List A → ℕ → Result A Abort
  borrow [] i = err index_out_of_bounds
  borrow (a ∷ xs) zero = ok a
  borrow (a ∷ xs) (suc i) = borrow xs i

-- The checkpoint that is shared, and the cap that goes to the sender.
unfoldable pub init : TxContext → Checkpoint × CheckpointCap
init ctx = (record { id = ctx.new_object 0; approved_pcrs = [] }, record { id = ctx.new_object 1 })

unfoldable pub approve_pcrs :
    Checkpoint → CheckpointCap → Bytes → Bytes → Bytes → Str → Checkpoint × ℕ
approve_pcrs checkpoint cap pcr0 pcr1 pcr2 code_ref =
    let version = length checkpoint.approved_pcrs in
    let entry : PcrSet = record {
      pcr0 = pcr0;
      pcr1 = pcr1;
      pcr2 = pcr2;
      code_ref = code_ref;
      revoked = false;
    } in
    (record checkpoint { approved_pcrs = checkpoint.approved_pcrs ++ entry ∷ [] }, version)

-- `entry.revoked = true` at one index.
unfoldable pub set_revoked : List PcrSet → ℕ → List PcrSet
set_revoked [] version = []
set_revoked (entry ∷ entries) zero = record entry { revoked = true } ∷ entries
set_revoked (entry ∷ entries) (suc version) = entry ∷ set_revoked entries version

unfoldable pub revoke_pcrs : Checkpoint → CheckpointCap → ℕ → Result Checkpoint Abort
revoke_pcrs checkpoint cap version = do
  _ ← assert (ltb version (length checkpoint.approved_pcrs)) entry_index_out_of_bounds
  ok (record checkpoint { approved_pcrs = set_revoked checkpoint.approved_pcrs version })

abbrev pub has_pcrs : PcrSet → Bytes → Bytes → Bytes → Bool
has_pcrs entry pcr0 pcr1 pcr2 = same entry.pcr0 pcr0 && same entry.pcr1 pcr1 && same entry.pcr2 pcr2

-- The loop of `find_matching_entry` from the index `i` on.
unfoldable pub find_from : List PcrSet → ℕ → Bytes → Bytes → Bytes → Option ℕ
find_from [] i pcr0 pcr1 pcr2 = none
find_from (entry ∷ entries) i pcr0 pcr1 pcr2 =
    let rest = find_from entries (i + 1) pcr0 pcr1 pcr2 in
    if has_pcrs entry pcr0 pcr1 pcr2 then some i else rest

unfoldable pub find_matching_entry : Checkpoint → Bytes → Bytes → Bytes → Option ℕ
unfolding find_from
find_matching_entry checkpoint = find_from checkpoint.approved_pcrs 0

-- `destroy_some` behind the assertion that there is one.
abbrev pub expect : {A : Type 0} → Option A → Abort → Result A Abort
expect none abort = err abort
expect (some a) abort = ok a

unfoldable pub validate_and_find_version :
    Checkpoint → Bytes → Bytes → Bytes → Bytes → Bytes → Result ℕ Abort
unfolding find_matching_entry borrow
validate_and_find_version checkpoint nonce expected_sender_bytes pcr0 pcr1 pcr2 = do
  _ ← assert (same nonce expected_sender_bytes) nonce_not_sender
  pcr_version ← expect (find_matching_entry checkpoint pcr0 pcr1 pcr2) pcrs_not_approved
  entry ← borrow checkpoint.approved_pcrs pcr_version
  _ ← assert (not entry.revoked) pcrs_revoked
  ok pcr_version

unfoldable pub pcr_by_index : List PcrEntry → ℕ → Result Bytes Abort
pcr_by_index [] wanted = err missing_pcr
pcr_by_index (entry ∷ pcrs) wanted =
    let rest = pcr_by_index pcrs wanted in if entry.index == wanted then ok entry.value else rest

-- The gateway that is shared; an address serializes as its bytes.
unfoldable pub register : Checkpoint → NitroAttestationDocument → TxContext → Result Gateway Abort
unfolding pcr_by_index validate_and_find_version
register checkpoint document ctx = do
  pcr0 ← pcr_by_index document.pcrs 0
  pcr1 ← pcr_by_index document.pcrs 1
  pcr2 ← pcr_by_index document.pcrs 2
  nonce ← expect document.nonce nonce_not_sender
  pcr_version ← validate_and_find_version checkpoint nonce ctx.sender pcr0 pcr1 pcr2
  pk ← expect document.public_key missing_public_key
  ok (record {
    id = ctx.new_object 0;
    pk = pk;
    pcr_version = pcr_version;
    operator = ctx.sender;
    registered_at_ms = document.timestamp;
  })

unfoldable pub destroy_gateway : Gateway → TxContext → Result (Unit {0}) Abort
destroy_gateway gateway ctx = assert (same gateway.operator ctx.sender) not_gateway_operator

unfoldable pub is_revoked : Checkpoint → ℕ → Result Bool Abort
unfolding borrow
is_revoked checkpoint version = do entry ← borrow checkpoint.approved_pcrs version; ok entry.revoked

unfoldable pub code_ref : Checkpoint → ℕ → Result Str Abort
unfolding borrow
code_ref checkpoint version = do entry ← borrow checkpoint.approved_pcrs version; ok entry.code_ref

unfoldable pub approved_pcrs_count : Checkpoint → ℕ
approved_pcrs_count checkpoint = length checkpoint.approved_pcrs
