-- ===== src/Move/Chain.antt =====
-- The chain as the contracts leave it: the shared checkpoint, the shared gateways, and the events.
pub mod Events
pub mod Gateways
pub mod Receipts
use sekisho.Base.{ℕ, Bool, List, [], ◌∷◌, ◌++◌, ok, ◌≡◌}
use sekisho.Text.{Str, Bytes}
use sekisho.Move.{TxContext}
use sekisho.Move.Checkpoint.{
  Checkpoint, CheckpointCap, Gateway, NitroAttestationDocument, init, approve_pcrs, revoke_pcrs,
  register, destroy_gateway,
}
use sekisho.Move.Receipt.{Receipt, VerifiedReceipt, ReceiptVerified, verify}

pub record Chain : Type 0 where
  pub checkpoint : Checkpoint
  pub gateways : List Gateway
  pub events : List ReceiptVerified

-- The chain after `init`.
unfoldable pub published : TxContext → Chain
published ctx = record { checkpoint = (init ctx).0; gateways = []; events = [] }

module _ (ed25519_verify : Bytes → Bytes → Bytes → Bool) where
  -- A call that does not abort; one that aborts changes nothing.
  pub data Step : Chain → Chain → Type 0 where
    approved :
        (chain : Chain) (cap : CheckpointCap) (pcr0 pcr1 pcr2 : Bytes) (code_ref : Str)
        → Step chain (record chain {
          checkpoint = (approve_pcrs chain.checkpoint cap pcr0 pcr1 pcr2 code_ref).0;
        })
    revoked :
        (chain : Chain) (next : Checkpoint) (cap : CheckpointCap) (version : ℕ)
        → revoke_pcrs chain.checkpoint cap version ≡ ok next
        → Step chain (record chain { checkpoint = next })
    registered :
        (chain : Chain) (document : NitroAttestationDocument) (ctx : TxContext) (gateway : Gateway)
        → register chain.checkpoint document ctx ≡ ok gateway
        → Step chain (record chain { gateways = gateway ∷ chain.gateways })
    destroyed :
        (chain : Chain) (front : List Gateway) (gateway : Gateway) (back : List Gateway)
        (ctx : TxContext)
        → chain.gateways ≡ front ++ gateway ∷ back
        → destroy_gateway gateway ctx ≡ ok tt
        → Step chain (record chain { gateways = front ++ back })
    verified :
        (chain : Chain) (front : List Gateway) (gateway : Gateway) (back : List Gateway)
        (clock timestamp_ms : ℕ) (receipt : Receipt) (sig : Bytes) (ctx : TxContext)
        (witness : VerifiedReceipt) (event : ReceiptVerified)
        → chain.gateways ≡ front ++ gateway ∷ back
        → verify ed25519_verify gateway chain.checkpoint clock timestamp_ms receipt sig ctx
          ≡ ok (witness, event)
        → Step chain (record chain { events = event ∷ chain.events })

  -- Calls of anyone, in any order.
  pub data Steps (chain : Chain) : Chain → Type 0 where
    here : Steps chain chain
    next : {middle later : Chain} → Steps chain middle → Step middle later → Steps chain later
