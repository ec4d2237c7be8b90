-- ===== src/Move/Chain/Events.antt =====
-- receipt.move: the events of a chain.
use mathlib.Core.Path.{subst}
use sekisho.Base.{ℕ, Bool, true, false, List, [], ◌∷◌, ◌++◌, All, ok, ◌≡◌}
use sekisho.Text.{Bytes}
use sekisho.Move.{TxContext}
use sekisho.Move.Checkpoint.{Gateway, is_revoked}
use sekisho.Move.Receipt.{Receipt, ReceiptVerified, to_bytes, intent_message, receipt_verified}
use sekisho.Move.Receipt.Verified.{verify-ok}
use sekisho.Move.Chain.{
  Chain, published, Step, approved, revoked, registered, destroyed, verified, Steps, here, next,
}
use sekisho.Move.Chain.Gateways.{IsRegistered, Step-IsRegistered}

module _ (ed25519_verify : Bytes → Bytes → Bytes → Bool) where
  -- An event with the call that emitted it, and the chain of that time: a registered gateway whose
  -- version was not revoked then, and a signature that its key accepts on the bytes of the fields.
  pub record IsEmitted (chain : Chain) (event : ReceiptVerified) : Type 0 where
    pub before : Chain
    pub gateway : Gateway
    pub registered : IsRegistered ed25519_verify before gateway
    pub current : is_revoked before.checkpoint gateway.pcr_version ≡ ok false
    pub clock : ℕ
    pub timestamp_ms : ℕ
    pub receipt : Receipt
    pub sig : Bytes
    pub ctx : TxContext
    pub signed :
        ed25519_verify sig gateway.pk (to_bytes (intent_message timestamp_ms receipt)) ≡ true
    pub emitted : event ≡ receipt_verified gateway clock timestamp_ms receipt ctx
    pub since : Steps ed25519_verify before chain

  pub record IsSound (chain : Chain) : Type 0 where
    pub gateways : All (IsRegistered ed25519_verify chain) chain.gateways
    pub events : All (IsEmitted chain) chain.events

  IsEmitted-next :
      {chain later : Chain} (events : List ReceiptVerified)
      → Step ed25519_verify chain later
      → All (IsEmitted chain) events
      → All (IsEmitted later) events
  IsEmitted-next [] step h = tt
  IsEmitted-next (event ∷ events) step (h, hs) = (
    record {
      before = h.before;
      gateway = h.gateway;
      registered = h.registered;
      current = h.current;
      clock = h.clock;
      timestamp_ms = h.timestamp_ms;
      receipt = h.receipt;
      sig = h.sig;
      ctx = h.ctx;
      signed = h.signed;
      emitted = h.emitted;
      since = next h.since step;
    },
    IsEmitted-next events step hs,
  )

  All-at :
      (P : Gateway → Type 0) (front : List Gateway) (gateway : Gateway) (back : List Gateway)
      → All P (front ++ gateway ∷ back)
      → P gateway
  All-at P [] gateway back (h, hs) = h
  All-at P (g ∷ front) gateway back (h, hs) = All-at P front gateway back hs

  Step-IsEmitted :
      {chain later : Chain}
      → Step ed25519_verify chain later
      → IsSound chain
      → All (IsEmitted later) later.events
  Step-IsEmitted (approved chain held pcr0 pcr1 pcr2 code_ref) h =
      IsEmitted-next chain.events (approved chain held pcr0 pcr1 pcr2 code_ref) h.events
  Step-IsEmitted (revoked chain after held version e) h =
      IsEmitted-next chain.events (revoked chain after held version e) h.events
  Step-IsEmitted (registered chain document ctx gateway e) h =
      IsEmitted-next chain.events (registered chain document ctx gateway e) h.events
  Step-IsEmitted (destroyed chain front gateway back ctx e d) h =
      IsEmitted-next chain.events (destroyed chain front gateway back ctx e d) h.events
  Step-IsEmitted (verified chain front gateway back clock t receipt sig ctx w event e v) h =
      let step = verified chain front gateway back clock t receipt sig ctx w event e v in
      let (current, signed, _, emitted) =
        verify-ok ed25519_verify gateway chain.checkpoint clock t receipt sig ctx w event v in
      (
        record {
          before = chain;
          gateway = gateway;
          registered =
              All-at (IsRegistered ed25519_verify chain) front gateway back
                (subst (All (IsRegistered ed25519_verify chain)) e h.gateways);
          current = current;
          clock = clock;
          timestamp_ms = t;
          receipt = receipt;
          sig = sig;
          ctx = ctx;
          signed = signed;
          emitted = emitted;
          since = next here step;
        },
        IsEmitted-next chain.events step h.events,
      )

  -- On a chain since `init`, after any calls in any order, every gateway was registered under the
  -- conditions of `register` by a document at some earlier time; and every event was emitted at some
  -- earlier time for a registered gateway whose version was not revoked then, with the fields of a
  -- receipt on whose bytes, at the time that the event names, the key of the gateway accepts a
  -- signature.
  pub Steps-IsSound :
      (ctx : TxContext) (chain : Chain) → Steps ed25519_verify (published ctx) chain → IsSound chain
  unfolding published
  Steps-IsSound ctx _ here = record { gateways = tt; events = tt }
  Steps-IsSound ctx _ (next {middle} steps step) =
      let sound = Steps-IsSound ctx middle steps in
      record {
        gateways = Step-IsRegistered ed25519_verify step sound.gateways;
        events = Step-IsEmitted step sound;
      }
