-- ===== src/Move/Chain/Gateways.antt =====
-- checkpoint.move: the gateways of a chain, and that a revocation is for good.
use sekisho.Base.{
  ℕ, Bool, true, List, [], ◌∷◌, ◌++◌, All, some, ok, err, ◌≡◌, refl, ap, ◌∙◌, same, if◌then◌else◌,
  Bool-cases, inl, inr,
}
use mathlib.Core.Path.{subst}
use sekisho.Text.{Bytes}
use sekisho.Move.{nonce_not_sender, pcrs_revoked, revoked_gateway, TxContext}
use sekisho.Move.Checkpoint.{
  PcrSet, Checkpoint, Gateway, NitroAttestationDocument, borrow, find_matching_entry,
  validate_and_find_version, is_revoked,
}
use sekisho.Move.Checkpoint.Register.{Registers, register_iff}
use sekisho.Move.Checkpoint.Versions.{
  Extends, Extends-refl, Extends-trans, Extends-approve_pcrs, Extends-revoke_pcrs,
  find_from-Extends,
}
use sekisho.Move.Receipt.{Receipt, verify}
use sekisho.Move.Chain.{
  Chain, Step, approved, revoked, registered, destroyed, verified, Steps, here, next,
}

abbrev pub entries : Chain → List PcrSet
entries chain = chain.checkpoint.approved_pcrs

module _ (ed25519_verify : Bytes → Bytes → Bytes → Bool) where
  Step-Extends :
      {chain later : Chain}
      → Step ed25519_verify chain later
      → Extends (entries chain) (entries later)
  Step-Extends (approved chain held pcr0 pcr1 pcr2 code_ref) =
      Extends-approve_pcrs chain.checkpoint held pcr0 pcr1 pcr2 code_ref
  Step-Extends (revoked chain after held version h) =
      Extends-revoke_pcrs chain.checkpoint after held version h
  Step-Extends (registered chain document ctx gateway h) = Extends-refl _
  Step-Extends (destroyed chain front gateway back ctx e h) = Extends-refl _
  Step-Extends (verified chain front gateway back clock t receipt sig ctx witness event e h) =
      Extends-refl _

  pub Steps-Extends :
      {chain later : Chain}
      → Steps ed25519_verify chain later
      → Extends (entries chain) (entries later)
  Steps-Extends here = Extends-refl _
  Steps-Extends (next steps step) = Extends-trans _ _ _ (Steps-Extends steps) (Step-Extends step)

  verify_of_revoked :
      (gateway : Gateway) (checkpoint : Checkpoint) (entry : PcrSet) (clock timestamp_ms : ℕ)
      (receipt : Receipt) (sig : Bytes) (ctx : TxContext)
      → borrow checkpoint.approved_pcrs gateway.pcr_version ≡ ok entry
      → entry.revoked ≡ true
      → verify ed25519_verify gateway checkpoint clock timestamp_ms receipt sig ctx
        ≡ err revoked_gateway
  unfolding verify is_revoked
  verify_of_revoked gateway checkpoint entry clock timestamp_ms receipt sig ctx b r =
      rw (verify, is_revoked, b, r) refl

  validate_of_revoked :
      (checkpoint : Checkpoint) (nonce sender pcr0 pcr1 pcr2 : Bytes) (version : ℕ) (entry : PcrSet)
      → find_matching_entry checkpoint pcr0 pcr1 pcr2 ≡ some version
      → borrow checkpoint.approved_pcrs version ≡ ok entry
      → entry.revoked ≡ true
      → validate_and_find_version checkpoint nonce sender pcr0 pcr1 pcr2
        ≡ (if same nonce sender then err pcrs_revoked else err nonce_not_sender)
  unfolding validate_and_find_version
  validate_of_revoked checkpoint nonce sender pcr0 pcr1 pcr2 version entry f b r =
      elim (Bool-cases (same nonce sender)) [
        | inl s ↦ rw (validate_and_find_version, s, f, b, r) refl
        | inr s ↦ rw (validate_and_find_version, s) refl
      ]

  -- A revocation is for good. If the entry at a version is revoked, then after any calls, in any
  -- order, no receipt of a gateway of that version is verified, and measurements whose first entry
  -- was that one, approved again or not, register no gateway: both abort.
  pub Steps-revoked :
      (chain later : Chain) (version : ℕ) (entry : PcrSet)
      → Steps ed25519_verify chain later
      → borrow (entries chain) version ≡ ok entry
      → entry.revoked ≡ true
      → (gateway : Gateway) → gateway.pcr_version ≡ version
      → (pcr0 pcr1 pcr2 : Bytes)
      → find_matching_entry chain.checkpoint pcr0 pcr1 pcr2 ≡ some version
      → (clock timestamp_ms : ℕ) (receipt : Receipt) (sig nonce sender : Bytes) (ctx : TxContext)
      → (verify ed25519_verify gateway later.checkpoint clock timestamp_ms receipt sig ctx
          ≡ err revoked_gateway)
        × (validate_and_find_version later.checkpoint nonce sender pcr0 pcr1 pcr2
            ≡ (if same nonce sender then err pcrs_revoked else err nonce_not_sender))
  unfolding find_matching_entry
  Steps-revoked chain later version entry steps found r gateway v pcr0 pcr1 pcr2 f clock
        timestamp_ms receipt sig nonce sender ctx =
      let extends = Steps-Extends steps in
      let (e, b, keeps) = extends.kept version entry found in
      (
        verify_of_revoked gateway later.checkpoint e clock timestamp_ms receipt sig ctx
            (ap (borrow (entries later)) v ∙ b) (keeps.revoked r),
        validate_of_revoked later.checkpoint nonce sender pcr0 pcr1 pcr2 version e
            (find_from-Extends (entries chain) (entries later) 0 version pcr0 pcr1 pcr2 extends f) b
            (keeps.revoked r),
      )

  -- A gateway with the document that registered it, and the chain of that time.
  pub record IsRegistered (chain : Chain) (gateway : Gateway) : Type 0 where
    pub before : Chain
    pub document : NitroAttestationDocument
    pub ctx : TxContext
    pub registers : Registers before.checkpoint document ctx gateway
    pub since : Steps ed25519_verify before chain

  IsRegistered-next :
      {chain later : Chain} (gateways : List Gateway)
      → Step ed25519_verify chain later
      → All (IsRegistered chain) gateways
      → All (IsRegistered later) gateways
  IsRegistered-next [] step h = tt
  IsRegistered-next (gateway ∷ gateways) step (h, hs) = (
    record {
      before = h.before;
      document = h.document;
      ctx = h.ctx;
      registers = h.registers;
      since = next h.since step;
    },
    IsRegistered-next gateways step hs,
  )

  All-without :
      (P : Gateway → Type 0) (front : List Gateway) (gateway : Gateway) (back : List Gateway)
      → All P (front ++ gateway ∷ back)
      → All P (front ++ back)
  All-without P [] gateway back (h, hs) = hs
  All-without P (g ∷ front) gateway back (h, hs) = (h, All-without P front gateway back hs)

  pub Step-IsRegistered :
      {chain later : Chain}
      → Step ed25519_verify chain later
      → All (IsRegistered chain) chain.gateways
      → All (IsRegistered later) later.gateways
  Step-IsRegistered (approved chain held pcr0 pcr1 pcr2 code_ref) h =
      IsRegistered-next chain.gateways (approved chain held pcr0 pcr1 pcr2 code_ref) h
  Step-IsRegistered (revoked chain after held version e) h =
      IsRegistered-next chain.gateways (revoked chain after held version e) h
  Step-IsRegistered (registered chain document ctx gateway e) h =
      let step = registered chain document ctx gateway e in
      (
        record {
          before = chain;
          document = document;
          ctx = ctx;
          registers = (register_iff chain.checkpoint document ctx gateway).0 e;
          since = next here step;
        },
        IsRegistered-next chain.gateways step h,
      )
  Step-IsRegistered (destroyed chain front gateway back ctx e d) h =
      IsRegistered-next (front ++ back) (destroyed chain front gateway back ctx e d)
        (All-without (IsRegistered chain) front gateway back (subst (All (IsRegistered chain)) e h))
  Step-IsRegistered (verified chain front gateway back clock t receipt sig ctx w event e v) h =
      IsRegistered-next chain.gateways
        (verified chain front gateway back clock t receipt sig ctx w event e v) h
