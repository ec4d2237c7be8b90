-- ===== src/Move/Checkpoint/Register.antt =====
-- checkpoint.move: who is registered as a gateway.
use sekisho.Base.{
  ℕ, true, false, not, List, Option, none, some, Result, ok, ◌≡◌, ◌↔◌, refl, ap, ◌∙◌, arith, same,
  same_refl, same_sound,
}
use mathlib.Core.Path.{subst}
use sekisho.Text.{Bytes}
use sekisho.Move.{bind-ok, assert-ok, Abort, assert, TxContext}
use sekisho.Move.Checkpoint.{
  PcrSet, Checkpoint, Gateway, NitroAttestationDocument, borrow, find_matching_entry, expect,
  validate_and_find_version, pcr_by_index, register,
}
use sekisho.Move.Checkpoint.Matching.{
  FirstWith, find_matching_entry_sound, find_matching_entry_complete,
}

-- The version that registers a triple: the first with it, if that is not revoked.
pub record Approved (entries : List PcrSet) (pcr0 pcr1 pcr2 : Bytes) (version : ℕ) : Type 0 where
  pub first : FirstWith entries pcr0 pcr1 pcr2 version
  pub current : first.entry.revoked ≡ false

-- The gateway that a document registers: the document has the three measurements, is bound to the
-- sender, and the first approved entry with these measurements is not revoked.
pub record Registers (checkpoint : Checkpoint) (document : NitroAttestationDocument)
    (ctx : TxContext) (gateway : Gateway) : Type 0 where
  pub pcr0 : Bytes
  pub pcr1 : Bytes
  pub pcr2 : Bytes
  pub has_pcr0 : pcr_by_index document.pcrs 0 ≡ ok pcr0
  pub has_pcr1 : pcr_by_index document.pcrs 1 ≡ ok pcr1
  pub has_pcr2 : pcr_by_index document.pcrs 2 ≡ ok pcr2
  pub bound : document.nonce ≡ some ctx.sender
  pub version : Approved checkpoint.approved_pcrs pcr0 pcr1 pcr2 gateway.pcr_version
  pub key : document.public_key ≡ some gateway.pk
  pub id : gateway.id ≡ ctx.new_object 0
  pub operator : gateway.operator ≡ ctx.sender
  pub registered_at_ms : gateway.registered_at_ms ≡ document.timestamp

expect-ok : {A : Type 0} (o : Option A) (abort : Abort) {a : A} → expect o abort ≡ ok a → o ≡ some a
expect-ok none abort h = cc
expect-ok (some b) abort h = cc

validate_sound :
    (checkpoint : Checkpoint) (nonce sender pcr0 pcr1 pcr2 : Bytes) (version : ℕ)
    → validate_and_find_version checkpoint nonce sender pcr0 pcr1 pcr2 ≡ ok version
    → (nonce ≡ sender) × Approved checkpoint.approved_pcrs pcr0 pcr1 pcr2 version
unfolding validate_and_find_version
validate_sound checkpoint nonce sender pcr0 pcr1 pcr2 version h =
    let (u, a, h1) = bind-ok (assert (same nonce sender) _) _ h in
    let (v, b, h2) = bind-ok (expect (find_matching_entry checkpoint pcr0 pcr1 pcr2) _) _ h1 in
    let (e, c, h3) = bind-ok (borrow checkpoint.approved_pcrs v) _ h2 in
    let (w, d, h4) = bind-ok (assert (not e.revoked) _) _ h3 in
    let f = find_matching_entry_sound checkpoint pcr0 pcr1 pcr2 v (expect-ok _ _ b) in
    (
      same_sound nonce sender (assert-ok _ _ a),
      subst (Approved checkpoint.approved_pcrs pcr0 pcr1 pcr2) (same_version v version h4) (record {
        first = f;
        current = not_revoked e f.entry (cc (c, f.found)) (assert-ok _ _ d);
      }),
    )
  where
    same_version : (v w : ℕ) → ◌≡◌ {A = Result ℕ Abort} (ok v) (ok w) → v ≡ w
    same_version v w e = cc

    not_revoked : (e f : PcrSet) → f ≡ e → not e.revoked ≡ true → f.revoked ≡ false
    not_revoked e f same_entry n = ground arith

validate_complete :
    (checkpoint : Checkpoint) (sender pcr0 pcr1 pcr2 : Bytes) (version : ℕ)
    → Approved checkpoint.approved_pcrs pcr0 pcr1 pcr2 version
    → validate_and_find_version checkpoint sender sender pcr0 pcr1 pcr2 ≡ ok version
unfolding validate_and_find_version
validate_complete checkpoint sender pcr0 pcr1 pcr2 version a =
    rw
      (
        validate_and_find_version,
        same_refl sender,
        find_matching_entry_complete checkpoint pcr0 pcr1 pcr2 version a.first,
        a.first.found,
        a.current,
      )
      refl

-- The gateway of a document, a version and a key.
abbrev gateway_of : NitroAttestationDocument → TxContext → ℕ → Bytes → Gateway
gateway_of document ctx version pk = record {
  id = ctx.new_object 0;
  pk = pk;
  pcr_version = version;
  operator = ctx.sender;
  registered_at_ms = document.timestamp;
}

register_sound :
    (checkpoint : Checkpoint) (document : NitroAttestationDocument) (ctx : TxContext)
    (gateway : Gateway)
    → register checkpoint document ctx ≡ ok gateway
    → Registers checkpoint document ctx gateway
unfolding register
register_sound checkpoint document ctx gateway h =
    let (pcr0, a0, h0) = bind-ok (pcr_by_index document.pcrs 0) _ h in
    let (pcr1, a1, h1) = bind-ok (pcr_by_index document.pcrs 1) _ h0 in
    let (pcr2, a2, h2) = bind-ok (pcr_by_index document.pcrs 2) _ h1 in
    let (nonce, b, h3) = bind-ok (expect document.nonce _) _ h2 in
    let (version, c, h4) =
      bind-ok (validate_and_find_version checkpoint nonce ctx.sender pcr0 pcr1 pcr2) _ h3 in
    let (pk, d, h5) = bind-ok (expect document.public_key _) _ h4 in
    let (bound, approved) = validate_sound checkpoint nonce ctx.sender pcr0 pcr1 pcr2 version c in
    made pcr0 pcr1 pcr2 nonce version pk a0 a1 a2 (expect-ok _ _ b) bound approved (expect-ok _ _ d)
      (cc h5)
  where
    made :
        (pcr0 pcr1 pcr2 nonce : Bytes) (version : ℕ) (pk : Bytes)
        → pcr_by_index document.pcrs 0 ≡ ok pcr0
        → pcr_by_index document.pcrs 1 ≡ ok pcr1
        → pcr_by_index document.pcrs 2 ≡ ok pcr2
        → document.nonce ≡ some nonce
        → nonce ≡ ctx.sender
        → Approved checkpoint.approved_pcrs pcr0 pcr1 pcr2 version
        → document.public_key ≡ some pk
        → gateway_of document ctx version pk ≡ gateway
        → Registers checkpoint document ctx gateway
    made pcr0 pcr1 pcr2 nonce version pk a0 a1 a2 b bound approved d e =
        subst (Registers checkpoint document ctx) e (record {
          pcr0 = pcr0;
          pcr1 = pcr1;
          pcr2 = pcr2;
          has_pcr0 = a0;
          has_pcr1 = a1;
          has_pcr2 = a2;
          bound = b ∙ ap some bound;
          version = approved;
          key = d;
          id = refl;
          operator = refl;
          registered_at_ms = refl;
        })

register_complete :
    (checkpoint : Checkpoint) (document : NitroAttestationDocument) (ctx : TxContext)
    (gateway : Gateway)
    → Registers checkpoint document ctx gateway
    → register checkpoint document ctx ≡ ok gateway
unfolding register
register_complete checkpoint document ctx gateway r =
    rw
      (
        register,
        r.has_pcr0,
        r.has_pcr1,
        r.has_pcr2,
        r.bound,
        validate_complete checkpoint ctx.sender r.pcr0 r.pcr1 r.pcr2 gateway.pcr_version r.version,
        r.key,
      )
      (ap ok (ground (arith, r.id, r.operator, r.registered_at_ms)))

-- A gateway is registered exactly if the document has the three measurements, its nonce is the
-- sender's address, the first approved entry with these measurements is not revoked, and it has a
-- public key: the gateway has that key, the index of that entry, the sender as its operator and the
-- time of the document. A later entry with the same measurements makes no difference: measurements
-- that are revoked and approved again register nothing.
pub register_iff :
    (checkpoint : Checkpoint) (document : NitroAttestationDocument) (ctx : TxContext)
    (gateway : Gateway)
    → (register checkpoint document ctx ≡ ok gateway) ↔ Registers checkpoint document ctx gateway
register_iff checkpoint document ctx gateway = (
  register_sound checkpoint document ctx gateway,
  register_complete checkpoint document ctx gateway,
)
