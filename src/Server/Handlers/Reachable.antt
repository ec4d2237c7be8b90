-- ===== src/Server/Handlers/Reachable.antt =====
-- server.rs: the states that the gateway can reach, and the history of the receipts in its store.
use mathlib.Core.Path.{subst}
use sekisho.Base.{
  ◌+◌, ◌-◌, ◌<◌, length, length-append, arith, ℕ, List, [], ◌∷◌, ◌++◌, Option, some, ok, ◌≡◌, refl,
  sym, ap, ◌∙◌, All,
}
use sekisho.Text.{Str, Bytes}
use sekisho.Config.{AppConfig}
use sekisho.Receipt.{Receipt, serialize_intent_message}
use sekisho.Receipt.Stored.{StoredReceipt, ReceiptStore, stored_receipt, new_store, insert}
use sekisho.Receipt.Stored.History.{insert_all}
use sekisho.External.{External}
use sekisho.Server.{AppState, initial_state}
use sekisho.Server.Surfaces.{Surface, Call, Send}
use sekisho.Server.Upstream.{Pending, Reply, poll_stream}
use sekisho.Server.Handlers.{acquire, release, authenticate, respond}
use sekisho.Server.Handlers.Answers.{IsSigned, Answers, silent, receipted, streaming, stored_in}
use sekisho.Server.Handlers.Answers.Handle.{respond-Answers}
use sekisho.Server.Handlers.Streams.{Issues, unchanged, issued, poll_stream-Issues}

module _ (x : External) where
  -- A request whose handler has been admitted and has not returned.
  pub record Flight : Type 0 where
    pub surface : Surface
    pub call : Call
    pub caller_key : Str

  -- The states, and the requests in flight, after any steps in any order: a request of either
  -- surface gets its permit; any request in flight is answered, which is one step, as it changes the
  -- state once; a stream ends.
  pub data Reachable (config : AppConfig) (anthropic_base_url openai_base_url : Str)
      : AppState → List Flight → Type 0 where
    started :
        Reachable config anthropic_base_url openai_base_url
          (initial_state config anthropic_base_url openai_base_url)
          []
    admitted :
        (flight : Flight) (flights : List Flight) (state held : AppState)
        → Reachable config anthropic_base_url openai_base_url state flights
        → authenticate x state flight.call.headers ≡ some flight.caller_key
        → acquire state ≡ some held
        → Reachable config anthropic_base_url openai_base_url held (flight ∷ flights)
    returned :
        (front : List Flight) (flight : Flight) (back : List Flight) (state : AppState)
        (send : Send)
        → Reachable config anthropic_base_url openai_base_url state (front ++ flight ∷ back)
        → Reachable config anthropic_base_url openai_base_url
            (release (respond x flight.surface flight.call state send flight.caller_key)).state
            (front ++ back)
    polled :
        (surface : Surface) (clock : Option ℕ) (pending : Pending) (passed_on : List Bytes)
        (flights : List Flight) (state next : AppState)
        → Reachable config anthropic_base_url openai_base_url state flights
        → poll_stream x surface clock state pending ≡ some (passed_on, next)
        → Reachable config anthropic_base_url openai_base_url next flights

  -- A stored receipt that holds a signature of the enclave over a receipt with this hash of the
  -- configuration.
  pub record IsAttested (config_hash : Bytes) (stored : StoredReceipt) : Type 0 where
    pub payload : Receipt
    pub timestamp_ms : ℕ
    pub signature : Bytes
    pub signed : x.sign (serialize_intent_message payload timestamp_ms) ≡ ok signature
    pub configured : payload.config_hash ≡ config_hash
    pub stored_form : stored ≡ stored_receipt x.hex_encode payload timestamp_ms signature

  -- A state of the gateway as a history of attested receipts, with a count of free permits.
  pub record Recorded (config : AppConfig) (anthropic_base_url openai_base_url : Str) (permits : ℕ)
      (state : AppState) : Type 0 where
    pub history : List StoredReceipt
    pub attested : All (IsAttested config.config_hash) history
    pub recorded : state ≡ record (initial_state config anthropic_base_url openai_base_url) {
      permits = permits;
      receipts = insert_all (new_store config.receipt_ring_buffer_size) history;
    }

  acquired :
      (state held : AppState)
      → acquire state ≡ some held
      → (0 < state.permits) × (held ≡ record state { permits = state.permits - 1 })
  acquired state held h = ground arith

  insert_all-snoc :
      (store : ReceiptStore) (rs : List StoredReceipt) (r : StoredReceipt)
      → insert_all store (rs ++ r ∷ []) ≡ insert (insert_all store rs) r
  insert_all-snoc store [] r = refl
  insert_all-snoc store (q ∷ rs) r = insert_all-snoc (insert store q) rs r

  All-snoc {ℓ κ} :
      {A : Type ℓ} (P : A → Type κ) (xs : List A) (a : A) → All P xs → P a → All P (xs ++ a ∷ [])
  All-snoc P [] a h p = (p, tt)
  All-snoc P (y ∷ xs) a (h, hs) p = (h, All-snoc P xs a hs p)

  module _ (config : AppConfig) (anthropic_base_url openai_base_url : Str) where
    abbrev IsRecorded : ℕ → AppState → Type 0
    IsRecorded = Recorded config anthropic_base_url openai_base_url

    IsRecorded-stored :
        (n : ℕ) (state : AppState) (payload : Receipt) (timestamp_ms : ℕ) (signature : Bytes)
        → IsRecorded n state
        → IsSigned x state payload timestamp_ms signature
        → IsRecorded n (stored_in x state payload timestamp_ms signature)
    unfolding initial_state
    IsRecorded-stored n state payload timestamp_ms signature r s =
        let stored = stored_receipt x.hex_encode payload timestamp_ms signature in
        record {
          history = r.history ++ stored ∷ [];
          attested = All-snoc (IsAttested config.config_hash) r.history stored r.attested (record {
            payload = payload;
            timestamp_ms = timestamp_ms;
            signature = signature;
            signed = s.signed;
            configured = s.configured ∙ ap (λ t. t.config.config_hash) r.recorded;
            stored_form = refl;
          });
          recorded =
              ap {A = AppState} {B = AppState}
                (λ t. record t { receipts = insert t.receipts stored }) r.recorded
              ∙ ap {B = AppState}
                  (λ q. record (initial_state config anthropic_base_url openai_base_url) {
                    permits = n;
                    receipts = q;
                  })
                  (sym
                    (insert_all-snoc (new_store config.receipt_ring_buffer_size) r.history stored));
        }

    IsRecorded-Answers :
        (n : ℕ) (state : AppState) (reply : Reply)
        → IsRecorded n state
        → Answers x state reply
        → IsRecorded n reply.state
    IsRecorded-Answers n state reply r (silent a b c) = subst (IsRecorded n) (sym c) r
    IsRecorded-Answers n state reply r (receipted payload timestamp_ms signature s a b c g) =
        subst (IsRecorded n) (sym c) (IsRecorded-stored n state payload timestamp_ms signature r s)
    IsRecorded-Answers n state reply r (streaming pending id a b c e) =
        subst (IsRecorded n) (sym e) r

    IsRecorded-Issues :
        (n : ℕ) (state : AppState) (id : Bytes) (next : AppState)
        → IsRecorded n state
        → Issues x state id next
        → IsRecorded n next
    IsRecorded-Issues n state id next r (unchanged c) = subst (IsRecorded n) (sym c) r
    IsRecorded-Issues n state id next r (issued payload timestamp_ms signature s a c) =
        subst (IsRecorded n) (sym c) (IsRecorded-stored n state payload timestamp_ms signature r s)

    IsRecorded-release :
        (n : ℕ) (reply : Reply)
        → IsRecorded n reply.state
        → IsRecorded (n + 1) (release reply).state
    unfolding initial_state
    IsRecorded-release n reply r = record {
      history = r.history;
      attested = r.attested;
      recorded =
          ap {A = AppState} {B = AppState} (λ t. record t { permits = t.permits + 1 }) r.recorded;
    }

    IsRecorded-acquire :
        (n : ℕ) (state held : AppState)
        → IsRecorded n state
        → acquire state ≡ some held
        → (0 < n) × IsRecorded (n - 1) held
    unfolding initial_state
    IsRecorded-acquire n state held r h =
        let (positive, e) = acquired state held h in
        let kept : state.permits ≡ n = ap (λ t. t.permits) r.recorded in
        (
          omega (arith, positive, kept),
          record {
            history = r.history;
            attested = r.attested;
            recorded =
                e
                ∙ ap {A = AppState} {B = AppState} (λ t. record t { permits = t.permits - 1 })
                    r.recorded;
          },
        )

    -- The permits and the requests in flight make up the limit.
    pub record Counted (state : AppState) (flights : List Flight) : Type 0 where
      pub permits : ℕ
      pub counted : permits + length flights ≡ config.concurrency_limit
      pub recorded : IsRecorded permits state

    -- In any state that the gateway can reach, the free permits and the requests in flight make up
    -- the limit of the configuration, which has not changed, and the store is what a history of
    -- receipts leaves in a new one: each of them signed by the enclave, under the hash of the
    -- configuration.
    pub Reachable-Counted :
        (state : AppState) (flights : List Flight)
        → Reachable config anthropic_base_url openai_base_url state flights
        → Counted state flights
    unfolding initial_state
    Reachable-Counted _ _ started = record {
      permits = config.concurrency_limit;
      counted = omega arith;
      recorded = record { history = []; attested = tt; recorded = refl };
    }
    Reachable-Counted _ _ (admitted flight flights state held h a q) =
        let c = Reachable-Counted state flights h in
        let (positive, r) = IsRecorded-acquire c.permits state held c.recorded q in
        record {
          permits = c.permits - 1;
          counted = omega (arith, c.counted, positive);
          recorded = r;
        }
    Reachable-Counted _ _ (returned front flight back state send h) =
        let c = Reachable-Counted state (front ++ flight ∷ back) h in
        let reply = respond x flight.surface flight.call state send flight.caller_key in
        record {
          permits = c.permits + 1;
          counted =
              omega
                (arith, c.counted, length-append front (flight ∷ back), length-append front back);
          recorded = IsRecorded-release c.permits reply (
              IsRecorded-Answers c.permits state reply c.recorded
                (respond-Answers x flight.surface flight.call state send flight.caller_key));
        }
    Reachable-Counted _ _ (polled surface clock pending passed_on flights state next h e) =
        let c = Reachable-Counted state flights h in
        record {
          permits = c.permits;
          counted = c.counted;
          recorded =
              IsRecorded-Issues c.permits state _ next c.recorded
                (poll_stream-Issues x surface clock state pending passed_on next e);
        }
