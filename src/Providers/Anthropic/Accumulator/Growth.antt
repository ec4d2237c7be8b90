-- ===== src/Providers/Anthropic/Accumulator/Growth.antt =====
-- Which events of a stream end the process: the vector of blocks grows to the index of an event, or fails.
use sekisho.Base.{
  ℕ, zero, suc, ◌+◌, ◌-◌, ◌<◌, ◌≤◌, ◌^◌, ltb, leb, not, ◌==◌, ◌&&◌, ◌||◌, Bool, true, false, List,
  [], ◌∷◌, Option, none, some, ◌≡◌, ◌⊎◌, refl, ap, same, unwrap_or, length, length-append, ==_iff,
  replicate, arith, Bool-cases, inl, inr, same_sound,
}
use mathlib.Core.Path.{subst}
use sekisho.Text.{lit}
use sekisho.Json.{Value, null, get}
use sekisho.Providers.Anthropic.{text_at}
use sekisho.Providers.Anthropic.Accumulator.{
  AccBlock, Accumulated, from_start, store, amend, pushed, ensure_len, next_index, index_of,
  message_start, content_block_start, content_block_delta, message_delta, apply_event,
}
use sekisho.Providers.Anthropic.Accumulator.Blocks.{length-replicate, ensure_len_lem}

-- An event that ends the process: it starts a block above what the vector can grow to, or is a delta
-- there. A delta at the last index of 64 bits wraps around, so that nothing is pushed.
abbrev pub ends_process : ℕ → Value → Bool
ends_process max event =
    ltb max (index_of event + 1)
    && (same (text_at (lit "type") event) (lit "content_block_start")
        || (same (text_at (lit "type") event) (lit "content_block_delta")
            && not (index_of event + 1 == 2 ^ 64)))

length-pushed-max :
    (max : ℕ) (blocks : List (Option AccBlock)) (len : ℕ)
    → length blocks ≤ max
    → len ≤ max
    → (length (pushed blocks len) ≤ max) × (len ≤ length (pushed blocks len))
length-pushed-max max blocks len h g =
    let grown = length-append blocks (replicate (len - length blocks) none) in
    let pad = length-replicate (len - length blocks) in
    (omega (arith, h, g, grown, pad), omega (arith, h, g, grown, pad))

-- A vector that cannot grow ends the process.
ensure_len_fails :
    (max : ℕ) (blocks : List (Option AccBlock)) (len : ℕ)
    → length blocks ≤ max
    → max < len
    → ensure_len max blocks len ≡ none
unfolding ensure_len
ensure_len_fails max blocks len h g =
    let short : leb len (length blocks) ≡ false = ground (arith, h, g) in
    let beyond : leb len max ≡ false = ground (arith, g) in rw (ensure_len, short, beyond) refl

store_out :
    (blocks : List (Option AccBlock)) (index : ℕ) (block : AccBlock)
    → length blocks ≤ index
    → store blocks index block ≡ none
unfolding store
store_out [] index block h = refl
store_out (b ∷ bs) zero block h = absurd (omega (arith, h))
store_out (b ∷ bs) (suc index) block h = rw (store_out bs index block (omega (arith, h))) refl

store_in :
    (blocks : List (Option AccBlock)) (index : ℕ) (block : AccBlock)
    → index < length blocks
    → (next : List (Option AccBlock)) × (store blocks index block ≡ some next)
      × (length next ≡ length blocks)
unfolding store
store_in [] index block h = absurd (omega (arith, h))
store_in (b ∷ bs) zero block h = (some block ∷ bs, refl, refl)
store_in (b ∷ bs) (suc index) block h =
    let (next, e, l) = store_in bs index block (omega (arith, h)) in
    (b ∷ next, rw (store, e) refl, ap suc l)

length-amend :
    (blocks : List (Option AccBlock)) (index : ℕ) (delta : Value)
    → length (amend blocks index delta) ≡ length blocks
unfolding amend
length-amend [] index delta = refl
length-amend (b ∷ bs) zero delta = refl
length-amend (b ∷ bs) (suc index) delta = ap suc (length-amend bs index delta)

-- The end exactly where `ends` says so, and else a vector within its limit.
abbrev pub Ends : ℕ → Bool → Option Accumulated → Type 0
Ends max ends result =
    ((ends ≡ true) × (result ≡ none))
    ⊎ ((ends ≡ false) × (next : Accumulated) × (result ≡ some next) × (length next.blocks ≤ max))

-- The index after the last one is 0, and each other is the next number.
next_index-cases :
    (index : ℕ)
    → index < 2 ^ 64
    → (((index + 1 == 2 ^ 64) ≡ true) × (index + 1 ≡ 2 ^ 64) × (next_index index ≡ 0))
      ⊎ (((index + 1 == 2 ^ 64) ≡ false) × (next_index index ≡ index + 1))
next_index-cases index h = elim (Bool-cases (index + 1 == 2 ^ 64)) [
  | inl e ↦
      let last : index + 1 ≡ 2 ^ 64 = (==_iff (index + 1) (2 ^ 64)).0 e in
      inl (e, last, omega (arith, last))
  | inr e ↦ inr (e, inside index e h)
]
  where
    inside : (n : ℕ) → (n + 1 == 2 ^ 64) ≡ false → n < 2 ^ 64 → next_index n ≡ n + 1
    inside n e lt = let below : n + 1 < 2 ^ 64 = ground (arith, e, lt) in omega (arith, below)

content_block_start-Ends :
    (max : ℕ) (acc : Accumulated) (event : Value)
    → max < 2 ^ 64
    → length acc.blocks ≤ max
    → index_of event < 2 ^ 64
    → Ends max (ltb max (index_of event + 1)) (content_block_start max acc event)
unfolding content_block_start
content_block_start-Ends max acc event m h i =
    let index = index_of event in
    let block = from_start (unwrap_or null (get (lit "content_block") event)) in
    elim (next_index-cases index i) [
      | inl (e, last, wrapped) ↦
          let kept : ensure_len max acc.blocks (next_index index)
              ≡ some (pushed acc.blocks (next_index index)) =
            ensure_len_lem max acc.blocks (next_index index) (omega (arith, wrapped)) in
          let (within, _) =
            length-pushed-max max acc.blocks (next_index index) h (omega (arith, wrapped)) in
          inl (
            ground (arith, last, m),
            rw
                (
                  content_block_start,
                  kept,
                  store_out (pushed acc.blocks (next_index index)) index block
                      (omega (arith, m, last, within)),
                )
                refl,
          )
      | inr (e, following) ↦ elim (Bool-cases (ltb max (index + 1))) [
        | inl b ↦
            let beyond : max < next_index index = rw following (ground (arith, b)) in
            inl (
              b,
              rw (content_block_start, ensure_len_fails max acc.blocks (next_index index) h beyond)
                  refl,
            )
        | inr b ↦
            let fits : next_index index ≤ max = rw following (ground (arith, b)) in
            let (within, long) = length-pushed-max max acc.blocks (next_index index) h fits in
            let (blocks, s, l) =
              store_in (pushed acc.blocks (next_index index)) index block
                (omega (arith, long, following)) in
            inr (
              b,
              record acc { blocks = blocks },
              rw (content_block_start, ensure_len_lem max acc.blocks (next_index index) fits, s)
                  refl,
              omega (arith, l, within),
            )
      ]
    ]

content_block_delta-Ends :
    (max : ℕ) (acc : Accumulated) (event : Value)
    → length acc.blocks ≤ max
    → index_of event < 2 ^ 64
    → Ends max
        (ltb max (index_of event + 1) && not (index_of event + 1 == 2 ^ 64))
        (content_block_delta max acc event)
unfolding content_block_delta
content_block_delta-Ends max acc event h i =
    let index = index_of event in
    let delta = unwrap_or null (get (lit "delta") event) in
    let goes_on : next_index index ≤ max
        → (next : Accumulated) × (content_block_delta max acc event ≡ some next)
          × (length next.blocks ≤ max) =
      λ fits. (
        record acc { blocks = amend (pushed acc.blocks (next_index index)) index delta },
        rw (content_block_delta, ensure_len_lem max acc.blocks (next_index index) fits) refl,
        omega (
          arith,
          (length-pushed-max max acc.blocks (next_index index) h fits).0,
          length-amend (pushed acc.blocks (next_index index)) index delta,
        ),
      ) in
    elim (next_index-cases index i) [
      | inl (e, last, wrapped) ↦
          let (next, q, l) = goes_on (omega (arith, wrapped)) in
          inr (rw e (ground arith), next, q, l)
      | inr (e, following) ↦ elim (Bool-cases (ltb max (index + 1))) [
        | inl b ↦
            let beyond : max < next_index index = rw following (ground (arith, b)) in
            inl (
              rw (e, b) refl,
              rw (content_block_delta, ensure_len_fails max acc.blocks (next_index index) h beyond)
                  refl,
            )
        | inr b ↦
            let (next, q, l) = goes_on (rw following (ground (arith, b))) in
            inr (rw b refl, next, q, l)
      ]
    ]

pub apply_event-Ends :
    (max : ℕ) (acc : Accumulated) (event : Value)
    → max < 2 ^ 64
    → length acc.blocks ≤ max
    → index_of event < 2 ^ 64
    → Ends max (ends_process max event) (apply_event max acc event)
unfolding apply_event message_start message_delta
apply_event-Ends max acc event m h i =
    let kind = text_at (lit "type") event in
    let beyond = ltb max (index_of event + 1) in
    let inner = not (index_of event + 1 == 2 ^ 64) in
    elim (Bool-cases (same kind (lit "message_start"))) [
      | inl e ↦ inr (
        rw (same_sound kind (lit "message_start") e) (and_false beyond),
        message_start acc event,
        rw (apply_event, e) refl,
        h,
      )
      | inr s ↦ elim (Bool-cases (same kind (lit "content_block_start"))) [
        | inl e ↦
            rw (apply_event, s, e)
              (subst (λ b. Ends max b (content_block_start max acc event)) (and_true beyond inner)
                (content_block_start-Ends max acc event m h i))
        | inr b ↦ elim (Bool-cases (same kind (lit "content_block_delta"))) [
          | inl e ↦ rw (apply_event, s, b, e) (content_block_delta-Ends max acc event h i)
          | inr c ↦ elim (Bool-cases (same kind (lit "message_delta"))) [
            | inl e ↦ inr (
              rw (b, c) (and_false beyond),
              message_delta acc event,
              rw (apply_event, s, b, c, e) refl,
              h,
            )
            | inr e ↦ inr (rw (b, c) (and_false beyond), acc, rw (apply_event, s, b, c, e) refl, h)
          ]
        ]
      ]
    ]
  where
    and_false : (b : Bool) → (b && false) ≡ false
    and_false b = ground arith

    and_true : (b c : Bool) → b ≡ (b && (true || c))
    and_true b c = ground arith
