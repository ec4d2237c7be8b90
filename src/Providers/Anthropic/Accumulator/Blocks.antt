-- ===== src/Providers/Anthropic/Accumulator/Blocks.antt =====
-- The blocks of a streamed response: each is made by the event that starts it and the deltas at its index.
use sekisho.Base.{
  ℕ, zero, suc, ◌+◌, ◌-◌, ◌<◌, ◌≤◌, leb, ◌^◌, ◌==◌, Bool, true, false, List, [], ◌∷◌, ◌++◌, Option,
  none, some, ◌≡◌, refl, sym, ap, ◌∙◌, if◌then◌else◌, same, unwrap_or, map_option, length,
  length-append, replicate, arith, Bool-cases, inl, inr, same_sound,
}
use sekisho.Text.{lit}
use sekisho.Json.{Value, null, get}
use sekisho.Providers.Anthropic.{text_at}
use sekisho.Providers.Anthropic.Accumulator.{
  AccBlock, Accumulated, from_start, apply_delta, store, amend, pushed, ensure_len, next_index,
  index_of, message_start, content_block_start, content_block_delta, message_delta, apply_event,
}

-- The block at an index, if the response has one there.
abbrev pub block_at : ℕ → List (Option AccBlock) → Option AccBlock
block_at k [] = none
block_at zero (b ∷ bs) = b
block_at (suc k) (b ∷ bs) = block_at k bs

-- What an event makes of the block at an index.
abbrev pub changed : ℕ → Value → Option AccBlock → Option AccBlock
changed k event block =
    if k == index_of event
    then (if same (text_at (lit "type") event) (lit "content_block_start")
        then some (from_start (unwrap_or null (get (lit "content_block") event)))
        else if same (text_at (lit "type") event) (lit "content_block_delta")
        then map_option (λ b. apply_delta b (unwrap_or null (get (lit "delta") event))) block
        else block)
    else block

abbrev pub block_after : ℕ → List Value → Option AccBlock → Option AccBlock
block_after k [] block = block
block_after k (event ∷ events) block = block_after k events (changed k event block)

block_at-none : (k n : ℕ) → block_at k (replicate n none) ≡ none
block_at-none k zero = refl
block_at-none zero (suc n) = refl
block_at-none (suc k) (suc n) = block_at-none k n

block_at-padded :
    (k n : ℕ) (blocks : List (Option AccBlock))
    → block_at k (blocks ++ replicate n none) ≡ block_at k blocks
block_at-padded k n [] = block_at-none k n
block_at-padded zero n (b ∷ bs) = refl
block_at-padded (suc k) n (b ∷ bs) = block_at-padded k n bs

pub length-replicate : (n : ℕ) → length (replicate {A = Option AccBlock} n none) ≡ n
length-replicate zero = refl
length-replicate (suc n) = ap suc (length-replicate n)

-- A vector that can grow is made long enough.
pub ensure_len_lem :
    (max : ℕ) (blocks : List (Option AccBlock)) (len : ℕ)
    → len ≤ max
    → ensure_len max blocks len ≡ some (pushed blocks len)
unfolding ensure_len
ensure_len_lem max blocks len h =
    let fits : leb len max ≡ true = ground (arith, h) in ground (arith, fits)

length-pushed :
    (blocks : List (Option AccBlock)) (index : ℕ)
    → index + 1 < 2 ^ 64
    → index < length (pushed blocks (next_index index))
length-pushed blocks index h = omega (
  arith,
  h,
  length-append blocks (replicate (next_index index - length blocks) none),
  length-replicate (next_index index - length blocks),
)

store_total :
    (k index : ℕ) (block : AccBlock) (blocks : List (Option AccBlock))
    → index < length blocks
    → (next : List (Option AccBlock)) × (store blocks index block ≡ some next)
      × (block_at k next ≡ (if k == index then some block else block_at k blocks))
unfolding store
store_total k index block [] h = absurd (omega (arith, h))
store_total zero zero block (b ∷ bs) h = (some block ∷ bs, refl, refl)
store_total (suc k) zero block (b ∷ bs) h = (some block ∷ bs, refl, ground arith)
store_total zero (suc index) block (b ∷ bs) h =
    let (next, e, _) = store_total zero index block bs (omega (arith, h)) in
    (b ∷ next, rw (store, e) refl, ground arith)
store_total (suc k) (suc index) block (b ∷ bs) h =
    let (next, e, l) = store_total k index block bs (omega (arith, h)) in
    (b ∷ next, rw (store, e) refl, ground (arith, l))

block_at-amend :
    (k index : ℕ) (delta : Value) (blocks : List (Option AccBlock))
    → block_at k (amend blocks index delta) ≡ (
        if k == index
        then map_option (λ b. apply_delta b delta) (block_at k blocks)
        else block_at k blocks)
unfolding amend
block_at-amend k index delta [] = ground arith
block_at-amend zero zero delta (b ∷ bs) = refl
block_at-amend (suc k) zero delta (b ∷ bs) = ground arith
block_at-amend zero (suc index) delta (b ∷ bs) = ground arith
block_at-amend (suc k) (suc index) delta (b ∷ bs) = ground (arith, block_at-amend k index delta bs)

-- The two events that are about a block.
content_block_start_total :
    (k max : ℕ) (acc : Accumulated) (event : Value)
    → max < 2 ^ 64
    → index_of event + 1 ≤ max
    → (next : Accumulated) × (content_block_start max acc event ≡ some next)
      × (block_at k next.blocks ≡ (
          if k == index_of event
          then some (from_start (unwrap_or null (get (lit "content_block") event)))
          else block_at k acc.blocks))
unfolding content_block_start
content_block_start_total k max acc event m h =
    let index = index_of event in
    let padded = pushed acc.blocks (next_index index) in
    let block = from_start (unwrap_or null (get (lit "content_block") event)) in
    let (blocks, e, l) =
      store_total k index block padded (length-pushed acc.blocks index (omega (arith, m, h))) in
    let grown = ensure_len_lem max acc.blocks (next_index index) (omega (arith, m, h)) in
    (
      record acc { blocks = blocks },
      rw (content_block_start, grown, e) refl,
      rw (l, block_at-padded k (next_index index - length acc.blocks) acc.blocks) refl,
    )

content_block_delta_total :
    (k max : ℕ) (acc : Accumulated) (event : Value)
    → max < 2 ^ 64
    → index_of event + 1 ≤ max
    → (next : Accumulated) × (content_block_delta max acc event ≡ some next)
      × (block_at k next.blocks ≡ (
          if k == index_of event
          then map_option
              (λ b. apply_delta b (unwrap_or null (get (lit "delta") event)))
              (block_at k acc.blocks)
          else block_at k acc.blocks))
unfolding content_block_delta amend
content_block_delta_total k max acc event m h =
    let index = index_of event in
    let delta = unwrap_or null (get (lit "delta") event) in
    let grown = ensure_len_lem max acc.blocks (next_index index) (omega (arith, m, h)) in
    (
      record acc { blocks = amend (pushed acc.blocks (next_index index)) index delta },
      rw (content_block_delta, grown) refl,
      block_at-amend k index delta (pushed acc.blocks (next_index index))
          ∙ ap
              (λ b.
                if k == index
                then map_option (λ a. apply_delta a (unwrap_or null (get (lit "delta") event))) b
                else b)
              (block_at-padded k (next_index index - length acc.blocks) acc.blocks),
    )

if_same : (b : Bool) (block : Option AccBlock) → (if b then block else block) ≡ block
if_same true block = refl
if_same false block = refl

-- Every event is applied: the vector grows to the index, so that the process goes on.
pub apply_event_total :
    (k max : ℕ) (acc : Accumulated) (event : Value)
    → max < 2 ^ 64
    → index_of event + 1 ≤ max
    → (next : Accumulated) × (apply_event max acc event ≡ some next)
      × (block_at k next.blocks ≡ changed k event (block_at k acc.blocks))
unfolding apply_event message_start message_delta
apply_event_total k max acc event m h =
    let kind = text_at (lit "type") event in
    elim (Bool-cases (same kind (lit "message_start"))) [
      | inl e ↦ (
        message_start acc event,
        rw (apply_event, e) refl,
        rw (same_sound kind (lit "message_start") e) (sym (if_same (k == index_of event) _)),
      )
      | inr s ↦ elim (Bool-cases (same kind (lit "content_block_start"))) [
        | inl e ↦
            let (next, q, l) = content_block_start_total k max acc event m h in
            (next, rw (apply_event, s, e) q, rw e l)
        | inr b ↦ elim (Bool-cases (same kind (lit "content_block_delta"))) [
          | inl e ↦
              let (next, q, l) = content_block_delta_total k max acc event m h in
              (next, rw (apply_event, s, b, e) q, rw (b, e) l)
          | inr c ↦ elim (Bool-cases (same kind (lit "message_delta"))) [
            | inl e ↦ (
              message_delta acc event,
              rw (apply_event, s, b, c, e) refl,
              rw (b, c) (sym (if_same (k == index_of event) _)),
            )
            | inr e ↦ (
              acc,
              rw (apply_event, s, b, c, e) refl,
              rw (b, c) (sym (if_same (k == index_of event) _)),
            )
          ]
        ]
      ]
    ]
