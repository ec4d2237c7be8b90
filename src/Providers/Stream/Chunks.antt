-- ===== src/Providers/Stream/Chunks.antt =====
-- Feeding a text in two parts is feeding it in one, and the loop ends with no piece left over.
use sekisho.Base.{
  ℕ, zero, suc, ◌≤◌, ◌<◌, [], ◌∷◌, ◌++◌, ◌≡◌, refl, sym, ap, ◌∙◌, arith, Option, none, some, length,
  Option-cases, inl, inr,
}
use sekisho.Text.{Str}
use sekisho.Providers.Stream.{split_line, split_event, drain_loop, drain}

-- What both ways to split do: they take something, and bytes behind the first piece do not matter.
pub record IsSplit (split : Str → Option (Str × Str)) : Type 0 where
  pub shorter : (s piece rest : Str) → split s ≡ some (piece, rest) → length rest < length s
  pub stable :
      (s t piece rest : Str)
      → split s ≡ some (piece, rest)
      → split (s ++ t) ≡ some (piece, rest ++ t)

split_line-shorter :
    (s piece rest : Str) → split_line s ≡ some (piece, rest) → length rest < length s
unfolding split_line
split_line-shorter [] piece rest e = cc
split_line-shorter (c ∷ s) piece rest e = elim (Option-cases (split_line s)) [
  | inl n ↦ ground (arith, n)
  | inr ((p, r), n) ↦ ground (arith, n, split_line-shorter s p r n)
]

split_line-stable :
    (s t piece rest : Str)
    → split_line s ≡ some (piece, rest)
    → split_line (s ++ t) ≡ some (piece, rest ++ t)
unfolding split_line
split_line-stable [] t piece rest e = cc
split_line-stable (c ∷ s) t piece rest e = elim (Option-cases (split_line s)) [
  | inl n ↦ ground (arith, n)
  | inr ((p, r), n) ↦ ground (arith, n, split_line-stable s t p r n)
]

split_event-shorter :
    (s piece rest : Str) → split_event s ≡ some (piece, rest) → length rest < length s
unfolding split_event
split_event-shorter [] piece rest e = cc
split_event-shorter (c ∷ []) piece rest e = cc
split_event-shorter (c ∷ d ∷ s) piece rest e = elim (Option-cases (split_event (d ∷ s))) [
  | inl n ↦ ground (arith, n)
  | inr ((p, r), n) ↦ ground (arith, n, split_event-shorter (d ∷ s) p r n)
]

split_event-stable :
    (s t piece rest : Str)
    → split_event s ≡ some (piece, rest)
    → split_event (s ++ t) ≡ some (piece, rest ++ t)
unfolding split_event
split_event-stable [] t piece rest e = cc
split_event-stable (c ∷ []) t piece rest e = cc
split_event-stable (c ∷ d ∷ s) t piece rest e = elim (Option-cases (split_event (d ∷ s))) [
  | inl n ↦ ground (arith, n)
  | inr ((p, r), n) ↦ ground (arith, n, split_event-stable (d ∷ s) t p r n)
]

pub split_line-IsSplit : IsSplit split_line
split_line-IsSplit = record { shorter = split_line-shorter; stable = split_line-stable }

pub split_event-IsSplit : IsSplit split_event
split_event-IsSplit = record { shorter = split_event-shorter; stable = split_event-stable }

module _ {S : Type 0} {split : Str → Option (Str × Str)} (is_split : IsSplit split)
    (handle : S → Str → S) where
  -- More fuel than the buffer is long changes nothing.
  drain_loop_fuel :
      (f g : ℕ) (state : S) (buffer : Str)
      → length buffer ≤ f
      → length buffer ≤ g
      → drain_loop split handle f state buffer ≡ drain_loop split handle g state buffer
  unfolding drain_loop
  drain_loop_fuel zero zero state buffer hf hg = refl
  drain_loop_fuel zero (suc g) state buffer hf hg = elim (Option-cases (split buffer)) [
    | inl n ↦ ground (arith, n)
    | inr ((p, r), n) ↦ absurd (omega (arith, is_split.shorter buffer p r n))
  ]
  drain_loop_fuel (suc f) zero state buffer hf hg = elim (Option-cases (split buffer)) [
    | inl n ↦ ground (arith, n)
    | inr ((p, r), n) ↦ absurd (omega (arith, is_split.shorter buffer p r n))
  ]
  drain_loop_fuel (suc f) (suc g) state buffer hf hg = elim (Option-cases (split buffer)) [
    | inl n ↦ ground (arith, n)
    | inr ((p, r), n) ↦
        ground (arith, n, is_split.shorter buffer p r n, drain_loop_fuel f g (handle state p) r)
  ]

  drain_step :
      (state : S) (buffer p r : Str)
      → split buffer ≡ some (p, r)
      → drain split handle state buffer ≡ drain split handle (handle state p) r
  unfolding drain drain_loop
  drain_step state [] p r n = absurd (omega (arith, is_split.shorter [] p r n))
  drain_step state (c ∷ s) p r n = ground (
    arith,
    n,
    is_split.shorter (c ∷ s) p r n,
    drain_loop_fuel (length s) (length r) (handle state p) r,
  )

  drain_stop :
      (state : S) (buffer : Str)
      → split buffer ≡ none
      → drain split handle state buffer ≡ (state, buffer)
  unfolding drain drain_loop
  drain_stop state [] n = refl
  drain_stop state (c ∷ s) n = ground (arith, n)

  loop_done :
      (f : ℕ) (state : S) (buffer : Str)
      → length buffer ≤ f
      → split (drain_loop split handle f state buffer).1 ≡ none
  unfolding drain_loop
  loop_done zero state buffer h = elim (Option-cases (split buffer)) [
    | inl n ↦ n
    | inr ((p, r), n) ↦ absurd (omega (arith, is_split.shorter buffer p r n))
  ]
  loop_done (suc f) state buffer h = elim (Option-cases (split buffer)) [
    | inl n ↦ ground (arith, n)
    | inr ((p, r), n) ↦
        ground (arith, n, is_split.shorter buffer p r n, loop_done f (handle state p) r)
  ]

  -- The loop stops where no piece is left.
  pub drain_done : (state : S) (buffer : Str) → split (drain split handle state buffer).1 ≡ none
  unfolding drain
  drain_done state buffer = loop_done (length buffer) state buffer (omega arith)

  abbrev fed_in_two : S × Str → Str → S × Str
  fed_in_two (state, left) back = drain split handle state (left ++ back)

  loop-append :
      (f : ℕ) (state : S) (front back : Str)
      → drain split handle state (front ++ back)
        ≡ fed_in_two (drain_loop split handle f state front) back
  unfolding drain_loop
  loop-append zero state front back = refl
  loop-append (suc f) state front back = elim (Option-cases (split front)) [
    | inl n ↦ ground (arith, n)
    | inr ((p, r), n) ↦ ground (
      arith,
      n,
      drain_step state (front ++ back) p (r ++ back) (is_split.stable front back p r n),
      loop-append f (handle state p) r back,
    )
  ]

  drain-loop :
      (state : S) (buffer : Str)
      → drain split handle state buffer ≡ drain_loop split handle (length buffer) state buffer
  unfolding drain
  drain-loop state buffer = refl

  -- Draining a buffer that goes on is draining its front first and what is left with the rest.
  pub drain-append :
      (state : S) (front back : Str)
      → drain split handle state (front ++ back)
        ≡ drain split handle
            (drain split handle state front).0
            ((drain split handle state front).1 ++ back)
  drain-append state front back =
      loop-append (length front) state front back
      ∙ ap (λ fed. fed_in_two fed back) (sym (drain-loop state front))
