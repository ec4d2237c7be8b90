-- ===== src/Move/Checkpoint/Matching.antt =====
-- checkpoint.move: the first approved entry with the measurements of an enclave.
use sekisho.Base.{
  ℕ, zero, suc, ◌+◌, ◌<◌, true, false, List, [], ◌∷◌, some, ok, ◌≡◌, refl, ap, ◌∙◌, arith,
  Bool-cases, inl, inr, same_refl, same_sound,
}
use sekisho.Text.{Bytes}
use sekisho.Move.Checkpoint.{PcrSet, Checkpoint, borrow, has_pcrs, find_from, find_matching_entry}

-- The first approved entry with a triple.
pub record FirstWith (entries : List PcrSet) (pcr0 pcr1 pcr2 : Bytes) (version : ℕ) : Type 0 where
  pub entry : PcrSet
  pub found : borrow entries version ≡ ok entry
  pub has_pcr0 : entry.pcr0 ≡ pcr0
  pub has_pcr1 : entry.pcr1 ≡ pcr1
  pub has_pcr2 : entry.pcr2 ≡ pcr2
  pub first :
      (earlier : ℕ) (e : PcrSet)
      → earlier < version
      → borrow entries earlier ≡ ok e
      → has_pcrs e pcr0 pcr1 pcr2 ≡ false

has_pcrs_sound :
    (e : PcrSet) (pcr0 pcr1 pcr2 : Bytes)
    → has_pcrs e pcr0 pcr1 pcr2 ≡ true
    → (e.pcr0 ≡ pcr0) × (e.pcr1 ≡ pcr1) × (e.pcr2 ≡ pcr2)
has_pcrs_sound e pcr0 pcr1 pcr2 h = (
  same_sound e.pcr0 pcr0 (ground arith),
  same_sound e.pcr1 pcr1 (ground arith),
  same_sound e.pcr2 pcr2 (ground arith),
)

has_pcrs_complete :
    (e : PcrSet) (pcr0 pcr1 pcr2 : Bytes)
    → e.pcr0 ≡ pcr0
    → e.pcr1 ≡ pcr1
    → e.pcr2 ≡ pcr2
    → has_pcrs e pcr0 pcr1 pcr2 ≡ true
has_pcrs_complete e pcr0 pcr1 pcr2 a b c =
    rw (a, b, c, same_refl pcr0, same_refl pcr1, same_refl pcr2) refl

first_tail :
    (x : PcrSet) (xs : List PcrSet) (pcr0 pcr1 pcr2 : Bytes) (k : ℕ)
    → has_pcrs x pcr0 pcr1 pcr2 ≡ false
    → FirstWith xs pcr0 pcr1 pcr2 k
    → FirstWith (x ∷ xs) pcr0 pcr1 pcr2 (suc k)
unfolding borrow
first_tail x xs pcr0 pcr1 pcr2 k n f = record {
  entry = f.entry;
  found = f.found;
  has_pcr0 = f.has_pcr0;
  has_pcr1 = f.has_pcr1;
  has_pcr2 = f.has_pcr2;
  first = none_before;
}
  where
    none_before :
        (j : ℕ) (e : PcrSet)
        → j < suc k
        → borrow (x ∷ xs) j ≡ ok e
        → has_pcrs e pcr0 pcr1 pcr2 ≡ false
    none_before zero e lt b = cc (b, n)
    none_before (suc j) e lt b = f.first j e (omega arith) b

find_from_sound :
    (entries : List PcrSet) (i version : ℕ) (pcr0 pcr1 pcr2 : Bytes)
    → find_from entries i pcr0 pcr1 pcr2 ≡ some version
    → (k : ℕ) × (version ≡ i + k) × FirstWith entries pcr0 pcr1 pcr2 k
unfolding find_from borrow
find_from_sound [] i version pcr0 pcr1 pcr2 h = absurd (cc h)
find_from_sound (x ∷ xs) i version pcr0 pcr1 pcr2 h =
    elim (Bool-cases (has_pcrs x pcr0 pcr1 pcr2)) [
      | inl a ↦
          let (e0, e1, e2) = has_pcrs_sound x pcr0 pcr1 pcr2 a in
          (
            0,
            ground arith,
            record {
              entry = x;
              found = refl;
              has_pcr0 = e0;
              has_pcr1 = e1;
              has_pcr2 = e2;
              first = λ j e lt b. absurd (omega arith);
            },
          )
      | inr a ↦
          let (k, eq, f) = find_from_sound xs (i + 1) version pcr0 pcr1 pcr2 (rw a at h) in
          (suc k, omega (arith, eq), first_tail x xs pcr0 pcr1 pcr2 k a f)
    ]

find_from_complete :
    (entries : List PcrSet) (i k : ℕ) (pcr0 pcr1 pcr2 : Bytes)
    → FirstWith entries pcr0 pcr1 pcr2 k
    → find_from entries i pcr0 pcr1 pcr2 ≡ some (i + k)
unfolding find_from borrow
find_from_complete [] i k pcr0 pcr1 pcr2 f = absurd (cc f.found)
find_from_complete (x ∷ xs) i zero pcr0 pcr1 pcr2 f =
    let same_entry : x ≡ f.entry = cc f.found in
    let a : has_pcrs x pcr0 pcr1 pcr2 ≡ true =
      has_pcrs_complete x pcr0 pcr1 pcr2 (ap (λ e. e.pcr0) same_entry ∙ f.has_pcr0)
        (ap (λ e. e.pcr1) same_entry ∙ f.has_pcr1) (ap (λ e. e.pcr2) same_entry ∙ f.has_pcr2) in
    rw a (ap some (omega arith))
find_from_complete (x ∷ xs) i (suc k) pcr0 pcr1 pcr2 f =
    let a = f.first 0 x (omega arith) refl in
    let tail : FirstWith xs pcr0 pcr1 pcr2 k = record {
      entry = f.entry;
      found = f.found;
      has_pcr0 = f.has_pcr0;
      has_pcr1 = f.has_pcr1;
      has_pcr2 = f.has_pcr2;
      first = λ j e lt b. f.first (suc j) e (omega arith) b;
    } in
    rw a (find_from_complete xs (i + 1) k pcr0 pcr1 pcr2 tail ∙ ap some (omega arith))

pub find_matching_entry_sound :
    (checkpoint : Checkpoint) (pcr0 pcr1 pcr2 : Bytes) (version : ℕ)
    → find_matching_entry checkpoint pcr0 pcr1 pcr2 ≡ some version
    → FirstWith checkpoint.approved_pcrs pcr0 pcr1 pcr2 version
unfolding find_matching_entry
find_matching_entry_sound checkpoint pcr0 pcr1 pcr2 version h =
    let (k, eq, f) = find_from_sound checkpoint.approved_pcrs 0 version pcr0 pcr1 pcr2 h in
    let e : version ≡ k = omega (arith, eq) in rw e f

pub find_matching_entry_complete :
    (checkpoint : Checkpoint) (pcr0 pcr1 pcr2 : Bytes) (version : ℕ)
    → FirstWith checkpoint.approved_pcrs pcr0 pcr1 pcr2 version
    → find_matching_entry checkpoint pcr0 pcr1 pcr2 ≡ some version
unfolding find_matching_entry
find_matching_entry_complete checkpoint pcr0 pcr1 pcr2 version f =
    find_from_complete checkpoint.approved_pcrs 0 version pcr0 pcr1 pcr2 f ∙ ap some (omega arith)
