-- ===== src/Move/Checkpoint/Versions.antt =====
-- checkpoint.move: the list of code versions as it grows: an entry keeps its index and its
-- measurements, and its revocation.
use sekisho.Base.{
  ℕ, zero, suc, ◌+◌, ◌<◌, ◌≤◌, true, List, [], ◌∷◌, ◌++◌, some, ok, ◌≡◌, refl, ap, ◌∙◌, length,
  length-append, arith, Bool-cases, inl, inr,
}
use sekisho.Text.{Bytes}
use sekisho.Move.Checkpoint.{
  PcrSet, Checkpoint, CheckpointCap, borrow, has_pcrs, find_from, approve_pcrs, set_revoked,
  revoke_pcrs,
}

module _ {A : Type 0} where
  pub borrow_of_lt : (xs : List A) (i : ℕ) → i < length xs → (a : A) × (borrow xs i ≡ ok a)
  unfolding borrow
  borrow_of_lt [] i h = absurd (omega arith)
  borrow_of_lt (a ∷ xs) zero h = (a, refl)
  borrow_of_lt (a ∷ xs) (suc i) h = borrow_of_lt xs i (omega arith)

  pub borrow_lt : (xs : List A) (i : ℕ) (a : A) → borrow xs i ≡ ok a → i < length xs
  unfolding borrow
  borrow_lt [] i a h = cc
  borrow_lt (b ∷ xs) zero a h = omega arith
  borrow_lt (b ∷ xs) (suc i) a h = omega (arith, borrow_lt xs i a h)

  pub borrow-append :
      (xs ys : List A) (i : ℕ) (a : A) → borrow xs i ≡ ok a → borrow (xs ++ ys) i ≡ ok a
  unfolding borrow
  borrow-append [] ys i a h = cc
  borrow-append (b ∷ xs) ys zero a h = h
  borrow-append (b ∷ xs) ys (suc i) a h = borrow-append xs ys i a h

-- An entry later on: its measurements stay, and so does its revocation.
pub record Keeps (entry later : PcrSet) : Type 0 where
  pub pcr0 : later.pcr0 ≡ entry.pcr0
  pub pcr1 : later.pcr1 ≡ entry.pcr1
  pub pcr2 : later.pcr2 ≡ entry.pcr2
  pub code_ref : later.code_ref ≡ entry.code_ref
  pub revoked : entry.revoked ≡ true → later.revoked ≡ true

pub Keeps-refl : (entry : PcrSet) → Keeps entry entry
Keeps-refl entry = record {
  pcr0 = refl;
  pcr1 = refl;
  pcr2 = refl;
  code_ref = refl;
  revoked = λ h. h;
}

pub Keeps-trans : (a b c : PcrSet) → Keeps a b → Keeps b c → Keeps a c
Keeps-trans a b c h k = record {
  pcr0 = k.pcr0 ∙ h.pcr0;
  pcr1 = k.pcr1 ∙ h.pcr1;
  pcr2 = k.pcr2 ∙ h.pcr2;
  code_ref = k.code_ref ∙ h.code_ref;
  revoked = λ r. k.revoked (h.revoked r);
}

-- Every entry is still there, at its index.
pub record Extends (entries later : List PcrSet) : Type 0 where
  pub kept :
      (version : ℕ) (entry : PcrSet)
      → borrow entries version ≡ ok entry
      → (e : PcrSet) × (borrow later version ≡ ok e) × Keeps entry e
  pub longer : length entries ≤ length later

pub Extends-refl : (entries : List PcrSet) → Extends entries entries
Extends-refl entries = record {
  kept = λ version entry h. (entry, h, Keeps-refl entry);
  longer = omega arith;
}

pub Extends-trans : (a b c : List PcrSet) → Extends a b → Extends b c → Extends a c
Extends-trans a b c h k = record {
  kept = λ version entry e.
      let (e1, f1, g1) = h.kept version entry e in
      let (e2, f2, g2) = k.kept version e1 f1 in (e2, f2, Keeps-trans entry e1 e2 g1 g2);
  longer = omega (arith, h.longer, k.longer);
}

pub Extends-approve_pcrs :
    (checkpoint : Checkpoint) (cap : CheckpointCap) (pcr0 pcr1 pcr2 code_ref : Bytes)
    → Extends checkpoint.approved_pcrs
        (approve_pcrs checkpoint cap pcr0 pcr1 pcr2 code_ref).0.approved_pcrs
unfolding approve_pcrs
Extends-approve_pcrs checkpoint cap pcr0 pcr1 pcr2 code_ref = record {
  kept = λ version entry h.
      (entry, borrow-append checkpoint.approved_pcrs _ version entry h, Keeps-refl entry);
  longer = omega (arith, length-append {0} checkpoint.approved_pcrs);
}

length-set_revoked :
    (entries : List PcrSet) (version : ℕ) → length (set_revoked entries version) ≡ length entries
unfolding set_revoked
length-set_revoked [] version = refl
length-set_revoked (entry ∷ entries) zero = refl
length-set_revoked (entry ∷ entries) (suc version) = ap suc (length-set_revoked entries version)

set_revoked-Keeps :
    (entries : List PcrSet) (revoked version : ℕ) (entry : PcrSet)
    → borrow entries version ≡ ok entry
    → (e : PcrSet) × (borrow (set_revoked entries revoked) version ≡ ok e) × Keeps entry e
unfolding set_revoked borrow
set_revoked-Keeps [] r v entry h = absurd (cc h)
set_revoked-Keeps (e ∷ es) zero zero entry h = (
  record e { revoked = true },
  refl,
  record { pcr0 = cc; pcr1 = cc; pcr2 = cc; code_ref = cc; revoked = λ _. refl },
)
set_revoked-Keeps (e ∷ es) zero (suc v) entry h = (entry, h, Keeps-refl entry)
set_revoked-Keeps (e ∷ es) (suc r) zero entry h = (entry, h, Keeps-refl entry)
set_revoked-Keeps (e ∷ es) (suc r) (suc v) entry h = set_revoked-Keeps es r v entry h

pub Extends-revoke_pcrs :
    (checkpoint next : Checkpoint) (cap : CheckpointCap) (version : ℕ)
    → revoke_pcrs checkpoint cap version ≡ ok next
    → Extends checkpoint.approved_pcrs next.approved_pcrs
unfolding revoke_pcrs
Extends-revoke_pcrs checkpoint next cap version h =
    let same_entries : set_revoked checkpoint.approved_pcrs version ≡ next.approved_pcrs =
      ground arith in
    rw (← same_entries) (record {
      kept = set_revoked-Keeps checkpoint.approved_pcrs version;
      longer = omega (arith, length-set_revoked checkpoint.approved_pcrs version);
    })

-- The first entry with a triple stays the first.
pub find_from-Extends :
    (entries later : List PcrSet) (i version : ℕ) (pcr0 pcr1 pcr2 : Bytes)
    → Extends entries later
    → find_from entries i pcr0 pcr1 pcr2 ≡ some version
    → find_from later i pcr0 pcr1 pcr2 ≡ some version
unfolding find_from borrow
find_from-Extends [] later i version pcr0 pcr1 pcr2 h e = cc
find_from-Extends (x ∷ xs) [] i version pcr0 pcr1 pcr2 h e = absurd (omega (arith, h.longer))
find_from-Extends (x ∷ xs) (y ∷ ys) i version pcr0 pcr1 pcr2 h e =
    let (x', f, k) = h.kept 0 x refl in
    let same_test : has_pcrs y pcr0 pcr1 pcr2 ≡ has_pcrs x pcr0 pcr1 pcr2 =
      cc (f, k.pcr0, k.pcr1, k.pcr2) in
    let tails : Extends xs ys = record {
      kept = λ v. h.kept (suc v);
      longer = omega (arith, h.longer);
    } in
    elim (Bool-cases (has_pcrs x pcr0 pcr1 pcr2)) [
      | inl a ↦ rw (same_test, a) (rw a at e)
      | inr a ↦
          rw (same_test, a)
            (find_from-Extends xs ys (i + 1) version pcr0 pcr1 pcr2 tails (rw a at e))
    ]
