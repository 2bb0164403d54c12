-- ===== src/Exporter/Accounts/Threads.antt =====
-- Sums over threads, of which one moves at a time.
use proofstep.Prelude.{
  ℕ, ◌+◌, ◌-◌, ◌≤◌, ◌≡◌, refl, sym, ap, ◌∙◌, Bool, true, ◌&&◌, List, [], ◌∷◌, ◌++◌, map, arith, leb,
  length, all,
}
use proofstep.Exporter.{Stage, Producer, Place, Loop, detach}

abbrev pub sum {ℓ} : {A : Type ℓ} → (A → ℕ) → List A → ℕ
sum f [] = 0
sum f (x ∷ xs) = f x + sum f xs

pub sum-append {ℓ} :
    {A : Type ℓ} (f : A → ℕ) (xs ys : List A) → sum f (xs ++ ys) ≡ sum f xs + sum f ys
sum-append f [] ys = omega arith
sum-append f (x ∷ xs) ys = omega (arith, sum-append f xs ys)

pub all-append {ℓ} :
    {A : Type ℓ} (p : A → Bool) (xs ys : List A) → all p (xs ++ ys) ≡ (all p xs && all p ys)
all-append p [] ys = refl
all-append p (x ∷ xs) ys = ground (arith, all-append p xs ys)

pub all_mono {ℓ} :
    {A : Type ℓ} (p q : A → Bool)
    → ((x : A) → p x ≡ true → q x ≡ true)
    → (xs : List A) → all p xs ≡ true
    → all q xs ≡ true
all_mono p q h [] k = refl
all_mono p q h (x ∷ xs) k = ground (arith, h x, all_mono p q h xs)

-- A thread still has its trace.
abbrev pub holds_at : Stage → ℕ
holds_at Stage.failing = 0
holds_at (Stage.giving n) = 0
holds_at stage = 1

abbrev pub holds : Producer → ℕ
holds p = holds_at p.stage

-- A thread has dropped a trace, and did not count it yet.
abbrev pub owes_at : Stage → ℕ
owes_at Stage.taken = 1
owes_at (Stage.counting n) = 1
owes_at Stage.failing = 1
owes_at (Stage.giving n) = 1
owes_at stage = 0

abbrev pub owes : Producer → ℕ
owes p = owes_at p.stage

-- What it has read of the counter is no more than this.
abbrev pub reads_at : ℕ → Stage → Bool
reads_at bound (Stage.counting n) = leb n bound
reads_at bound (Stage.giving n) = leb n bound
reads_at bound stage = true

abbrev pub reads_within : ℕ → Producer → Bool
reads_within bound p = reads_at bound p.stage

abbrev pub adds_at : ℕ → Place → Bool
adds_at bound (Place.adding n) = leb n bound
adds_at bound place = true

abbrev pub adds_within : ℕ → Loop → Bool
adds_within bound w = adds_at bound w.place

abbrev pub carries : Loop → ℕ
carries w = length w.batch

pub sum-detach : (ws : List Loop) → sum carries (map detach ws) ≡ sum carries ws
sum-detach [] = refl
sum-detach (w ∷ ws) = omega (arith, sum-detach ws)

pub all-detach :
    (n : ℕ) (ws : List Loop) → all (adds_within n) (map detach ws) ≡ all (adds_within n) ws
all-detach n [] = refl
all-detach n (w ∷ ws) = ground (arith, all-detach n ws)

-- The counter of dropped traces with what is owed to it is no more than the drops, and neither is
-- what was read of it.
abbrev pub Counted : ℕ → ℕ → List Producer → Type 0
Counted drops counter ps =
    (counter + sum owes ps ≤ drops) × (all (reads_within (drops - sum owes ps)) ps ≡ true)

reads_mono : (m n : ℕ) → m ≤ n → (stage : Stage) → reads_at m stage ≡ true → reads_at n stage ≡ true
reads_mono m n h (Stage.counting i) k = ground (arith, h, k)
reads_mono m n h (Stage.giving i) k = ground (arith, h, k)
reads_mono m n h stage k = ground arith

pub adds_mono :
    (m n : ℕ) → m ≤ n → (place : Place) → adds_at m place ≡ true → adds_at n place ≡ true
adds_mono m n h (Place.adding i) k = ground (arith, h, k)
adds_mono m n h place k = ground arith

-- One thread of a list becomes others, or none.
pub Counted-change :
    (before after qs : List Producer) (p : Producer) (drops drops' counter counter' : ℕ)
    (ps : List Producer)
    → ps ≡ before ++ p ∷ after
    → Counted drops counter ps
    → drops + sum owes qs ≤ drops' + owes p
    → ((rest : ℕ)
        → counter + (owes p + rest) ≤ drops
        → reads_within (drops - (owes p + rest)) p ≡ true
        → (counter' + (sum owes qs + rest) ≤ drops')
          × (all (reads_within (drops' - (sum owes qs + rest))) qs ≡ true))
    → Counted drops' counter' (before ++ (qs ++ after))
Counted-change before after qs p drops drops' counter counter' ps e (bound, within) grow own =
    let rest = sum owes before + sum owes after in
    let old : sum owes ps ≡ owes p + rest =
      omega (arith, ap (sum owes) e, sum-append owes before (p ∷ after)) in
    let new : sum owes (before ++ (qs ++ after)) ≡ sum owes qs + rest =
      omega (arith, sum-append owes before (qs ++ after), sum-append owes qs after) in
    let low = drops - (owes p + rest) in
    let high = drops' - (sum owes qs + rest) in
    let less : low ≤ high = omega arith in
    let these : all (reads_within low) (before ++ p ∷ after) ≡ true =
      ap (λ k. all (reads_within (drops - k)) (before ++ p ∷ after)) (sym old)
      ∙ ap (λ xs. all (reads_within (drops - sum owes ps)) xs) (sym e)
      ∙ within in
    let parts = all-append (reads_within low) before (p ∷ after) in
    let (paid, fine) = own rest (omega arith) (ground arith) in
    let rise =
      λ (q : Producer) (k : reads_within low q ≡ true). reads_mono low high less q.stage k in
    let first = all_mono (reads_within low) (reads_within high) rise before (ground arith) in
    let last = all_mono (reads_within low) (reads_within high) rise after (ground arith) in
    (
      omega arith,
      ap (λ k. all (reads_within (drops' - k)) (before ++ (qs ++ after))) new
          ∙ ground (
            arith,
            all-append (reads_within high) before (qs ++ after),
            all-append (reads_within high) qs after,
            first,
            last,
            fine,
          ),
    )
