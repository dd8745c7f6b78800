-- ===== src/Slotmap/FreeList.antt =====
-- The free list of a slot map: the vacant slots in the order in which their links chain them.
use hamerkop.Base.{
  ℕ, zero, suc, ◌+◌, ◌≤◌, ◌≡◌, refl, ap, Option, none, some, List, [], ◌∷◌, arith, ◌==◌, ◌||◌, ltb,
  if◌then◌else◌, length, Bool-cases, inl, inr, Bool, true, false, ==_refl,
}
use hamerkop.Slotmap.{Entry, element, link, sentinel}

-- where a vacant slot leads
abbrev pub next_of : {A : Type 0} → Option (Entry A) → Option ℕ
next_of none = none
next_of (some (element _)) = none
next_of (some (link n)) = some n

abbrev pub contains : List ℕ → ℕ → Bool
contains [] a = false
contains (x ∷ xs) a = a == x || contains xs a

abbrev pub Distinct : List ℕ → Type 0
Distinct [] = Unit
Distinct (x ∷ xs) = (contains xs x ≡ false) × Distinct xs

-- From `h` the links lead through exactly these slots, and then to the sentinel.
abbrev pub Chain : (ℕ → Option ℕ) → ℕ → List ℕ → Type 0
Chain f h [] = h ≡ sentinel
Chain f h (i ∷ is) = (h ≡ i) × ((n : ℕ) × (f i ≡ some n) × Chain f n is)

-- A chain does not notice a change of slots that it does not visit.
pub Chain-agree :
    (f g : ℕ → Option ℕ) (h : ℕ) (is : List ℕ)
    → ((j : ℕ) → contains is j ≡ true → g j ≡ f j)
    → Chain f h is
    → Chain g h is
Chain-agree f g h [] a c = c
Chain-agree f g h (i ∷ is) a c = (
  c.0,
  (
    c.1.0,
    ground (arith, a i, ==_refl i, c.1.1),
    Chain-agree f g c.1.0 is (λ j e. a j (ground arith)) c.1.2,
  ),
)

-- Every slot on a chain is vacant.
pub Chain-vacant :
    (f : ℕ → Option ℕ) (h : ℕ) (is : List ℕ) (j : ℕ)
    → Chain f h is
    → contains is j ≡ true
    → (n : ℕ) × (f j ≡ some n)
Chain-vacant f h [] j c e = absurd (ground arith)
Chain-vacant f h (i ∷ is) j c e = elim (Bool-cases (j == i)) [
  | inl same ↦ (c.1.0, ground arith)
  | inr other ↦ Chain-vacant f c.1.0 is j c.1.2 (ground arith)
]

-- `base, base + 1, .. base + n`
pub indices : ℕ → ℕ → List ℕ
indices zero base = base ∷ []
indices (suc n) base = base ∷ indices n (base + 1)

pub contains-indices :
    (n base j : ℕ)
    → contains (indices n base) j ≡ (if ltb j base then false else ltb j (base + n + 1))
unfolding indices
contains-indices zero base j = ground arith
contains-indices (suc n) base j = ground (arith, contains-indices n (base + 1) j)

pub indices-Distinct : (n base : ℕ) → Distinct (indices n base)
unfolding indices
indices-Distinct zero base = (refl, tt)
indices-Distinct (suc n) base =
    (ground (arith, contains-indices n (base + 1) base), indices-Distinct n (base + 1))

pub length-indices : (n base : ℕ) → length (indices n base) ≡ suc n
unfolding indices
length-indices zero base = refl
length-indices (suc n) base = ap suc (length-indices n (base + 1))

-- Slots that each lead to the next one make a chain.
pub Chain-indices :
    (f : ℕ → Option ℕ) (n base : ℕ)
    → ((j : ℕ) → base ≤ j → j ≤ base + n → f j ≡ some (if j == base + n then sentinel else j + 1))
    → Chain f base (indices n base)
unfolding indices
Chain-indices f zero base h =
    (refl, (sentinel, ground (arith, h base (omega arith) (omega arith)), refl))
Chain-indices f (suc n) base h = (
  refl,
  (
    base + 1,
    ground (arith, h base (omega arith) (omega arith)),
    Chain-indices f n (base + 1) (λ j p q. ground (arith, h j (omega arith) (omega arith))),
  ),
)

pub indices-suc : (n base : ℕ) → indices (suc n) base ≡ base ∷ indices n (base + 1)
unfolding indices
indices-suc n base = refl
