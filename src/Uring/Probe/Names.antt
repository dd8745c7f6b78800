-- ===== src/Uring/Probe/Names.antt =====
-- The table of names that the macros build.
use Prim.Native.String.{String}
use text.Mathlib.Text
use hamerkop.Base.{
  ℕ, zero, suc, ◌+◌, ◌-◌, ◌<◌, ◌≡◌, refl, sym, ◌∙◌, ap, ap₂, Bool-cases, inl, inr, Bool, true, ◌&&◌,
  ◌==◌, ==_iff, bit_and, bit_or, List, [], ◌∷◌, none, some, ltb, leb, if◌then◌else◌, usize_mod, set,
  replicate, length, get_elem?, map, max, All, arith, length-set, length-replicate,
  get_elem?-set_self, get_elem?-set_ne, lt_of_get_elem?, get_elem?_past,
}
use hamerkop.Base.Bits.{bit_and_mask, bit_and-zero, bit_or-zero, bit_or-zero_left, mod_small}
use hamerkop.Uring.Probe.{static_max, fill, filled_array, idents, ident}

pub maximum : ℕ → List ℕ → ℕ
maximum first [] = first
maximum first (next ∷ others) = max first (maximum next others)

all_ones : (n : ℕ) → n < usize_mod → bit_and n (usize_mod - 1) ≡ n
all_ones n h = bit_and_mask 64 n ∙ mod_small n usize_mod h

maximum_lt : (x : ℕ) (xs : List ℕ) → All (λ y. y < usize_mod) (x ∷ xs) → maximum x xs < usize_mod
unfolding maximum
maximum_lt x [] h = h.0
maximum_lt x (y ∷ ys) h = omega (arith, h.0, maximum_lt y ys h.1)

-- `static_max` of words of 64 bits is their maximum.
pub static_max_lem :
    (x : ℕ) (xs : List ℕ) → All (λ y. y < usize_mod) (x ∷ xs) → static_max x xs ≡ maximum x xs
unfolding static_max maximum
static_max_lem x [] h = refl
static_max_lem x (y ∷ ys) h =
    let rest = maximum y ys in
    let below : rest < usize_mod = maximum_lt y ys h.1 in
    elim (Bool-cases (ltb x rest)) [
      | inl less ↦
          rw (static_max, static_max_lem y ys h.1, less)
            (ap₂ (λ a b. bit_or a b) (bit_and-zero x) (all_ones rest below)
              ∙ bit_or-zero_left rest
              ∙ ground (arith, less))
      | inr not_less ↦
          rw (static_max, static_max_lem y ys h.1, not_less)
            (ap₂ (λ a b. bit_or a b) (all_ones x h.0) (bit_and-zero rest)
              ∙ bit_or-zero x
              ∙ ground (arith, not_less))
    ]

-- the value of the last assignment to `k`
pub last_value : {A : Type 0} → ℕ → List (ℕ × A) → A → A
last_value k [] default = default
last_value k ((key, value) ∷ entries) default =
    last_value k entries (if key == k then value else default)

get_elem?-fill :
    {A : Type 0} (k : ℕ) (entries : List (ℕ × A)) (arr : List A) (v : A)
    → get_elem? arr k ≡ some v
    → get_elem? (fill arr entries) k ≡ some (last_value k entries v)
unfolding fill last_value
get_elem?-fill k [] arr v h = h
get_elem?-fill k ((key, value) ∷ entries) arr v h = elim (Bool-cases (key == k)) [
  | inl e ↦
      let same : key ≡ k = (==_iff key k).0 e in
      rw (last_value, e)
        (get_elem?-fill k entries (set arr key value) value (
          ap (λ j. get_elem? (set arr j value) k) same
          ∙ get_elem?-set_self arr k value (lt_of_get_elem? arr k h)))
  | inr e ↦
      rw (last_value, e)
        (get_elem?-fill k entries (set arr key value) v
          (get_elem?-set_ne arr key k value (ground arith) ∙ h))
]

length-fill :
    {A : Type 0} (entries : List (ℕ × A)) (arr : List A) → length (fill arr entries) ≡ length arr
unfolding fill
length-fill [] arr = refl
length-fill ((key, value) ∷ entries) arr =
    length-fill entries (set arr key value) ∙ length-set arr key value

get_elem?-replicate : {A : Type 0} (n k : ℕ) (v : A) → k < n → get_elem? (replicate n v) k ≡ some v
get_elem?-replicate zero k v h = absurd (omega arith)
get_elem?-replicate (suc n) zero v h = refl
get_elem?-replicate (suc n) (suc k) v h = get_elem?-replicate n k v (omega arith)

-- For keys of 64 bits, `filled_array` has at each index up to the greatest key the value last
-- assigned to it, the default where there is none, and it ends there.
pub get_elem?-filled_array :
    {A : Type 0} (first : ℕ × A) (entries : List (ℕ × A)) (default : A) (k : ℕ)
    → All (λ key. key < usize_mod) (first.0 ∷ map (λ e. e.0) entries)
    → get_elem? (filled_array first entries default) k ≡ (
        if leb k (maximum first.0 (map (λ e. e.0) entries))
        then some (last_value k (first ∷ entries) default)
        else none)
unfolding filled_array
get_elem?-filled_array first entries default k h =
    let greatest = maximum first.0 (map (λ e. e.0) entries) in
    let size : static_max first.0 (map (λ e. e.0) entries) ≡ greatest =
      static_max_lem first.0 (map (λ e. e.0) entries) h in
    elim (Bool-cases (leb k greatest)) [
      | inl e ↦
          rw (filled_array, size, e)
            (get_elem?-fill k (first ∷ entries) (replicate (greatest + 1) default) default
              (get_elem?-replicate (greatest + 1) k default (ground arith)))
      | inr e ↦
          let long =
            length-fill (first ∷ entries) (replicate (greatest + 1) default)
            ∙ length-replicate (greatest + 1) default in
          rw (filled_array, size, e)
            (get_elem?_past (fill (replicate (greatest + 1) default) (first ∷ entries)) k
              (ground (arith, long)))
    ]

-- where a text stands in a list, the length of the list if it does not
position : String → List String → ℕ
position s [] = 0
position s (x ∷ xs) = let rest = position s xs in if Text.◌==◌ x s then 0 else suc rest

all_below : ℕ → (ℕ → Bool) → Bool
all_below zero test = true
all_below (suc n) test = test n && all_below n test

all_below_lem :
    (n : ℕ) (test : ℕ → Bool) → all_below n test ≡ true → (i : ℕ) → i < n → test i ≡ true
unfolding all_below
all_below_lem zero test h i low = absurd (omega arith)
all_below_lem (suc n) test h i low = elim (Bool-cases (i == n)) [
  | inl e ↦ let same : i ≡ n = (==_iff i n).0 e in ap test same ∙ ground (arith, h)
  | inr e ↦ all_below_lem n test (ground (arith, h)) i (ground arith)
]

positions : all_below 34 (λ op. position (ident op) idents == op) ≡ true
unfolding all_below position ident idents filled_array fill static_max
positions = refl

-- Two operations below `IORING_OP_LAST` that are shown by one name are one operation.
pub ident_injective : (a b : ℕ) → a < 34 → b < 34 → ident a ≡ ident b → a ≡ b
ident_injective a b low small same =
    let at_a =
      (==_iff (position (ident a) idents) a).0
        (all_below_lem 34 (λ op. position (ident op) idents == op) positions a low) in
    let at_b =
      (==_iff (position (ident b) idents) b).0
        (all_below_lem 34 (λ op. position (ident op) idents == op) positions b small) in
    sym at_a ∙ ap (λ s. position s idents) same ∙ at_b
