-- ===== src/Util/Dedup.antt =====
-- hamerkop/src/util/dedup.rs: `dedup_partial`. The hash is a parameter: by the seed that is hashed
-- first and the value, what the hasher finishes with. A pointer into the vector is its index, and the
-- table of 128 pointers is a function.
pub mod Elements
pub mod Pointers
pub mod Keeps
use hamerkop.Base.{
  ℕ, zero, suc, ◌+◌, ◌-◌, ◌%◌, Bool, true, false, ◌||◌, Option, none, some, List, [], ◌∷◌, ltb,
  ◌==◌, if◌then◌else◌, length, get_elem?, set, take, usize_mod, Outcome, done, ◌>>=◌, unwrap,
  raw_read,
}

abbrev pub seed1 : ℕ
seed1 = 4200296977

abbrev pub seed2 : ℕ
seed2 = 1109209391370908281

abbrev pub Table : Type 0
Table = ℕ → Option ℕ

abbrev pub store : Table → ℕ → Option ℕ → Table
store table k p j = if j == k then p else table j

-- where the value at `i` is recorded
unfoldable pub record_value : Table → ℕ → ℕ → ℕ → Table
record_value table h1 h2 i = elim (table h1) [
  | none ↦ store table h1 (some i)
  | some _ ↦ elim (table h2) [
    | none ↦ store table h2 (some i)
    | some _ ↦ if i % 2 == 0 then store table h1 (some i) else store table h2 (some i)
  ]
]

module _ {A : Type 0} where
  -- `Vec::swap_remove`: the last element takes the place of the one removed.
  unfoldable pub swap_remove : List A → ℕ → Outcome (List A)
  swap_remove xs i =
      unwrap (get_elem? xs (length xs - 1)) >>= λ last. done (take (length xs - 1) (set xs i last))

  module _ (finish : ℕ → A → ℕ) where
    unfoldable pub hash1 : A → ℕ
    hash1 value = finish seed1 value % usize_mod

    unfoldable pub hash2 : A → ℕ
    hash2 value = finish seed2 value % usize_mod

  module _ (eq : A → A → Bool) where
    unfoldable pub ptr_cmp : List A → Option ℕ → A → Outcome Bool
    ptr_cmp xs none value = done false
    ptr_cmp xs (some j) value = raw_read (get_elem? xs j) >>= λ earlier. done (eq earlier value)

    -- `ptr_cmp(table[hash1], value) || ptr_cmp(table[hash2], value)`
    unfoldable pub seen : List A → Table → ℕ → ℕ → A → Outcome Bool
    seen xs table h1 h2 value = ptr_cmp xs (table h1) value >>= λ first.
        if first then done true else ptr_cmp xs (table h2) value

  module _ (eq : A → A → Bool) (finish : ℕ → A → ℕ) where
    -- the `while` loop on fuel; `none` means that the fuel ran out.
    unfoldable pub dedup_from : ℕ → ℕ → List A → Table → Outcome (Option (List A))
    dedup_from zero i xs table = if ltb i (length xs) then done none else done (some xs)
    dedup_from (suc fuel) i xs table = elim (get_elem? xs i) [
      | none ↦ done (some xs)
      | some value ↦
          let h1 = hash1 finish value % 128 in
          let h2 = hash2 finish value % 128 in
          seen eq xs table h1 h2 value >>= λ dup. elim dup [
            | true ↦ swap_remove xs i >>= λ shorter. dedup_from fuel i shorter table
            | false ↦ dedup_from fuel (i + 1) xs (record_value table h1 h2 i)
          ]
    ]

    unfoldable pub dedup_partial : List A → Outcome (Option (List A))
    dedup_partial xs = dedup_from (length xs) 0 xs (λ _. none)
