-- ===== src/Util/Dedup/Pointers.antt =====
-- hamerkop/src/util/dedup.rs: the table of pointers, and what a lookup in it finds.
use hamerkop.Base.{
  ℕ, ◌+◌, ◌%◌, ◌<◌, ◌≡◌, refl, sym, ap, ◌∙◌, ◌⊎◌, inl, inr, ◌↔◌, Bool, true, false, ◌||◌, Option,
  none, some, List, [], ◌∷◌, ◌++◌, ◌==◌, if◌then◌else◌, length, get_elem?, Outcome, done, arith,
  get_elem?-append_length, get_elem?-append_left, get_elem?_of_lt,
}
use hamerkop.Util.Dedup.Elements.{Has, Has-at, Before}
use hamerkop.Util.Dedup.{Table, store, hash1, hash2, ptr_cmp, seen, record_value}

record_cases :
    (table : Table) (h1 h2 i : ℕ)
    → (record_value table h1 h2 i ≡ store table h1 (some i))
      ⊎ (record_value table h1 h2 i ≡ store table h2 (some i))
unfolding record_value
record_cases table h1 h2 i = ground arith

-- Every pointer of the table is to one of the first elements.
unfoldable pub Below : Table → ℕ → Type 0
Below table n = (k j : ℕ) → table k ≡ some j → j < n

-- Recording the element behind the prefix keeps the table below, and finds it.
store_self : (table : Table) (k n : ℕ) → store table k (some n) k ≡ some n
store_self table k n = ground arith

store_at :
    (table : Table) (k n i j : ℕ) → store table k (some n) i ≡ some j → (j ≡ n) ⊎ (table i ≡ some j)
store_at table k n i j h =
    elim (i == k)
        as (λ b. (if b then some n else table i) ≡ some j → (j ≡ n) ⊎ (table i ≡ some j)) [
          | true ↦ λ e. inl (cc)
          | false ↦ λ e. inr e
        ]
      h

store-Below : (table : Table) (k n : ℕ) → Below table n → Below (store table k (some n)) (n + 1)
unfolding Below
store-Below table k n below i j h = elim (store_at table k n i j h) [
  | inl e ↦ omega arith
  | inr e ↦ omega (arith, below i j e)
]

module _ {A : Type 0} (finish : ℕ → A → ℕ) where
  -- The last element kept is in the table.
  unfoldable pub Kept : Table → List A → Option A → Type 0
  Kept table pre none = Unit
  Kept table pre (some p) =
      (j : ℕ) × (get_elem? pre j ≡ some p)
      × ((table (hash1 finish p % 128) ≡ some j) ⊎ (table (hash2 finish p % 128) ≡ some j))

  abbrev Recorded : (pre : List A) (v : A) → Table → Type 0
  Recorded pre v after = Below after (length pre + 1) × Kept after (pre ++ (v ∷ [])) (some v)

  record1 :
      (pre : List A) (v : A) (table : Table)
      → Below table (length pre)
      → Recorded pre v (store table (hash1 finish v % 128) (some (length pre)))
  unfolding Kept
  record1 pre v table below = (
    store-Below table _ (length pre) below,
    (length pre, get_elem?-append_length pre v [], inl (store_self table _ (length pre))),
  )

  record2 :
      (pre : List A) (v : A) (table : Table)
      → Below table (length pre)
      → Recorded pre v (store table (hash2 finish v % 128) (some (length pre)))
  unfolding Kept
  record2 pre v table below = (
    store-Below table _ (length pre) below,
    (length pre, get_elem?-append_length pre v [], inr (store_self table _ (length pre))),
  )

  pub record_value_lem :
      (pre : List A) (v : A) (table : Table)
      → Below table (length pre)
      → Recorded pre v
          (record_value table (hash1 finish v % 128) (hash2 finish v % 128) (length pre))
  record_value_lem pre v table below =
      elim (record_cases table (hash1 finish v % 128) (hash2 finish v % 128) (length pre)) [
        | inl e ↦ rw (e) (record1 pre v table below)
        | inr e ↦ rw (e) (record2 pre v table below)
      ]

module _ {A : Type 0} (eq : A → A → Bool) (finish : ℕ → A → ℕ)
    (eq_iff : (a b : A) → (eq a b ≡ true) ↔ (a ≡ b)) where
  ptr_cmp_lem :
      (pre : List A) (v : A) (rest : List A) (entry : Option ℕ) (value : A)
      → ((j : ℕ) → entry ≡ some j → j < length pre)
      → (b : Bool) × (ptr_cmp eq (pre ++ (v ∷ rest)) entry value ≡ done b)
        × (b ≡ true → Has value pre)
        × ((j : ℕ) → entry ≡ some j → get_elem? pre j ≡ some value → b ≡ true)
  unfolding ptr_cmp
  ptr_cmp_lem pre v rest none value below = (false, refl, (λ h. absurd (cc)), λ j h. absurd (cc))
  ptr_cmp_lem pre v rest (some j) value below =
      let at = get_elem?_of_lt pre j (below j refl) in
      let e : get_elem? (pre ++ (v ∷ rest)) j ≡ some at.0 =
        get_elem?-append_left pre (v ∷ rest) j (below j refl) ∙ at.1 in
      (
        eq at.0 value,
        rw (e) refl,
        (λ h. Has-at value pre j (at.1 ∙ ap some ((eq_iff at.0 value).0 h))),
        λ k h g. (eq_iff at.0 value).1 cc,
      )

  or_else :
      (b c : Bool) (m : Outcome Bool) → m ≡ done c → (if b then done true else m) ≡ done (b || c)
  or_else true c m h = refl
  or_else false c m h = h

  or_true : (b c : Bool) → (b || c) ≡ true → (b ≡ true) ⊎ (c ≡ true)
  or_true true c h = inl refl
  or_true false c h = inr h

  or_false : (b c : Bool) → (b || c) ≡ false → ¬ ((b ≡ true) ⊎ (c ≡ true))
  or_false true c h k = absurd (cc)
  or_false false c h (inl k) = absurd (cc)
  or_false false c h (inr k) = absurd (cc)

  -- A copy of the last element kept is found through the table.
  Kept-found :
      (pre : List A) (table : Table) (p v : A) (b c : Bool)
      → ((j : ℕ) → table (hash1 finish v % 128) ≡ some j → get_elem? pre j ≡ some v → b ≡ true)
      → ((j : ℕ) → table (hash2 finish v % 128) ≡ some j → get_elem? pre j ≡ some v → c ≡ true)
      → Kept finish table pre (some p)
      → p ≡ v
      → (b ≡ true) ⊎ (c ≡ true)
  unfolding Kept
  Kept-found pre table p v b c one two (j, got, inl slot) same =
      inl (one j (ap (λ x. table (hash1 finish x % 128)) (sym same) ∙ slot) (got ∙ ap some same))
  Kept-found pre table p v b c one two (j, got, inr slot) same =
      inr (two j (ap (λ x. table (hash2 finish x % 128)) (sym same) ∙ slot) (got ∙ ap some same))

  seen-Before :
      (pre : List A) (table : Table) (last : Option A) (v : A) (b c : Bool)
      → ((j : ℕ) → table (hash1 finish v % 128) ≡ some j → get_elem? pre j ≡ some v → b ≡ true)
      → ((j : ℕ) → table (hash2 finish v % 128) ≡ some j → get_elem? pre j ≡ some v → c ≡ true)
      → Kept finish table pre last
      → (b || c) ≡ false
      → Before last v
  unfolding Before
  seen-Before pre table none v b c one two kept h = tt
  seen-Before pre table (some p) v b c one two kept h =
      λ same. or_false b c h (Kept-found pre table p v b c one two kept same)

  pub seen_lem :
      (pre : List A) (v : A) (rest : List A) (table : Table) (last : Option A)
      → Below table (length pre)
      → Kept finish table pre last
      → (b : Bool) × (seen eq
            (pre ++ (v ∷ rest))
            table
            (hash1 finish v % 128)
            (hash2 finish v % 128)
            v
          ≡ done b)
        × (b ≡ true → Has v pre)
        × (b ≡ false → Before last v)
  unfolding seen Below
  seen_lem pre v rest table last below kept =
      let h1 = hash1 finish v % 128 in
      let h2 = hash2 finish v % 128 in
      let one = ptr_cmp_lem pre v rest (table h1) v (λ j. below h1 j) in
      let two = ptr_cmp_lem pre v rest (table h2) v (λ j. below h2 j) in
      (
        one.0 || two.0,
        rw (one.1) (or_else one.0 two.0 _ two.1),
        (λ h. elim (or_true one.0 two.0 h) [ inl x ↦ one.2 x | inr x ↦ two.2 x ]),
        seen-Before pre table last v one.0 two.0 one.3 two.3 kept,
      )
