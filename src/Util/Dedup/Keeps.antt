-- ===== src/Util/Dedup/Keeps.antt =====
-- hamerkop/src/util/dedup.rs: what `dedup_partial` promises of the vector it leaves.
use hamerkop.Base.{
  ℕ, zero, suc, ◌+◌, ◌%◌, ◌≡◌, refl, sym, ◌∙◌, ◌↔◌, Bool, true, false, Option, none, some, List, [],
  ◌∷◌, ◌++◌, length, get_elem?, Outcome, done, arith, append_assoc, append-nil, length-append,
  get_elem?-append_length,
}
use hamerkop.Util.Dedup.Elements.{
  Has, Apart, swap_remove_lem, Before, Apart-cons, Has-trans, Has-swap, Has-assoc,
}
use hamerkop.Util.Dedup.Pointers.{Below, Kept, record_value_lem, seen_lem}
use hamerkop.Util.Dedup.{
  Table, swap_remove, hash1, hash2, seen, record_value, dedup_from, dedup_partial,
}

module _ {A : Type 0} (eq : A → A → Bool) (finish : ℕ → A → ℕ)
    (eq_iff : (a b : A) → (eq a b ≡ true) ↔ (a ≡ b)) where
  -- What the loop leaves behind a prefix that it has kept.
  Leaves : List A → Option A → List A → Outcome (Option (List A)) → Type 0
  Leaves pre last post ends =
      (kept : List A) × (ends ≡ done (some (pre ++ kept)))
      × Apart last kept
      × ((a : A) → Has a (pre ++ kept) ↔ Has a (pre ++ post))

  Leaves-removed :
      (pre : List A) (last : Option A) (v : A) (rest moved : List A)
      (ends : Outcome (Option (List A)))
      → Has v pre
      → ((a : A) → Has a moved ↔ Has a rest)
      → Leaves pre last moved ends
      → Leaves pre last (v ∷ rest) ends
  unfolding Leaves
  Leaves-removed pre last v rest moved ends had same (kept, e, apart, iff) =
      (kept, e, apart, λ a. Has-trans a _ _ _ (iff a) (Has-swap a pre v rest moved had (same a)))

  Leaves-kept :
      (pre : List A) (last : Option A) (v : A) (rest : List A) (ends : Outcome (Option (List A)))
      → Before last v
      → Leaves (pre ++ (v ∷ [])) (some v) rest ends
      → Leaves pre last (v ∷ rest) ends
  unfolding Leaves
  Leaves-kept pre last v rest ends before (kept, e, apart, iff) = (
    v ∷ kept,
    rw (e, append_assoc) refl,
    Apart-cons last v kept before apart,
    λ a. Has-assoc a pre v kept rest (iff a),
  )

  ends_here :
      (pre : List A) (table : Table)
      → dedup_from eq finish 0 (length pre) pre table ≡ done (some pre)
  unfolding dedup_from
  ends_here pre table = ground arith

  step_removes :
      (fuel i : ℕ) (xs ys : List A) (v : A) (table : Table)
      → get_elem? xs i ≡ some v
      → seen eq xs table (hash1 finish v % 128) (hash2 finish v % 128) v ≡ done true
      → swap_remove xs i ≡ done ys
      → dedup_from eq finish (suc fuel) i xs table ≡ dedup_from eq finish fuel i ys table
  unfolding dedup_from
  step_removes fuel i xs ys v table at dup gone = rw (at, dup, gone, dedup_from)

  step_keeps :
      (fuel i : ℕ) (xs : List A) (v : A) (table : Table)
      → get_elem? xs i ≡ some v
      → seen eq xs table (hash1 finish v % 128) (hash2 finish v % 128) v ≡ done false
      → dedup_from eq finish (suc fuel) i xs table
        ≡ dedup_from eq finish fuel
            (i + 1)
            xs
            (record_value table (hash1 finish v % 128) (hash2 finish v % 128) i)
  unfolding dedup_from
  step_keeps fuel i xs v table at new = rw (at, new, dedup_from)

  -- The loop at a prefix it has kept, by what it finds of the next value.
  Loop : ℕ → Type 0
  Loop fuel =
      (pre post : List A) (table : Table) (last : Option A)
      → length post ≡ fuel
      → Below table (length pre)
      → Kept finish table pre last
      → Leaves pre last post (dedup_from eq finish fuel (length pre) (pre ++ post) table)

  Loop-step :
      (fuel : ℕ) (pre : List A) (v : A) (rest : List A) (table : Table) (last : Option A) (b : Bool)
      → Loop fuel
      → length rest ≡ fuel
      → Below table (length pre)
      → Kept finish table pre last
      → seen eq (pre ++ (v ∷ rest)) table (hash1 finish v % 128) (hash2 finish v % 128) v ≡ done b
      → (b ≡ true → Has v pre)
      → (b ≡ false → Before last v)
      → Leaves pre last
          (v ∷ rest)
          (dedup_from eq finish (suc fuel) (length pre) (pre ++ (v ∷ rest)) table)
  unfolding Loop
  Loop-step fuel pre v rest table last true loop size below kept is_seen had before =
      let (moved, gone, len, same) = swap_remove_lem pre v rest in
      rw
        (step_removes fuel (length pre) (pre ++ (v ∷ rest)) (pre ++ moved) v table
          (get_elem?-append_length pre v rest) is_seen gone)
        (Leaves-removed pre last v rest moved _ (had refl) same
          (loop pre moved table last (len ∙ size) below kept))
  Loop-step fuel pre v rest table last false loop size below kept is_seen had before =
      let now = record_value table (hash1 finish v % 128) (hash2 finish v % 128) (length pre) in
      let recorded = record_value_lem finish pre v table below in
      let long : length (pre ++ (v ∷ [])) ≡ (length pre + 1) = length-append pre (v ∷ []) in
      let tail : ((pre ++ (v ∷ [])) ++ rest) ≡ (pre ++ (v ∷ rest)) =
        append_assoc pre (v ∷ []) rest in
      let under : Below now (length (pre ++ (v ∷ []))) = rw (long) recorded.0 in
      let next = loop (pre ++ (v ∷ [])) rest now (some v) size under recorded.1 in
      rw
        (step_keeps fuel (length pre) (pre ++ (v ∷ rest)) v table
          (get_elem?-append_length pre v rest) is_seen)
        (Leaves-kept pre last v rest _ (before refl) (rw (sym long, sym tail) next))

  Leaves-all : (pre : List A) (last : Option A) → Leaves pre last [] (done (some pre))
  unfolding Leaves
  Leaves-all pre last = ([], rw (append-nil pre) refl, tt, λ a. ((λ h. h), λ h. h))

  dedup_from_lem : (fuel : ℕ) → Loop fuel
  unfolding Loop
  dedup_from_lem zero pre [] table last size below kept =
      rw (append-nil pre, ends_here pre table) (Leaves-all pre last)
  dedup_from_lem zero pre (x ∷ post) table last size below kept = absurd (omega arith)
  dedup_from_lem (suc fuel) pre [] table last size below kept = absurd (omega arith)
  dedup_from_lem (suc fuel) pre (v ∷ rest) table last size below kept =
      let found = seen_lem eq finish eq_iff pre v rest table last below kept in
      Loop-step fuel pre v rest table last found.0 (dedup_from_lem fuel) (omega arith) below kept
        found.1 found.2 found.3

  -- With an equality that decides equality, whatever the hash: `dedup_partial` ends within as many rounds as the
  -- vector has elements, reads no memory outside it, and leaves a vector that has the same elements as before, none
  -- of them equal to the one before it.
  pub dedup_partial-Apart :
      (xs : List A)
      → (kept : List A) × (dedup_partial eq finish xs ≡ done (some kept))
        × Apart none kept
        × ((a : A) → Has a kept ↔ Has a xs)
  unfolding dedup_partial Leaves Below Kept Loop
  dedup_partial-Apart xs =
      dedup_from_lem (length xs) [] xs (λ _. none) none refl (λ k j h. absurd (cc)) tt
