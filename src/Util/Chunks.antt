-- ===== src/Util/Chunks.antt =====
-- hamerkop/src/util/disjoint_chunks.rs: fixed-size chunks of two slices, one after the other. The
-- slices stand with the next one first.
use mathlib.Core.Path.{subst}
use hamerkop.Base.{
  ℕ, zero, suc, ◌+◌, ◌-◌, ◌≤◌, ◌≡◌, refl, sym, ◌∙◌, ap, ap₂, min, Bool-cases, inl, inr, Bool, true,
  false, Option, none, some, List, [], ◌∷◌, ◌++◌, append_assoc, append-nil, if◌then◌else◌, leb,
  length, take, drop, length-append, length-drop, drop_all, arith,
}

pub record DisjointChunksExact (T : Type 0) : Type 0 where
  pub slices : List (List T)

module _ {T : Type 0} where
  unfoldable pub new : List T → List T → DisjointChunksExact T
  new a b = record { slices = a ∷ b ∷ [] }

  abbrev pub is_empty : List T → Bool
  is_empty [] = true
  is_empty (x ∷ xs) = false

  -- The loop of `next` on fuel: what is given back, and the slices behind it.
  unfoldable pub fill_chunk :
      ℕ → ℕ → List T → List (List T) → Option (Option (List T) × List (List T))
  fill_chunk zero remaining tmp slices = none
  fill_chunk (suc fuel) zero tmp slices = some (some tmp, slices)
  fill_chunk (suc fuel) (suc remaining) tmp [] = some (none, [])
  fill_chunk (suc fuel) (suc remaining) tmp (first ∷ others) =
      let count = min (length first) (suc remaining) in
      let rest = drop count first in
      fill_chunk fuel (suc remaining - count) (tmp ++ take count first)
        (if is_empty rest then others else rest ∷ others)

  unfoldable pub next :
      ℕ → ℕ → DisjointChunksExact T → Option (Option (List T) × DisjointChunksExact T)
  next fuel n chunks = elim (fill_chunk fuel n [] chunks.slices) [
    | none ↦ none
    | some (chunk, slices) ↦ some (chunk, record { slices = slices })
  ]

  -- the elements that are left, in order
  abbrev pub concat : List (List T) → List T
  concat [] = []
  concat (s ∷ ss) = s ++ concat ss

  -- what a call leaves: a chunk of `n` elements and the elements behind it, or nothing
  pub Takes : ℕ → List T → List T → Option (Option (List T) × List (List T)) → Type 0
  Takes n tmp elements ends =
      (slices : List (List T)) × (ends
        ≡ some (if leb n (length elements) then some (tmp ++ take n elements) else none, slices))
      × (concat slices ≡ drop n elements)

  append_parts :
      (m k : ℕ) (xs ys : List T)
      → m ≤ length xs
      → take (m + k) (xs ++ ys) ≡ take m xs ++ take k (drop m xs ++ ys)
  append_parts zero k xs ys h = ap (λ j. take j (xs ++ ys)) {x = 0 + k} {y = k} (omega arith)
  append_parts (suc m) k [] ys h = absurd (omega arith)
  append_parts (suc m) k (x ∷ xs) ys h =
      ap (λ j. take j ((x ∷ xs) ++ ys)) {x = suc m + k} {y = suc (m + k)} (omega arith)
      ∙ ap (λ l. x ∷ l) (append_parts m k xs ys (omega arith))

  drop_parts :
      (m k : ℕ) (xs ys : List T)
      → m ≤ length xs
      → drop (m + k) (xs ++ ys) ≡ drop k (drop m xs ++ ys)
  drop_parts zero k xs ys h = ap (λ j. drop j (xs ++ ys)) {x = 0 + k} {y = k} (omega arith)
  drop_parts (suc m) k [] ys h = absurd (omega arith)
  drop_parts (suc m) k (x ∷ xs) ys h =
      ap (λ j. drop j ((x ∷ xs) ++ ys)) {x = suc m + k} {y = suc (m + k)} (omega arith)
      ∙ drop_parts m k xs ys (omega arith)

  -- An emptied slice makes no difference to the elements.
  concat-pop :
      (rest : List T) (others : List (List T))
      → concat (if is_empty rest then others else rest ∷ others) ≡ rest ++ concat others
  concat-pop [] others = refl
  concat-pop (x ∷ xs) others = refl

  Takes-step :
      (m k : ℕ) (tmp first ys : List T) (ends : Option (Option (List T) × List (List T)))
      → m ≤ length first
      → Takes k (tmp ++ take m first) (drop m first ++ ys) ends
      → Takes (m + k) tmp (first ++ ys) ends
  unfolding Takes
  Takes-step m k tmp first ys ends few (slices, e, left) =
      let more : leb k (length (drop m first ++ ys)) ≡ leb (m + k) (length (first ++ ys)) =
        ground
          (arith, length-append (drop m first) ys, length-append first ys, length-drop m first) in
      let chunk : (tmp ++ take m first) ++ take k (drop m first ++ ys)
          ≡ tmp ++ take (m + k) (first ++ ys) =
        append_assoc tmp (take m first) (take k (drop m first ++ ys))
        ∙ ap (λ l. tmp ++ l) (sym (append_parts m k first ys few)) in
      (
        slices,
        e ∙ ap₂ (λ b l. some (if b then some l else none, slices)) more chunk,
        left ∙ sym (drop_parts m k first ys few),
      )

  rounds : ℕ → List (List T) → ℕ
  rounds zero slices = 1
  rounds (suc remaining) slices = length slices + 2

  rounds_few :
      (remaining : ℕ) (slices : List (List T)) → rounds remaining slices ≤ length slices + 2
  unfolding rounds
  rounds_few zero slices = omega arith
  rounds_few (suc remaining) slices = omega arith

  -- A slice that is not emptied fills the chunk.
  rounds_next :
      (first : List T) (remaining : ℕ) (others : List (List T))
      → rounds (suc remaining - min (length first) (suc remaining)) (
          if is_empty (drop (min (length first) (suc remaining)) first)
          then others
          else drop (min (length first) (suc remaining)) first ∷ others)
        ≤ length others + 2
  unfolding rounds
  rounds_next first remaining others =
      let count = min (length first) (suc remaining) in
      elim (Bool-cases (leb (length first) (suc remaining))) [
        | inl short ↦
            let all = drop_all count first (ground (arith, short)) in
            rw (all) (rounds_few (suc remaining - count) others)
        | inr long ↦
            let full : suc remaining - count ≡ zero = ground (arith, long) in
            rw (full, rounds) (omega arith)
      ]

  fill_chunk_lem :
      (fuel remaining : ℕ) (tmp : List T) (slices : List (List T))
      → rounds remaining slices ≤ fuel
      → Takes remaining tmp (concat slices) (fill_chunk fuel remaining tmp slices)
  unfolding Takes fill_chunk rounds
  fill_chunk_lem zero zero tmp slices enough = absurd (omega arith)
  fill_chunk_lem zero (suc remaining) tmp slices enough = absurd (omega arith)
  fill_chunk_lem (suc fuel) zero tmp slices enough =
      let none_needed : leb 0 (length (concat slices)) ≡ true = ground arith in
      (slices, rw (none_needed, append-nil) refl, refl)
  fill_chunk_lem (suc fuel) (suc remaining) tmp [] enough =
      let short : leb (suc remaining) 0 ≡ false = ground arith in ([], rw (short) refl, refl)
  fill_chunk_lem (suc fuel) (suc remaining) tmp (first ∷ others) enough =
      let count = min (length first) (suc remaining) in
      let rest = drop count first in
      let later = if is_empty rest then others else rest ∷ others in
      let after =
        fill_chunk_lem fuel (suc remaining - count) (tmp ++ take count first) later
          (omega (arith, rounds_next first remaining others)) in
      let joined =
        subst
          (λ l.
            Takes (suc remaining - count) (tmp ++ take count first) l
              (fill_chunk fuel (suc remaining - count) (tmp ++ take count first) later))
          (concat-pop rest others) after in
      subst
        (λ n.
          Takes n tmp (first ++ concat others)
            (fill_chunk (suc fuel) (suc remaining) tmp (first ∷ others)))
        {x = count + (suc remaining - count)} {y = suc remaining} (omega arith)
        (Takes-step count (suc remaining - count) tmp first (concat others) _ (omega arith) joined)

  -- With fuel for two rounds more than there are slices, `next` gives the next `n` elements of the
  -- slices, one after the other, across the end of a slice and past empty ones, and leaves those
  -- behind them. Where fewer than `n` are left it gives nothing and leaves nothing.
  pub next_lem :
      (fuel n : ℕ) (chunks : DisjointChunksExact T)
      → length chunks.slices + 2 ≤ fuel
      → (later : DisjointChunksExact T) × (next fuel n chunks
          ≡ some (
            if leb n (length (concat chunks.slices))
                then some (take n (concat chunks.slices))
                else none,
            later,
          ))
        × (concat later.slices ≡ drop n (concat chunks.slices))
  unfolding next Takes
  next_lem fuel n chunks enough =
      let (slices, e, left) =
        fill_chunk_lem fuel n [] chunks.slices (omega (arith, rounds_few n chunks.slices)) in
      (record { slices = slices }, rw (next, e) refl, left)
