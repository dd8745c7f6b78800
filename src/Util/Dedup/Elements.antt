-- ===== src/Util/Dedup/Elements.antt =====
-- hamerkop/src/util/dedup.rs: the elements of a vector, as `Vec::swap_remove` keeps them.
use hamerkop.Base.{
  ℕ, zero, suc, ◌-◌, ◌≡◌, refl, sym, ap, ◌≢◌, ◌⊎◌, inl, inr, ◌↔◌, Option, none, some, List, [], ◌∷◌,
  ◌++◌, length, get_elem?, set, done, arith, append_assoc, append-nil, length-append,
  get_elem?-append_length, set-append_length, take-append_length,
}
use hamerkop.Util.Dedup.{swap_remove}

module _ {A : Type 0} where
  abbrev pub Has : A → List A → Type 0
  Has a [] = ⊥
  Has a (x ∷ xs) = (a ≡ x) ⊎ Has a xs

  -- No element equals the one before it; the first is compared with the one given.
  abbrev pub Apart : Option A → List A → Type 0
  Apart previous [] = Unit
  Apart none (x ∷ xs) = Apart (some x) xs
  Apart (some p) (x ∷ xs) = (p ≢ x) × Apart (some x) xs

  pub Has-append : (a : A) (xs ys : List A) → Has a (xs ++ ys) → Has a xs ⊎ Has a ys
  Has-append a [] ys h = inr h
  Has-append a (x ∷ xs) ys (inl e) = inl (inl e)
  Has-append a (x ∷ xs) ys (inr h) = elim (Has-append a xs ys h) [
    | inl l ↦ inl (inr l)
    | inr r ↦ inr r
  ]

  pub Has-left : (a : A) (xs ys : List A) → Has a xs → Has a (xs ++ ys)
  Has-left a [] ys h = absurd h
  Has-left a (x ∷ xs) ys (inl e) = inl e
  Has-left a (x ∷ xs) ys (inr h) = inr (Has-left a xs ys h)

  pub Has-right : (a : A) (xs ys : List A) → Has a ys → Has a (xs ++ ys)
  Has-right a [] ys h = h
  Has-right a (x ∷ xs) ys h = inr (Has-right a xs ys h)

  pub Has-at : (a : A) (xs : List A) (i : ℕ) → get_elem? xs i ≡ some a → Has a xs
  Has-at a [] i h = absurd (cc)
  Has-at a (x ∷ xs) zero h = inl (cc)
  Has-at a (x ∷ xs) (suc i) h = inr (Has-at a xs i h)

  -- A list is empty or has a last element.
  last_view : (x : A) (xs : List A) → (body : List A) × (w : A) × ((x ∷ xs) ≡ (body ++ (w ∷ [])))
  last_view x [] = ([], x, refl)
  last_view x (y ∷ xs) = let r = last_view y xs in ((x ∷ r.0), r.1, ap (λ t. x ∷ t) r.2)

  swap_back : (a w : A) (body : List A) → Has a (w ∷ body) ↔ Has a (body ++ (w ∷ []))
  swap_back a w body = (
    elim [ inl e ↦ Has-right a body (w ∷ []) (inl e) | inr h ↦ Has-left a body (w ∷ []) h ],
    λ h. elim (Has-append a body (w ∷ []) h) [
      | inl l ↦ inr l
      | inr (inl e) ↦ inl e
      | inr (inr bad) ↦ absurd bad
    ],
  )

  swap_none : (pre : List A) (v : A) → swap_remove (pre ++ (v ∷ [])) (length pre) ≡ done (pre ++ [])
  unfolding swap_remove
  swap_none pre v =
      let size : (length (pre ++ (v ∷ [])) - 1) ≡ length pre =
        rw (length-append pre (v ∷ [])) omega arith in
      rw (
        size,
        get_elem?-append_length pre v [],
        set-append_length pre v v [],
        take-append_length pre (v ∷ []),
        append-nil pre,
      )

  length_last :
      (w : A) (body rest : List A) → rest ≡ (body ++ (w ∷ [])) → length (w ∷ body) ≡ length rest
  length_last w body rest e = rw (e, length-append body (w ∷ [])) omega arith

  swap_last :
      (pre : List A) (v w : A) (body rest : List A)
      → rest ≡ (body ++ (w ∷ []))
      → swap_remove (pre ++ (v ∷ rest)) (length pre) ≡ done (pre ++ (w ∷ body))
  unfolding swap_remove
  swap_last pre v w body rest e =
      let whole : (pre ++ (v ∷ rest)) ≡ ((pre ++ (v ∷ body)) ++ (w ∷ [])) =
        rw (e, append_assoc) refl in
      let size : (length (pre ++ (v ∷ rest)) - 1) ≡ length (pre ++ (v ∷ body)) =
        rw (whole, length-append (pre ++ (v ∷ body)) (w ∷ [])) omega arith in
      let got : get_elem? (pre ++ (v ∷ rest)) (length (pre ++ (v ∷ body))) ≡ some w =
        rw (whole, get_elem?-append_length (pre ++ (v ∷ body)) w []) refl in
      let moved : set (pre ++ (v ∷ rest)) (length pre) w ≡ ((pre ++ (w ∷ body)) ++ (w ∷ [])) =
        rw (set-append_length pre v w rest, e, append_assoc) refl in
      let even : length (pre ++ (v ∷ body)) ≡ length (pre ++ (w ∷ body)) =
        rw (length-append pre (v ∷ body), length-append pre (w ∷ body)) refl in
      rw (size, got, moved, even, take-append_length (pre ++ (w ∷ body)) (w ∷ []))

  moved_back :
      (a w : A) (body rest : List A) → rest ≡ (body ++ (w ∷ [])) → Has a (w ∷ body) ↔ Has a rest
  moved_back a w body rest e = rw (e) (swap_back a w body)

  pub swap_remove_lem :
      (pre : List A) (v : A) (rest : List A)
      → (moved : List A) × (swap_remove (pre ++ (v ∷ rest)) (length pre) ≡ done (pre ++ moved))
        × (length moved ≡ length rest)
        × ((a : A) → Has a moved ↔ Has a rest)
  swap_remove_lem pre v [] = ([], swap_none pre v, refl, λ a. ((λ h. h), λ h. h))
  swap_remove_lem pre v (x ∷ xs) =
      let view = last_view x xs in
      let body = view.0 in
      let w = view.1 in
      let e : (x ∷ xs) ≡ (body ++ (w ∷ [])) = view.2 in
      (
        w ∷ body,
        swap_last pre v w body (x ∷ xs) e,
        length_last w body (x ∷ xs) e,
        λ a. moved_back a w body (x ∷ xs) e,
      )

  unfoldable pub Before : Option A → A → Type 0
  Before none v = Unit
  Before (some p) v = p ≢ v

  pub Apart-cons :
      (last : Option A) (v : A) (xs : List A)
      → Before last v
      → Apart (some v) xs
      → Apart last (v ∷ xs)
  unfolding Before
  Apart-cons none v xs h k = k
  Apart-cons (some p) v xs h k = (h, k)

  pub Has-trans :
      (a : A) (xs ys zs : List A) → Has a xs ↔ Has a ys → Has a ys ↔ Has a zs → Has a xs ↔ Has a zs
  Has-trans a xs ys zs (f, g) (h, k) = ((λ x. h (f x)), λ x. g (k x))

  pub Has-swap :
      (a : A) (pre : List A) (v : A) (rest moved : List A)
      → Has v pre
      → Has a moved ↔ Has a rest
      → Has a (pre ++ moved) ↔ Has a (pre ++ (v ∷ rest))
  Has-swap a pre v rest moved had (to, from) = (
    (λ h. elim (Has-append a pre moved h) [
      | inl l ↦ Has-left a pre (v ∷ rest) l
      | inr r ↦ Has-right a pre (v ∷ rest) (inr (to r))
    ]),
    λ h. elim (Has-append a pre (v ∷ rest) h) [
      | inl l ↦ Has-left a pre moved l
      | inr (inl e) ↦ Has-left a pre moved (rw (e) had)
      | inr (inr r) ↦ Has-right a pre moved (from r)
    ],
  )

  pub Has-assoc :
      (a : A) (pre : List A) (v : A) (kept rest : List A)
      → Has a ((pre ++ (v ∷ [])) ++ kept) ↔ Has a ((pre ++ (v ∷ [])) ++ rest)
      → Has a (pre ++ (v ∷ kept)) ↔ Has a (pre ++ (v ∷ rest))
  Has-assoc a pre v kept rest h =
      let k : ((pre ++ (v ∷ [])) ++ kept) ≡ (pre ++ (v ∷ kept)) = append_assoc pre (v ∷ []) kept in
      let r : ((pre ++ (v ∷ [])) ++ rest) ≡ (pre ++ (v ∷ rest)) = append_assoc pre (v ∷ []) rest in
      rw (sym k, sym r) h
