-- ===== src/FixedVec/Compare.antt =====
-- hamerkop/src/fixedvec.rs: the traits that forward to the slice of the elements. How elements
-- compare is a parameter; a reference is what it refers to.
use Prim.Native.Nat.{Ordering}
use hamerkop.Base.{◌≡◌, refl, Bool, true, false, not, ◌&&◌, List, [], ◌∷◌, Outcome, done, ◌>>=◌}
use hamerkop.FixedVec.Ops.{FixedVec, clear}
use hamerkop.FixedVec.Bulk.{as_slice}
use hamerkop.FixedVec.Cells.{Cells}
use hamerkop.FixedVec.Rep.{holding, read_range-at}

-- the comparisons of slices
pub slice_eq : {A B : Type 0} → (A → B → Bool) → List A → List B → Bool
slice_eq eq [] [] = true
slice_eq eq (x ∷ xs) (y ∷ ys) = eq x y && slice_eq eq xs ys
slice_eq eq xs ys = false

abbrev pub then_cmp : Ordering → Ordering → Ordering
then_cmp Ordering.eq rest = rest
then_cmp Ordering.lt rest = Ordering.lt
then_cmp Ordering.gt rest = Ordering.gt

pub slice_cmp : {A : Type 0} → (A → A → Ordering) → List A → List A → Ordering
slice_cmp cmp [] [] = Ordering.eq
slice_cmp cmp [] (y ∷ ys) = Ordering.lt
slice_cmp cmp (x ∷ xs) [] = Ordering.gt
slice_cmp cmp (x ∷ xs) (y ∷ ys) = then_cmp (cmp x y) (slice_cmp cmp xs ys)

module _ {A : Type 0} where
  unfoldable pub deref : FixedVec A → Outcome (List A)
  deref v = as_slice v

  unfoldable pub as_ref : FixedVec A → Outcome (List A)
  as_ref v = as_slice v

  unfoldable pub borrow : FixedVec A → Outcome (List A)
  borrow v = as_slice v

  unfoldable pub drop_vec : Bool → FixedVec A → Outcome (List A × FixedVec A)
  drop_vec drops v = clear drops v

  unfoldable pub cmp : (A → A → Ordering) → FixedVec A → FixedVec A → Outcome Ordering
  cmp order v w = deref v >>= λ xs. deref w >>= λ ys. done (slice_cmp order xs ys)

  -- What the hasher makes of the slice is a parameter.
  unfoldable pub hash : {H : Type 0} → (List A → H → H) → FixedVec A → H → Outcome H
  hash hash_slice v state = deref v >>= λ xs. done (hash_slice xs state)

module _ {A B : Type 0} (eq : A → B → Bool) where
  unfoldable pub eq_slice : FixedVec A → List B → Outcome Bool
  eq_slice v ys = deref v >>= λ xs. done (slice_eq eq xs ys)

  unfoldable pub ne_slice : FixedVec A → List B → Outcome Bool
  ne_slice v ys = deref v >>= λ xs. done (not (slice_eq eq xs ys))

  unfoldable pub eq_vec : FixedVec A → FixedVec B → Outcome Bool
  eq_vec v w = deref w >>= λ ys. eq_slice v ys

  unfoldable pub ne_vec : FixedVec A → FixedVec B → Outcome Bool
  ne_vec v w = deref w >>= λ ys. ne_slice v ys

  unfoldable pub slice_eq_vec : List A → FixedVec B → Outcome Bool
  slice_eq_vec xs w = deref w >>= λ ys. done (slice_eq eq xs ys)

  unfoldable pub slice_ne_vec : List A → FixedVec B → Outcome Bool
  slice_ne_vec xs w = deref w >>= λ ys. done (not (slice_eq eq xs ys))

deref_lem : {A : Type 0} (xs : List A) (rest : Cells A) → deref (holding xs rest) ≡ done xs
unfolding deref as_slice
deref_lem xs rest = read_range-at [] xs rest refl

-- Two vectors compare as their elements do, whatever their capacities and spare cells.
pub eq_vec-cmp :
    {A : Type 0} (eq : A → A → Bool) (order : A → A → Ordering) (xs ys : List A)
    (rest more : Cells A)
    → (eq_vec eq (holding xs rest) (holding ys more) ≡ done (slice_eq eq xs ys))
      × (ne_vec eq (holding xs rest) (holding ys more) ≡ done (not (slice_eq eq xs ys)))
      × (slice_eq_vec eq xs (holding ys more) ≡ done (slice_eq eq xs ys))
      × (cmp order (holding xs rest) (holding ys more) ≡ done (slice_cmp order xs ys))
unfolding eq_vec ne_vec slice_eq_vec eq_slice ne_slice cmp
eq_vec-cmp eq order xs ys rest more = (
  rw (eq_vec, deref_lem ys more, eq_slice, deref_lem xs rest) refl,
  rw (ne_vec, deref_lem ys more, ne_slice, deref_lem xs rest) refl,
  rw (slice_eq_vec, deref_lem ys more) refl,
  rw (cmp, deref_lem xs rest, deref_lem ys more) refl,
)
