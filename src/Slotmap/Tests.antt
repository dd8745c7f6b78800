-- ===== src/Slotmap/Tests.antt =====
-- The theorems on the map at concrete maps.
use hamerkop.Base.{ℕ, ◌≡◌, ◌∙◌, ap, if◌then◌else◌, ==_refl, none, some, arith, done}
use hamerkop.Slotmap.{StableSlotmap, new, insert, remove, get}
use hamerkop.Slotmap.Invariant.{IsValid, HasRoom}
use hamerkop.Slotmap.Laws.{insert_lem, remove_lem, Inserted, Removed}
use hamerkop.Slotmap.Iter.{new-IsValid}

fresh : HasRoom (new {A = ℕ})
unfolding new
fresh = λ _. omega arith

-- the map that holds one number, and its index
abbrev one_number : StableSlotmap ℕ
one_number = (insert_lem (new {A = ℕ}) 7 new-IsValid fresh).1

abbrev at : ℕ
at = (insert_lem (new {A = ℕ}) 7 new-IsValid fresh).0

one_number-IsValid : IsValid one_number
one_number-IsValid = (insert_lem (new {A = ℕ}) 7 new-IsValid fresh).3.valid

gets_number : get one_number at ≡ some 7
gets_number =
    (insert_lem (new {A = ℕ}) 7 new-IsValid fresh).3.gets at
    ∙ ap (λ b. if b then some 7 else get (new {A = ℕ}) at) (==_refl at)

insert_lem_example :
    (i : ℕ) × (m' : StableSlotmap ℕ) × (insert new 7 ≡ done (i, m')) × Inserted new 7 i m'
insert_lem_example = insert_lem new 7 new-IsValid fresh

remove_lem_example :
    ((remove one_number at).0 ≡ get one_number at)
    × Removed one_number at (remove one_number at).1
    × (get one_number at ≡ none → (remove one_number at).1 ≡ one_number)
remove_lem_example = remove_lem one_number at one_number-IsValid
