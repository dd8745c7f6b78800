-- ===== src/FixedVec/Tests.antt =====
-- The theorems on the vector at concrete vectors.
use mathlib.Core.List.{Perm}
use hamerkop.Base.{
  ℕ, zero, suc, ◌≡◌, refl, Bool, true, false, none, some, List, [], ◌∷◌, ◌++◌, map, arith, done,
}
use hamerkop.FixedVec.Cells.{Cells}
use hamerkop.FixedVec.Bulk.{retain, append, extend_from_slice, write, write_vectored}
use hamerkop.FixedVec.Rep.{holding}
use hamerkop.FixedVec.Keep.{retain_lem, keep, reject, destroyed}
use hamerkop.FixedVec.Transfer.{extend_from_slice_lem, append_repeats}
use hamerkop.Base.{◌>>=◌}
use hamerkop.FixedVec.Drain.{included, excluded, drain}
use hamerkop.FixedVec.Draining.{drain-collect, used_up, left_over}
use hamerkop.FixedVec.Extend.{concat, write_vectored_lem}

abbrev none_left : List ℕ
none_left = []

abbrev one_two : List ℕ
one_two = 1 ∷ 2 ∷ []

abbrev three_four : List ℕ
three_four = 3 ∷ 4 ∷ []

abbrev spare : Cells ℕ
spare = none ∷ none ∷ []

abbrev no_spare : Cells ℕ
no_spare = []

abbrev odd : ℕ → Bool
odd zero = false
odd (suc zero) = true
odd (suc (suc n)) = odd n

retain_lem_example :
    (g : List ℕ) × Perm g (reject odd (1 ∷ 2 ∷ 3 ∷ 4 ∷ []))
    × (retain true odd (holding (1 ∷ 2 ∷ 3 ∷ 4 ∷ []) spare)
        ≡ done (destroyed true g, holding (keep odd (1 ∷ 2 ∷ 3 ∷ 4 ∷ [])) (map some g ++ spare)))
retain_lem_example = retain_lem true odd (1 ∷ 2 ∷ 3 ∷ 4 ∷ []) spare

extend_from_slice_lem_example :
    extend_from_slice true (holding one_two spare) (3 ∷ 4 ∷ 5 ∷ [])
    ≡ done (2, holding (1 ∷ 2 ∷ 3 ∷ 4 ∷ []) [])
extend_from_slice_lem_example =
    extend_from_slice_lem true one_two spare (3 ∷ 4 ∷ 5 ∷ []) (omega arith)

append_repeats_example :
    append (holding one_two (none ∷ [])) (holding (3 ∷ 4 ∷ 5 ∷ []) [])
    ≡ done (holding (1 ∷ 2 ∷ 3 ∷ []) [], holding (4 ∷ 4 ∷ []) (some 5 ∷ []))
append_repeats_example =
    append_repeats one_two (none ∷ []) (3 ∷ []) (4 ∷ []) (5 ∷ []) [] (omega arith) (omega arith)
      refl refl refl

drain-collect_example :
    (drain (holding (1 ∷ 2 ∷ 3 ∷ 4 ∷ []) spare) (included 1) (excluded 3) >>= λ d. used_up 3 d)
    ≡ done (2 ∷ 3 ∷ [], (2 ∷ 3 ∷ [], holding (1 ∷ 4 ∷ []) (left_over (2 ∷ 3 ∷ []) (4 ∷ []) spare)))
drain-collect_example = drain-collect (1 ∷ []) (2 ∷ 3 ∷ []) (4 ∷ []) spare (omega arith)

-- two buffers, of which the second fits in part
abbrev two_buffers : List (List ℕ)
two_buffers = (2 ∷ 3 ∷ []) ∷ (4 ∷ 5 ∷ []) ∷ []

abbrev three_spare : Cells ℕ
three_spare = none ∷ none ∷ none ∷ []

write_vectored_lem_example :
    write_vectored (holding (1 ∷ []) three_spare) two_buffers
    ≡ write (holding (1 ∷ []) three_spare) (concat two_buffers)
write_vectored_lem_example = write_vectored_lem (1 ∷ []) three_spare two_buffers (omega arith)
