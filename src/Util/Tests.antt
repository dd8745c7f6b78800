-- ===== src/Util/Tests.antt =====
-- The theorems on the utilities at concrete inputs.
use hamerkop.Base.{
  ℕ, ◌+◌, ◌≡◌, refl, ◌↔◌, List, [], ◌∷◌, none, some, done, ◌==◌, ==_iff, false, zero, suc, leb,
  if◌then◌else◌, length, take, drop, arith,
}
use hamerkop.Util.Dedup.{dedup_partial}
use hamerkop.Util.Dedup.Elements.{Has, Apart}
use hamerkop.Util.Dedup.Keeps.{dedup_partial-Apart}
use hamerkop.Util.Chunks.{DisjointChunksExact, next, concat, next_lem}
use hamerkop.Util.Chunks
use hamerkop.Util.Join.{Join, PollFuture, poll, Polls, poll_lem}

abbrev repeated : List ℕ
repeated = 1 ∷ 1 ∷ 1 ∷ 2 ∷ 2 ∷ 1 ∷ []

dedup_partial-Apart_example :
    (kept : List ℕ) × (dedup_partial (λ a b. a == b) (λ seed v. seed + v) repeated
      ≡ done (some kept))
    × Apart none kept
    × ((a : ℕ) → Has a kept ↔ Has a repeated)
dedup_partial-Apart_example =
    dedup_partial-Apart (λ a b. a == b) (λ seed v. seed + v) ==_iff repeated

-- the test of the source: pairs of three elements and four
abbrev chunks : DisjointChunksExact ℕ
chunks = record { slices = (1 ∷ 2 ∷ 3 ∷ []) ∷ (4 ∷ 5 ∷ 6 ∷ 7 ∷ []) ∷ [] }

from_the_source : Chunks.new (1 ∷ 2 ∷ 3 ∷ []) (4 ∷ 5 ∷ 6 ∷ 7 ∷ []) ≡ chunks
unfolding Chunks.new
from_the_source = refl

next_lem_example :
    (later : DisjointChunksExact ℕ) × (next 4 2 chunks
      ≡ some (
        if leb 2 (length (concat chunks.slices))
            then some (take 2 (concat chunks.slices))
            else none,
        later,
      ))
    × (concat later.slices ≡ drop 2 (concat chunks.slices))
next_lem_example = next_lem 4 2 chunks (omega arith)

-- of two futures, the second is ready
abbrev second_ready : PollFuture ℕ ℕ
second_ready zero = (none, zero)
second_ready (suc n) = (some n, zero)

abbrev two_futures : Join ℕ
two_futures = record {
  slots = record { future = 0; state = false } ∷ record { future = 8; state = false } ∷ [];
}

poll_lem_example : Polls second_ready two_futures.slots (poll second_ready two_futures)
poll_lem_example = poll_lem second_ready two_futures
