-- ===== src/Executor/Runtime/Polling.antt =====
-- hamerkop/src/executor/runtime.rs: the loop that polls the run queue.
use native.Mathlib.Decide.{ℕ_discrete}
use hamerkop.Base.{
  ℕ, suc, ◌≡◌, refl, sym, ap, ◌∙◌, ◌≢◌, inl, inr, true, false, none, some, List, [], ◌∷◌, ◌==◌,
  arith, Option-cases,
}
use hamerkop.Slotmap.{StableSlotmap, get, get_mut, remove}
use hamerkop.Slotmap.Invariant.{IsValid}
use hamerkop.Slotmap.Laws.{remove_lem}
use hamerkop.Slotmap.Iter.{get_mut_lem, is_some}
use hamerkop.Util.Dedup.Elements.{Has}
use hamerkop.Executor.{IoContext}
use hamerkop.Executor.Runtime.{Polled, ready, pending, unwinds, turned, Round, run_each}

module _ {F : Type 0} (poll_future : ℕ → F → IoContext F → Polled F) where
  -- No future panics.
  abbrev pub Calm : Type 0
  Calm =
      (id : ℕ) (future : F) (ctx after : IoContext F)
      → ¬ (poll_future id future ctx ≡ unwinds after)

  -- What the loop leaves of a queue: it ends, the futures stay a valid map, and a future that is there is polled.
  unfoldable pub RunsAll : List ℕ → StableSlotmap F → Round F → Type 0
  RunsAll ids futures r =
      (r.ended ≡ turned)
      × IsValid r.futures
      × ((id : ℕ) → Has id ids → is_some (get futures id) ≡ true → Has id r.polled)

  get_removed :
      (futures : StableSlotmap F) (id j : ℕ)
      → IsValid futures
      → j ≢ id
      → get (remove futures id).1 j ≡ get futures j
  get_removed futures id j valid ne =
      let (_, gone, _) = remove_lem futures id valid in
      let other : (id == j) ≡ false = ground (arith, ne) in gone.gets j ∙ rw (other) refl

  get_updated :
      (futures : StableSlotmap F) (id j : ℕ) (f : F)
      → IsValid futures
      → j ≢ id
      → get (get_mut futures id f).1 j ≡ get futures j
  get_updated futures id j f valid ne =
      let (_, gets, _, _) = get_mut_lem futures id f valid in
      let other : (id == j) ≡ false = ground (arith, ne) in gets j ∙ rw (other) ground arith

  runs_skip :
      (id : ℕ) (ids : List ℕ) (futures : StableSlotmap F) (r : Round F)
      → get futures id ≡ none
      → RunsAll ids futures r
      → RunsAll (id ∷ ids) futures r
  unfolding RunsAll
  runs_skip id ids futures r h (ended, valid, polls) = (
    ended,
    valid,
    λ j. elim [
      | inl e ↦ λ there. absurd (
          let c : is_some (get futures id) ≡ true =
            ap (λ i. is_some (get futures i)) (sym e) ∙ there in
          ground (arith, c, h))
      | inr rest ↦ λ there. polls j rest there
    ],
  )

  runs_polled :
      (id : ℕ) (ids : List ℕ) (futures after : StableSlotmap F) (r : Round F) (decrements : ℕ)
      → ((j : ℕ) → j ≢ id → get after j ≡ get futures j)
      → RunsAll ids after r
      → RunsAll (id ∷ ids) futures (record r { polled = id ∷ r.polled; decrements = decrements })
  unfolding RunsAll
  runs_polled id ids futures after r decrements same (ended, valid, polls) = (
    ended,
    valid,
    λ j here there. elim (ℕ_discrete j id) [
      | yes e ↦ inl e
      | no ne ↦ elim here [
        | inl e ↦ inl e
        | inr rest ↦ inr (polls j rest (ap is_some (same j ne) ∙ there))
      ]
    ],
  )

  run_each-none :
      (id : ℕ) (ids : List ℕ) (futures : StableSlotmap F) (ctx : IoContext F)
      → get futures id ≡ none
      → run_each poll_future (id ∷ ids) futures ctx ≡ run_each poll_future ids futures ctx
  unfolding run_each
  run_each-none id ids futures ctx h = rw (h, run_each) refl

  RunsAll-step :
      (id : ℕ) (ids : List ℕ) (futures : StableSlotmap F) (ctx : IoContext F) (future : F)
      (p : Polled F)
      → Calm
      → IsValid futures
      → ((fs : StableSlotmap F) (c : IoContext F)
          → IsValid fs
          → RunsAll ids fs (run_each poll_future ids fs c))
      → get futures id ≡ some future
      → poll_future id future ctx ≡ p
      → RunsAll (id ∷ ids) futures (run_each poll_future (id ∷ ids) futures ctx)
  unfolding run_each
  RunsAll-step id ids futures ctx future (ready ctx1) calm valid ih h e =
      let (_, gone, _) = remove_lem futures id valid in
      let after = (remove futures id).1 in
      rw (h, e, run_each)
        (runs_polled id ids futures after (run_each poll_future ids after ctx1)
          (suc (run_each poll_future ids after ctx1).decrements)
          (λ j ne. get_removed futures id j valid ne) (ih after ctx1 gone.valid))
  RunsAll-step id ids futures ctx future (pending later ctx1) calm valid ih h e =
      let (_, _, _, still) = get_mut_lem futures id later valid in
      let after = (get_mut futures id later).1 in
      rw (h, e, run_each)
        (runs_polled id ids futures after (run_each poll_future ids after ctx1)
          (run_each poll_future ids after ctx1).decrements
          (λ j ne. get_updated futures id j later valid ne) (ih after ctx1 still))
  RunsAll-step id ids futures ctx future (unwinds ctx1) calm valid ih h e =
      absurd (calm id future ctx ctx1 e)

  pub run_each_lem :
      (ids : List ℕ) (futures : StableSlotmap F) (ctx : IoContext F)
      → Calm
      → IsValid futures
      → RunsAll ids futures (run_each poll_future ids futures ctx)
  unfolding run_each RunsAll
  run_each_lem [] futures ctx calm valid = (refl, valid, λ id h. absurd h)
  run_each_lem (id ∷ ids) futures ctx calm valid = elim (Option-cases (get futures id)) [
    | inl h ↦ rw (run_each-none id ids futures ctx h) (
        runs_skip id ids futures (run_each poll_future ids futures ctx) h
          (run_each_lem ids futures ctx calm valid))
    | inr (future, h) ↦
        RunsAll-step id ids futures ctx future (poll_future id future ctx) calm valid
          (λ fs c ok. run_each_lem ids fs c calm ok) h refl
  ]
