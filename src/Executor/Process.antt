-- ===== src/Executor/Process.antt =====
-- hamerkop/src/executor/handle.rs: `process_cqes` on all the entries that the kernel has filled.
use mathlib.Core.Path.{subst}
use hamerkop.Base.{
  ℕ, ◌-◌, ◌≡◌, refl, sym, ap, ap₂, ◌∙◌, Bool, true, false, ◌||◌, Option, none, some, List, [], ◌∷◌,
  ◌++◌, ◌==◌, if◌then◌else◌, Outcome, done, ◌>>=◌, arith, append_assoc, append-nil, Bool-cases, inl,
  inr, length,
}
use hamerkop.Slotmap.{StableSlotmap, get}
use hamerkop.Slotmap.Invariant.{IsValid}
use hamerkop.FixedVec.Ops.{FixedVec}
use hamerkop.Uring.RingBuf.{into_iter, len}
use hamerkop.Uring.Completion.{CompletionQueueEvent, available, advance}
use hamerkop.Uring.Completion.Order.{
  IsFilled, available_lem, available_ring, filled_ring, advance-IsFilled,
}
use hamerkop.Executor.{CompletionEvent, IoContext, process_each, process_cqes}
use hamerkop.Executor.Deliver.{
  Events, settled, delivered, woken_by, frees, Delivers, process_cqe_lem,
}

-- the events for one completion, in order
abbrev pub mine : ℕ → List CompletionQueueEvent → List CompletionQueueEvent
mine i [] = []
mine i (e ∷ es) = if e.user_data == i then e ∷ mine i es else mine i es

-- what a number of events for one completion leave of it: the last event, or nothing if its task is dead
abbrev pub settle : Option CompletionEvent → List CompletionQueueEvent → Option CompletionEvent
settle o [] = o
settle o (e ∷ es) = settle (settled e o) es

-- the tasks that the events wake, in their order
abbrev pub wakes : Events → List CompletionQueueEvent → List ℕ
wakes events [] = []
wakes events (e ∷ es) = woken_by (events e.user_data) ++ wakes events es

-- Whether the events delete the buffer.
abbrev pub freed : Events → List CompletionQueueEvent → ℕ → Bool
freed events [] b = false
freed events (e ∷ es) b = frees e (events e.user_data) b || freed (delivered events e) es b

delivered_all : Events → List CompletionQueueEvent → Events
delivered_all events [] = events
delivered_all events (e ∷ es) = delivered_all (delivered events e) es

woken_all : Events → List CompletionQueueEvent → List ℕ
woken_all events [] = []
woken_all events (e ∷ es) = woken_by (events e.user_data) ++ woken_all (delivered events e) es

-- An event leaves the task of an entry, or removes an entry that wakes nobody.
woken_by-settled :
    (e : CompletionQueueEvent) (o : Option CompletionEvent) → woken_by (settled e o) ≡ woken_by o
woken_by-settled e none = refl
woken_by-settled e (some ce) = ground arith

woken_by-delivered :
    (events : Events) (e : CompletionQueueEvent) (i : ℕ)
    → woken_by (delivered events e i) ≡ woken_by (events i)
woken_by-delivered events e i = elim (Bool-cases (e.user_data == i)) [
  | inl same ↦ rw (same) (woken_by-settled e (events i))
  | inr other ↦ rw (other) refl
]

wakes_same :
    (f g : Events) (es : List CompletionQueueEvent)
    → ((i : ℕ) → woken_by (f i) ≡ woken_by (g i))
    → wakes f es ≡ wakes g es
wakes_same f g [] h = refl
wakes_same f g (e ∷ es) h = ap₂ (λ a b. a ++ b) (h e.user_data) (wakes_same f g es h)

woken_all-wakes :
    (events : Events) (es : List CompletionQueueEvent) → woken_all events es ≡ wakes events es
unfolding woken_all
woken_all-wakes events [] = refl
woken_all-wakes events (e ∷ es) =
    ap (λ t. woken_by (events e.user_data) ++ t)
      (woken_all-wakes (delivered events e) es
        ∙ wakes_same (delivered events e) events es (woken_by-delivered events e))

delivered_all-settle :
    (events : Events) (es : List CompletionQueueEvent) (i : ℕ)
    → delivered_all events es i ≡ settle (events i) (mine i es)
unfolding delivered_all
delivered_all-settle events [] i = refl
delivered_all-settle events (e ∷ es) i = elim (Bool-cases (e.user_data == i)) [
  | inl same ↦ delivered_all-settle (delivered events e) es i ∙ rw (same) refl
  | inr other ↦ delivered_all-settle (delivered events e) es i ∙ rw (other) refl
]

if_or :
    (p q : Bool) (o : Option (FixedVec ℕ))
    → (if q then none else (if p then none else o)) ≡ (if p || q then none else o)
if_or true true o = refl
if_or true false o = refl
if_or false q o = refl

module _ {F : Type 0} where
  Processes :
      IoContext F
      → List ℕ
      → Events
      → List CompletionQueueEvent
      → Outcome (IoContext F × List ℕ)
      → Type 0
  Processes ctx tasks events es ends =
      (cs : StableSlotmap CompletionEvent) × (bs : StableSlotmap (FixedVec ℕ)) × (ends
        ≡ done (record ctx { completions = cs; buffers = bs }, tasks ++ woken_all events es))
      × IsValid cs
      × IsValid bs
      × (get cs ≡ delivered_all events es)
      × ((b : ℕ) → get bs b ≡ (if freed events es b then none else get ctx.buffers b))

  process_each_lem :
      (ctx : IoContext F) (tasks : List ℕ) (events : Events) (es : List CompletionQueueEvent)
      → IsValid ctx.completions
      → IsValid ctx.buffers
      → get ctx.completions ≡ events
      → Processes ctx tasks events es (process_each ctx tasks es)
  unfolding Processes process_each woken_all delivered_all Delivers
  process_each_lem ctx tasks events [] vc vb same =
      (ctx.completions, ctx.buffers, rw (append-nil tasks) refl, vc, vb, same, λ b. refl)
  process_each_lem ctx tasks events (e ∷ es) vc vb same =
      let here : get ctx.completions e.user_data ≡ events e.user_data =
        ap (λ f. f e.user_data) same in
      let (cs, bs, ends, vcs, vbs, gets, keeps) =
        process_cqe_lem ctx tasks e (events e.user_data) vc vb here in
      let next : get cs ≡ delivered events e = λ t i. (gets i ∙ ap (λ f. delivered f e i) same) t in
      let ctx1 = record ctx { completions = cs; buffers = bs } in
      let (cs2, bs2, ends2, vcs2, vbs2, gets2, keeps2) =
        process_each_lem ctx1 (tasks ++ woken_by (events e.user_data)) (delivered events e) es vcs
          vbs next in
      (
        cs2,
        bs2,
        rw (ends) (ends2 ∙ rw (append_assoc) refl),
        vcs2,
        vbs2,
        gets2,
        λ b.
            keeps2 b
            ∙ rw (keeps b) (
                if_or (frees e (events e.user_data) b) (freed (delivered events e) es b)
                  (get ctx.buffers b)),
      )

  -- When the kernel has filled n entries of the completion queue, `process_cqes` reads those n in order and gives all of
  -- them back, and neither panics nor reads memory that holds no entry. Each completion then has the last event for it,
  -- and is removed if its task is dead; the tasks that wait for one of them are given to the run queue in the order of
  -- the events; exactly the buffers that an error for a dead task was to delete are removed; and both maps stay valid.
  pub process_cqes_lem :
      (k n : ℕ) (ctx : IoContext F)
      → IsFilled k n ctx.cq
      → IsValid ctx.completions
      → IsValid ctx.buffers
      → (es : List CompletionQueueEvent) × (after : IoContext F) × ((available ctx.cq >>= into_iter)
          ≡ done es)
        × (length es ≡ n)
        × (process_cqes ctx ≡ done (after, wakes (get ctx.completions) es))
        × IsFilled k 0 after.cq
        × IsValid after.completions
        × IsValid after.buffers
        × ((i : ℕ) → get after.completions i ≡ settle (get ctx.completions i) (mine i es))
        × ((b : ℕ)
            → get after.buffers b
              ≡ (if freed (get ctx.completions) es b then none else get ctx.buffers b))
        × (after ≡ record ctx {
          cq = after.cq;
          completions = after.completions;
          buffers = after.buffers;
        })
  unfolding process_cqes Processes filled_ring len
  process_cqes_lem k n ctx filled vc vb =
      let (es, yields, size, _) = available_lem k n ctx.cq filled in
      let (cs, bs, ends, vcs, vbs, gets, keeps) =
        process_each_lem ctx [] (get ctx.completions) es vc vb refl in
      let ring : available ctx.cq ≡ done (filled_ring k n ctx.cq) =
        available_ring k n ctx.cq filled in
      let it : into_iter (filled_ring k n ctx.cq) ≡ done es =
        ap (λ o. o >>= into_iter) (sym ring) ∙ yields in
      (
        es,
        record ctx { cq = advance ctx.cq n; completions = cs; buffers = bs },
        yields,
        size,
        rw (ring, it, ends, process_cqes, woken_all-wakes (get ctx.completions) es) refl,
        subst (λ m. IsFilled k m (advance ctx.cq n)) {x = n - n} {y = 0} (omega arith)
            (advance-IsFilled k n n ctx.cq filled (omega arith)),
        vcs,
        vbs,
        (λ i. ap (λ f. f i) gets ∙ delivered_all-settle (get ctx.completions) es i),
        keeps,
        refl,
      )
