-- ===== src/Executor/Deliver.antt =====
-- hamerkop/src/executor/handle.rs: what `process_cqes` does to the completions, to the buffers and to the run queue.
use hamerkop.Base.{
  ℕ, ◌≡◌, refl, sym, ap, ◌∙◌, Bool, true, false, ◌&&◌, Option, none, some, List, [], ◌∷◌, ◌++◌,
  ◌==◌, if◌then◌else◌, Outcome, done, arith, append-nil, Bool-cases, ==_iff, inl, inr,
}
use hamerkop.Slotmap.{StableSlotmap, get, get_mut, remove}
use hamerkop.Slotmap.Invariant.{IsValid}
use hamerkop.Slotmap.Laws.{remove_lem}
use hamerkop.Slotmap.Iter.{get_mut_lem}
use hamerkop.FixedVec.Ops.{FixedVec}
use hamerkop.Uring.Submission.{ok, os_error}
use hamerkop.Uring.Completion.{CompletionQueueEvent, result}
use hamerkop.Executor.{
  no_task_sentinel, dead_task_sentinel, CleanupAction, no_action, delete_buffer_on_error,
  CompletionEvent, IoContext, clean_up, deliver, process_cqe,
}

abbrev pub Events : Type 0
Events = ℕ → Option CompletionEvent

-- what an event leaves of the entry that it is for: of a dead task nothing
abbrev pub settled : CompletionQueueEvent → Option CompletionEvent → Option CompletionEvent
settled cqe none = none
settled cqe (some ce) =
    if ce.task == dead_task_sentinel then none else some (record ce { cqe = some cqe })

abbrev pub delivered : Events → CompletionQueueEvent → Events
delivered events cqe i = if cqe.user_data == i then settled cqe (events i) else events i

-- the task to run, of an entry that has one
abbrev pub woken_by : Option CompletionEvent → List ℕ
woken_by none = []
woken_by (some ce) =
    if ce.task == no_task_sentinel
    then []
    else if ce.task == dead_task_sentinel
    then []
    else ce.task ∷ []

abbrev pub is_error : CompletionQueueEvent → Bool
is_error cqe = elim (result cqe) [ ok n ↦ false | os_error code ↦ true ]

abbrev pub deletes : CleanupAction → ℕ → Bool
deletes no_action b = false
deletes (delete_buffer_on_error bufid) b = bufid == b

-- Whether the event deletes the buffer: it is an error for a dead task that had the buffer to clean up.
abbrev pub frees : CompletionQueueEvent → Option CompletionEvent → ℕ → Bool
frees cqe none b = false
frees cqe (some ce) b = (ce.task == dead_task_sentinel) && (is_error cqe && deletes ce.action b)

entry_at :
    (events : Events) (id i : ℕ) {o : Option CompletionEvent}
    → events id ≡ o
    → (id == i) ≡ true
    → events i ≡ o
entry_at events id i h same = ap events (sym ((==_iff id i).0 same)) ∙ h

delivered_live :
    (events : Events) (cqe : CompletionQueueEvent) (ce : CompletionEvent) (i : ℕ)
    → events cqe.user_data ≡ some ce
    → (ce.task == dead_task_sentinel) ≡ false
    → (if cqe.user_data == i then some (record ce { cqe = some cqe }) else events i)
      ≡ delivered events cqe i
delivered_live events cqe ce i h live = elim (Bool-cases (cqe.user_data == i)) [
  | inl same ↦ rw (same, entry_at events cqe.user_data i h same, live) refl
  | inr other ↦ rw (other) refl
]

delivered_dead :
    (events written : Events) (cqe : CompletionQueueEvent) (ce : CompletionEvent) (i : ℕ)
    → events cqe.user_data ≡ some ce
    → (ce.task == dead_task_sentinel) ≡ true
    → written i ≡ (if cqe.user_data == i then some (record ce { cqe = some cqe }) else events i)
    → (if cqe.user_data == i then none else written i) ≡ delivered events cqe i
delivered_dead events written cqe ce i h dead w = elim (Bool-cases (cqe.user_data == i)) [
  | inl same ↦ rw (same, entry_at events cqe.user_data i h same, dead) refl
  | inr other ↦ rw (other) (w ∙ rw (other) refl)
]

not_idle_of_dead : (t : ℕ) → (t == dead_task_sentinel) ≡ true → (t == no_task_sentinel) ≡ false
not_idle_of_dead t h = ground arith

module _ {F : Type 0} where
  -- The outcome of one event, by the entry that it is for.
  unfoldable pub Delivers :
      IoContext F
      → List ℕ
      → CompletionQueueEvent
      → Option CompletionEvent
      → Outcome (IoContext F × List ℕ)
      → Type 0
  Delivers ctx tasks cqe entry ends =
      (cs : StableSlotmap CompletionEvent) × (bs : StableSlotmap (FixedVec ℕ)) × (ends
        ≡ done (record ctx { completions = cs; buffers = bs }, tasks ++ woken_by entry))
      × IsValid cs
      × IsValid bs
      × ((i : ℕ) → get cs i ≡ delivered (get ctx.completions) cqe i)
      × ((b : ℕ) → get bs b ≡ (if frees cqe entry b then none else get ctx.buffers b))

  CleansUp : IoContext F → Bool → CleanupAction → IoContext F → Type 0
  CleansUp ctx failed action after =
      (bs : StableSlotmap (FixedVec ℕ)) × (after ≡ record ctx { buffers = bs })
      × IsValid bs
      × ((b : ℕ) → get bs b ≡ (if failed && deletes action b then none else get ctx.buffers b))

  clean_up_lem :
      (ctx : IoContext F) (cqe : CompletionQueueEvent) (action : CleanupAction)
      → IsValid ctx.buffers
      → CleansUp ctx (is_error cqe) action (clean_up ctx cqe action)
  unfolding clean_up CleansUp
  clean_up_lem ctx cqe no_action valid = (ctx.buffers, refl, valid, λ b. ground arith)
  clean_up_lem ctx cqe (delete_buffer_on_error bufid) valid =
      elim (result cqe)
        as (λ r.
          CleansUp ctx (elim r [ ok n ↦ false | os_error code ↦ true ])
            (delete_buffer_on_error bufid)
            (elim r [
              | ok n ↦ ctx
              | os_error code ↦ record ctx { buffers = (remove ctx.buffers bufid).1 }
            ])) [
              | ok n ↦ (ctx.buffers, refl, valid, λ b. refl)
              | os_error code ↦
                  let (_, gone, _) = remove_lem ctx.buffers bufid valid in
                  ((remove ctx.buffers bufid).1, refl, gone.valid, λ b. gone.gets b)
            ]

  Delivers-none :
      (ctx : IoContext F) (tasks : List ℕ) (cqe : CompletionQueueEvent)
      → IsValid ctx.completions
      → IsValid ctx.buffers
      → get ctx.completions cqe.user_data ≡ none
      → Delivers ctx tasks cqe none (process_cqe ctx tasks cqe)
  unfolding Delivers process_cqe
  Delivers-none ctx tasks cqe vc vb h = (
    ctx.completions,
    ctx.buffers,
    rw (h, process_cqe, append-nil tasks) refl,
    vc,
    vb,
    λ i. ground arith,
    λ b. refl,
  )

  -- the context with the event written to the entry
  abbrev written : IoContext F → CompletionQueueEvent → CompletionEvent → IoContext F
  written ctx cqe ce = record ctx {
    completions = (get_mut ctx.completions cqe.user_data (record ce { cqe = some cqe })).1;
  }

  get-written :
      (ctx : IoContext F) (cqe : CompletionQueueEvent) (ce : CompletionEvent) (i : ℕ)
      → IsValid ctx.completions
      → get ctx.completions cqe.user_data ≡ some ce
      → get (written ctx cqe ce).completions i ≡ (
          if cqe.user_data == i then some (record ce { cqe = some cqe }) else get ctx.completions i)
  get-written ctx cqe ce i vc h =
      let (_, gets, _, _) =
        get_mut_lem ctx.completions cqe.user_data (record ce { cqe = some cqe }) vc in
      gets i ∙ rw (h) refl

  process_cqe_found :
      (ctx : IoContext F) (tasks : List ℕ) (cqe : CompletionQueueEvent) (ce : CompletionEvent)
      → get ctx.completions cqe.user_data ≡ some ce
      → process_cqe ctx tasks cqe
        ≡ deliver (written ctx cqe ce) tasks cqe (record ce { cqe = some cqe })
  unfolding process_cqe
  process_cqe_found ctx tasks cqe ce h = rw (h, process_cqe) refl

  deliver_live :
      (ctx : IoContext F) (tasks : List ℕ) (cqe : CompletionQueueEvent) (ce : CompletionEvent)
      → (ce.task == dead_task_sentinel) ≡ false
      → deliver ctx tasks cqe ce ≡ done (ctx, tasks ++ woken_by (some ce))
  unfolding deliver
  deliver_live ctx tasks cqe ce live = elim (Bool-cases (ce.task == no_task_sentinel)) [
    | inl idle ↦ rw (idle, deliver, append-nil tasks) refl
    | inr some_task ↦ rw (some_task, live, deliver) refl
  ]

  deliver_dead :
      (ctx : IoContext F) (tasks : List ℕ) (cqe : CompletionQueueEvent) (ce gone : CompletionEvent)
      → (ce.task == dead_task_sentinel) ≡ true
      → (remove ctx.completions cqe.user_data).0 ≡ some gone
      → deliver ctx tasks cqe ce
        ≡ done (
          clean_up
              (record ctx { completions = (remove ctx.completions cqe.user_data).1 })
              cqe
              gone.action,
          tasks ++ woken_by (some ce),
        )
  unfolding deliver
  deliver_dead ctx tasks cqe ce gone dead held =
      rw (not_idle_of_dead ce.task dead, dead, held, deliver, append-nil tasks) refl

  Delivers-live :
      (ctx : IoContext F) (tasks : List ℕ) (cqe : CompletionQueueEvent) (ce : CompletionEvent)
      → IsValid ctx.completions
      → IsValid ctx.buffers
      → get ctx.completions cqe.user_data ≡ some ce
      → (ce.task == dead_task_sentinel) ≡ false
      → Delivers ctx tasks cqe (some ce) (process_cqe ctx tasks cqe)
  unfolding Delivers
  Delivers-live ctx tasks cqe ce vc vb h live =
      let (_, _, _, valid) =
        get_mut_lem ctx.completions cqe.user_data (record ce { cqe = some cqe }) vc in
      (
        (written ctx cqe ce).completions,
        ctx.buffers,
        process_cqe_found ctx tasks cqe ce h
            ∙ deliver_live (written ctx cqe ce) tasks cqe (record ce { cqe = some cqe }) live,
        valid,
        vb,
        (λ i. get-written ctx cqe ce i vc h ∙ delivered_live (get ctx.completions) cqe ce i h live),
        λ b. rw (live) refl,
      )

  Delivers-dead :
      (ctx : IoContext F) (tasks : List ℕ) (cqe : CompletionQueueEvent) (ce : CompletionEvent)
      → IsValid ctx.completions
      → IsValid ctx.buffers
      → get ctx.completions cqe.user_data ≡ some ce
      → (ce.task == dead_task_sentinel) ≡ true
      → Delivers ctx tasks cqe (some ce) (process_cqe ctx tasks cqe)
  unfolding Delivers CleansUp
  Delivers-dead ctx tasks cqe ce vc vb h dead =
      let ctx1 = written ctx cqe ce in
      let ce' = record ce { cqe = some cqe } in
      let (_, _, _, valid) =
        get_mut_lem ctx.completions cqe.user_data (record ce { cqe = some cqe }) vc in
      let removed = remove ctx1.completions cqe.user_data in
      let (held, gone, _) = remove_lem ctx1.completions cqe.user_data valid in
      let was : removed.0 ≡ some ce' =
        held ∙ get-written ctx cqe ce cqe.user_data vc h ∙ ground arith in
      let cleaned = clean_up_lem (record ctx1 { completions = removed.1 }) cqe ce.action vb in
      (
        removed.1,
        cleaned.0,
        process_cqe_found ctx tasks cqe ce h
            ∙ deliver_dead ctx1 tasks cqe ce' ce' dead was
            ∙ ap (λ c. done (c, tasks ++ woken_by (some ce))) cleaned.1,
        gone.valid,
        cleaned.2,
        (λ i.
            gone.gets i
            ∙ delivered_dead (get ctx.completions) (get ctx1.completions) cqe ce i h dead
                (get-written ctx cqe ce i vc h)),
        λ b. cleaned.3 b ∙ rw (dead) refl,
      )

  pub process_cqe_lem :
      (ctx : IoContext F) (tasks : List ℕ) (cqe : CompletionQueueEvent)
      (entry : Option CompletionEvent)
      → IsValid ctx.completions
      → IsValid ctx.buffers
      → get ctx.completions cqe.user_data ≡ entry
      → Delivers ctx tasks cqe entry (process_cqe ctx tasks cqe)
  process_cqe_lem ctx tasks cqe none vc vb h = Delivers-none ctx tasks cqe vc vb h
  process_cqe_lem ctx tasks cqe (some ce) vc vb h =
      elim (Bool-cases (ce.task == dead_task_sentinel)) [
        | inl dead ↦ Delivers-dead ctx tasks cqe ce vc vb h dead
        | inr live ↦ Delivers-live ctx tasks cqe ce vc vb h live
      ]
