-- ===== src/Util/Join.antt =====
-- hamerkop/src/util/join.rs: the next of several futures to complete. What polling a future does is
-- a parameter: its value when it is ready, and the future behind the call.
use hamerkop.Base.{
  ℕ, suc, ◌+◌, ◌≡◌, ◌≢◌, refl, sym, ◌∙◌, ap, ap₂, ◌⊎◌, inl, inr, Bool, true, false, ◌||◌, not,
  Bool-cases, Option, none, some, List, [], ◌∷◌, ◌++◌, ◌==◌, ==_iff, All, arith,
}

-- `Poll` of a future's output, with the future
abbrev pub PollFuture : Type 0 → Type 0 → Type 0
PollFuture F R = F → Option R × F

-- The future and its state at one index of the two vectors.
pub record Slot (F : Type 0) : Type 0 where
  pub future : F
  pub state : Bool

pub record Join (F : Type 0) : Type 0 where
  pub slots : List (Slot F)

pub data Polled (R : Type 0) : Type 0 where
  pending : Polled R
  ready : Option R → Polled R

module _ {F : Type 0} where
  abbrev pub waiting : F → Slot F
  waiting future = record { future = future; state = false }

  unfoldable pub new : List F → Join F
  new [] = record { slots = [] }
  new (f ∷ fs) = record { slots = waiting f ∷ (new fs).slots }

module _ {F R : Type 0} where
  -- one round of the loop, on the state, what polling the future does, and the rounds behind it
  abbrev pub visit :
      Slot F
      → List (Slot F)
      → Bool
      → Option R × F
      → (Bool × Option R) × List (Slot F)
      → (Bool × Option R) × List (Slot F)
      → (Bool × Option R) × List (Slot F)
  visit s slots true p skipped later = (skipped.0, s ∷ skipped.1)
  visit s slots false (some r, future) skipped later =
      ((true, some r), record { future = future; state = true } ∷ slots)
  visit s slots false (none, future) skipped later =
      (later.0, record { future = future; state = false } ∷ later.1)

module _ {F R : Type 0} (poll_future : PollFuture F R) where
  -- The loop over the futures that have not completed: whether one was polled, the value of the
  -- first that is ready, and the slots behind the loop.
  unfoldable pub poll_each : List (Slot F) → Bool → (Bool × Option R) × List (Slot F)
  poll_each [] polled = ((polled, none), [])
  poll_each (s ∷ slots) polled =
      visit s slots s.state (poll_future s.future) (poll_each slots polled) (poll_each slots true)

  -- what `poll` gives back behind the loop
  abbrev pub outcome : Bool × Option R → Polled R
  outcome (polled, some r) = ready (some r)
  outcome (true, none) = pending
  outcome (false, none) = ready none

  -- `JoinNext::poll`
  unfoldable pub poll : Join F → Polled R × Join F
  poll join = let r = poll_each join.slots false in (outcome r.0, record { slots = r.1 })

abbrev pub unfinished : {F : Type 0} → List (Slot F) → ℕ
unfinished [] = 0
unfinished (s ∷ slots) = elim s.state [ true ↦ unfinished slots | false ↦ suc (unfinished slots) ]

unfinished-append :
    {F : Type 0} (xs ys : List (Slot F)) → unfinished (xs ++ ys) ≡ unfinished xs + unfinished ys
unfinished-append [] ys = omega arith
unfinished-append (s ∷ xs) ys = elim (Bool-cases s.state) [
  | inl e ↦ rw (e) (unfinished-append xs ys)
  | inr e ↦ rw (e) (omega (arith, unfinished-append xs ys))
]

-- the states of the futures
abbrev pub states : {F : Type 0} → List (Slot F) → List Bool
states [] = []
states (s ∷ slots) = s.state ∷ states slots

waits_one :
    {F : Type 0} (s : Slot F) (slots : List (Slot F))
    → s.state ≡ false
    → unfinished (s ∷ slots) ≡ suc (unfinished slots)
waits_one s slots waits = rw (waits) refl

count_waiting : List Bool → ℕ
count_waiting [] = 0
count_waiting (b ∷ bs) = elim b [ true ↦ count_waiting bs | false ↦ suc (count_waiting bs) ]

unfinished-states :
    {F : Type 0} (slots : List (Slot F)) → unfinished slots ≡ count_waiting (states slots)
unfolding count_waiting
unfinished-states [] = refl
unfinished-states (s ∷ slots) =
    elim s.state
      as (λ b.
        elim b as (λ c. ℕ) [ true ↦ unfinished slots | false ↦ suc (unfinished slots) ]
        ≡ elim b as (λ c. ℕ) [
          | true ↦ count_waiting (states slots)
          | false ↦ suc (count_waiting (states slots))
        ]) [ true ↦ unfinished-states slots | false ↦ ap suc (unfinished-states slots) ]

module _ {F R : Type 0} (poll_future : PollFuture F R) where
  -- finished, or polled with nothing to give
  abbrev pub Passed : Slot F → Type 0
  Passed s = (s.state ≡ true) ⊎ ((poll_future s.future).0 ≡ none)

  -- The first future that is ready is finished, and those behind it are not polled.
  pub record Finishes (r : R) (slots after : List (Slot F)) : Type 0 where
    pub before : List (Slot F)
    pub earlier : List (Slot F)
    pub slot : Slot F
    pub behind : List (Slot F)
    pub was : slots ≡ before ++ (slot ∷ behind)
    pub is :
        after ≡ earlier ++ (record { future = (poll_future slot.future).1; state = true } ∷ behind)
    pub not_finished : slot.state ≡ false
    pub gives : (poll_future slot.future).0 ≡ some r
    pub passed : All Passed before
    pub kept : states earlier ≡ states before

  -- what the loop leaves, by what it gives
  PollsEach : List (Slot F) → Bool → (Bool × Option R) × List (Slot F) → Type 0
  PollsEach slots polled ((seen, none), after) =
      (states after ≡ states slots)
      × (seen ≡ (polled || not (unfinished slots == 0)))
      × All Passed slots
  PollsEach slots polled ((seen, some r), after) = Finishes r slots after

  Finishes-behind :
      (r : R) (s t : Slot F) (slots after : List (Slot F))
      → Passed s
      → t.state ≡ s.state
      → Finishes r slots after
      → Finishes r (s ∷ slots) (t ∷ after)
  Finishes-behind r s t slots after passed same f = record {
    before = s ∷ f.before;
    earlier = t ∷ f.earlier;
    slot = f.slot;
    behind = f.behind;
    was = ap (λ l. s ∷ l) f.was;
    is = ap (λ l. t ∷ l) f.is;
    not_finished = f.not_finished;
    gives = f.gives;
    passed = (passed, f.passed);
    kept = ap₂ (λ b l. b ∷ l) same f.kept;
  }

  PollsEach-behind :
      (s t : Slot F) (slots : List (Slot F)) (polled later : Bool)
      → Passed s
      → t.state ≡ s.state
      → (later || not (unfinished slots == 0)) ≡ (polled || not (unfinished (s ∷ slots) == 0))
      → (r : (Bool × Option R) × List (Slot F)) → PollsEach slots later r
      → PollsEach (s ∷ slots) polled (r.0, t ∷ r.1)
  unfolding PollsEach
  PollsEach-behind s t slots polled later passed same seen ((b, none), after) h =
      (ap₂ (λ b l. b ∷ l) same h.0, h.1 ∙ seen, (passed, h.2))
  PollsEach-behind s t slots polled later passed same seen ((b, some r), after) h =
      Finishes-behind r s t slots after passed same h

  or_false : (b : Bool) → (b || false) ≡ b
  or_false true = refl
  or_false false = refl

  or_true : (b : Bool) → (b || true) ≡ true
  or_true true = refl
  or_true false = refl

  visit_lem :
      (s : Slot F) (slots : List (Slot F)) (polled b : Bool) (p : Option R × F)
      → (skipped later : (Bool × Option R) × List (Slot F)) → s.state ≡ b
      → poll_future s.future ≡ p
      → PollsEach slots polled skipped
      → PollsEach slots true later
      → PollsEach (s ∷ slots) polled (visit s slots b p skipped later)
  unfolding PollsEach
  visit_lem s slots polled true p skipped later finished gives h g =
      let counted : unfinished (s ∷ slots) ≡ unfinished slots = rw (finished) refl in
      PollsEach-behind s s slots polled polled (inl finished) refl
        (ap (λ n. polled || not (n == 0)) (sym counted)) skipped h
  visit_lem s slots polled false (some r, future) skipped later waits gives h g = record {
    before = [];
    earlier = [];
    slot = s;
    behind = slots;
    was = refl;
    is = ap (λ f. record { future = f; state = true } ∷ slots) (sym (ap (λ q. q.1) gives));
    not_finished = waits;
    gives = ap (λ q. q.0) gives;
    passed = tt;
    kept = refl;
  }
  visit_lem s slots polled false (none, future) skipped later waits gives h g =
      let counted : unfinished (s ∷ slots) ≡ suc (unfinished slots) = rw (waits) refl in
      let seen : (polled || not (unfinished (s ∷ slots) == 0)) ≡ true =
        ap (λ n. polled || not (n == 0)) counted
        ∙ ap (λ b. polled || not b) {x = suc (unfinished slots) == 0} {y = false} (ground arith)
        ∙ or_true polled in
      PollsEach-behind s (record { future = future; state = false }) slots polled true
        (inr (ap (λ q. q.0) gives)) (sym waits) (sym seen) later g

  poll_each_lem :
      (slots : List (Slot F)) (polled : Bool)
      → PollsEach slots polled (poll_each poll_future slots polled)
  unfolding poll_each PollsEach
  poll_each_lem [] polled = (refl, sym (or_false polled), tt)
  poll_each_lem (s ∷ slots) polled =
      visit_lem s slots polled s.state (poll_future s.future) (poll_each poll_future slots polled)
        (poll_each poll_future slots true) refl refl (poll_each_lem slots polled)
        (poll_each_lem slots true)

  Finishes-unfinished :
      (r : R) (slots after : List (Slot F))
      → Finishes r slots after
      → unfinished slots ≡ suc (unfinished after)
  Finishes-unfinished r slots after f =
      let rest : unfinished (f.slot ∷ f.behind) ≡ suc (unfinished f.behind) =
        waits_one f.slot f.behind f.not_finished in
      let same : unfinished f.earlier ≡ unfinished f.before =
        unfinished-states f.earlier ∙ ap count_waiting f.kept ∙ sym (unfinished-states f.before) in
      ap (λ l. unfinished l) f.was
      ∙ unfinished-append f.before (f.slot ∷ f.behind)
      ∙ omega (
        arith,
        rest,
        same,
        unfinished-append f.earlier
            (record { future = (poll_future f.slot.future).1; state = true } ∷ f.behind),
      )
      ∙ ap (λ l. suc (unfinished l)) (sym f.is)

  -- What a call of `poll` gives back and leaves, in each of its three endings.
  pub Polls : List (Slot F) → Polled R × Join F → Type 0
  Polls slots (pending, after) =
      (unfinished slots ≢ 0) × All Passed slots × (states after.slots ≡ states slots)
  Polls slots (ready none, after) = (unfinished slots ≡ 0) × (states after.slots ≡ states slots)
  Polls slots (ready (some r), after) =
      Finishes r slots after.slots × (unfinished slots ≡ suc (unfinished after.slots))

  outcome_lem :
      (slots : List (Slot F)) (r : (Bool × Option R) × List (Slot F))
      → PollsEach slots false r
      → Polls slots (outcome poll_future r.0, record { slots = r.1 })
  unfolding PollsEach Polls
  outcome_lem slots ((true, none), after) h = (λ e. cc (h.1), h.2, h.0)
  outcome_lem slots ((false, none), after) h =
      let zero_left : (unfinished slots == 0) ≡ true = ground (arith, h.1) in
      ((==_iff (unfinished slots) 0).0 zero_left, h.0)
  outcome_lem slots ((true, some r), after) h = (h, Finishes-unfinished r slots after h)
  outcome_lem slots ((false, some r), after) h = (h, Finishes-unfinished r slots after h)

  -- `JoinNext::poll` is ready with nothing exactly when every future has finished. It is ready with
  -- a value when a future is ready: the first such future gives the value, is marked finished and is
  -- one less to wait for; those behind it are not polled and no other state changes. It is pending
  -- when some future is unfinished and all that are were polled with nothing to give.
  pub poll_lem : (join : Join F) → Polls join.slots (poll poll_future join)
  unfolding poll
  poll_lem join =
      outcome_lem join.slots (poll_each poll_future join.slots false)
        (poll_each_lem join.slots false)
