-- ===== src/StateMachine/Notices.antt =====
-- What the subscribers of state_machine.py are told.
use mathlib.Core.List.{map}
use gofixmsg.Prelude.{
  ◌≡◌, refl, ap, ◌∙◌, Bool, false, Option, none, some, List, [], ◌∷◌, ◌++◌, append_assoc,
  append-nil, Option-cases, inl, inr,
}
use gofixmsg.StateMachine.{
  State, Event, observer, StateMachine, state_on_event, notify, notify_subscribers, on_event,
}
use gofixmsg.StateMachine.Runs.{run, next_state}

-- What a subscriber that leaves the machine alone does with a name.
abbrev pub Watch : Type 0 → Type 0
Watch W = State → W → W × Bool

-- A subscriber that writes every name down, and one that does anything else beside that.
abbrev recorder : {V : Type 0} → Watch (List State × V)
recorder s w = ((w.0 ++ s ∷ [], w.1), false)

abbrev beside : {V : Type 0} → Watch V → Watch (List State × V)
beside f s w = let (v, raised) = f s w.1 in ((w.0, v), raised)

-- The machine fed with a sequence of events.
unfoldable pub feed : {W : Type 0} → StateMachine W → List Event → W → StateMachine W × W
feed m [] w = (m, w)
feed m (e ∷ es) w = let (m', w') = on_event m e w in feed m' es w'

abbrev step_changes : Option State → List State
step_changes none = []
step_changes (some t) = t ∷ []

-- The states that a run enters, in order.
unfoldable pub changes : State → List Event → List State
changes s [] = []
changes s (e ∷ es) = step_changes (state_on_event s e) ++ changes (next_state s e) es

module _ {V : Type 0} where
  -- What several watchers do with one name.
  tell : List (Watch V) → State → V → V
  tell [] s w = w
  tell (f ∷ fs) s w = tell fs s (f s w).0

  notify-tell :
      (fs : List (Watch V)) (s : State) (w : V) → notify (map observer fs) (s, w) ≡ (s, tell fs s w)
  unfolding notify tell
  notify-tell [] s w = refl
  notify-tell (f ∷ fs) s w = notify-tell fs s (f s w).0

  tell-append :
      (fs gs : List (Watch V)) (s : State) (w : V) → tell (fs ++ gs) s w ≡ tell gs s (tell fs s w)
  unfolding tell
  tell-append [] gs s w = refl
  tell-append (f ∷ fs) gs s w = tell-append fs gs s (f s w).0

module _ {V : Type 0} where
  log-beside :
      (fs : List (Watch V)) (s : State) (w : List State × V) → (tell (map beside fs) s w).0 ≡ w.0
  unfolding tell
  log-beside [] s w = refl
  log-beside (f ∷ fs) s w = log-beside fs s (beside f s w).0

  abbrev pub around : List (Watch V) → List (Watch V) → List (Watch (List State × V))
  around fs gs = map beside fs ++ recorder ∷ map beside gs

module _ {V : Type 0} (fs gs : List (Watch V)) where
  log-tell : (s : State) (w : List State × V) → (tell (around fs gs) s w).0 ≡ w.0 ++ s ∷ []
  unfolding tell
  log-tell s w =
      let w' = tell (map beside fs) s w in
      rw (tell-append (map beside fs) (recorder ∷ map beside gs) s w)
        (rw (log-beside gs s (recorder s w').0) (rw (log-beside fs s w)))

  abbrev machine : State → StateMachine (List State × V)
  machine s = record { state = s; subscribers = map observer (around fs gs) }

  told_one :
      (t : State) (w : List State × V)
      → notify_subscribers (machine t) w ≡ (machine t, tell (around fs gs) t w)
  unfolding notify_subscribers
  told_one t w =
      ap (λ (x : State × (List State × V)). (record (machine t) { state = x.0 }, x.1))
        (notify-tell (around fs gs) t w)

  step_told :
      (s : State) (e : Event) (w : List State × V)
      → ((on_event (machine s) e w).0 ≡ machine (next_state s e))
        × ((on_event (machine s) e w).1.0 ≡ w.0 ++ step_changes (state_on_event s e))
  unfolding on_event
  step_told s e w = elim (Option-cases (state_on_event s e)) [
    | inl stays ↦ (rw stays refl, rw stays (rw append-nil refl))
    | inr (t, moves) ↦ (
      rw moves (ap (λ x. x.0) (told_one t w)),
      rw moves (ap (λ x. x.1.0) (told_one t w) ∙ log-tell t w),
    )
  ]

  feed_step :
      (m : StateMachine (List State × V)) (e : Event) (es : List Event) (w : List State × V)
      → feed m (e ∷ es) w ≡ feed (on_event m e w).0 es (on_event m e w).1
  unfolding feed
  feed_step m e es w = refl

  -- Among subscribers that leave the machine alone, whatever else they do before and after it and
  -- whichever of them raise, a subscriber is told exactly the states that the machine enters, each once and in order; the machine follows
  -- the events as the state classes say.
  pub told_changes :
      (s : State) (es : List Event) (w : List State × V)
      → let (m, w') = feed (record { state = s; subscribers = map observer (around fs gs) }) es w in
        (m.state ≡ run s es) × (w'.0 ≡ w.0 ++ changes s es)
  unfolding changes run
  told_changes s [] w = unfold feed in (refl, rw append-nil)
  told_changes s (e ∷ es) w =
      let told = step_told s e w in
      let rest = told_changes (next_state s e) es (on_event (machine s) e w).1 in
      rw (feed_step (machine s) e es w)
        (rw told.0 (rest.0, rw rest.1 (rw told.1 (append_assoc w.0 _ _))))
