-- ===== src/Gitops/Debounce.antt =====
-- The loops of internal/gitops/watch.go and sidecar.go: events are debounced, and when none has come for a
-- while the content is reloaded. An input is what `select` takes next; times are nanoseconds.
use blogflow.Base.{
  ℕ, ◌+◌, ◌≤◌, ◌<◌, ◌≡◌, Bool, true, false, List, [], ◌∷◌, ◌++◌, leb, if◌then◌else◌, Option, none,
  some, arith, All, refl,
}
use blogflow.Base.Text.{Text}

pub record Event : Type 0 where
  pub name : Text
  pub creates : Bool
  pub removes : Bool
  pub renames : Bool

pub data Input : Type 0 where
  event : ℕ → Event → Input
  tick : ℕ → Input
  failure : Input
  finish : Input

-- `timer` and `timerC`, as the time at which the timer fires, and the times of the reloads.
pub record Loop : Type 0 where
  pub deadline : Option ℕ
  pub reloads : List ℕ
  pub running : Bool

abbrev pub started : Loop
started = record { deadline = none; reloads = []; running = true }

abbrev pub debounce : ℕ
debounce = 500_000_000

module _ (qualifies : Event → Bool) where
  -- One round of the loop. An event that comes when the timer has fired but was not read drains it.
  unfoldable pub step : Input → Loop → Loop
  step (event now e) l = if qualifies e then record l { deadline = some (now + debounce) } else l
  step (tick now) l = elim l.deadline [
    | none ↦ l
    | some d ↦ if leb d now then record l { deadline = none; reloads = now ∷ l.reloads } else l
  ]
  step failure l = l
  step finish l = record l { running = false }

  unfoldable pub run : List Input → Loop → Loop
  unfolding step
  run [] l = l
  run (i ∷ is) l = elim l.running [ true ↦ run is (step i l) | false ↦ l ]

  -- Nothing that concerns the loop: no event that qualifies, no stop, the timer not read in time.
  abbrev pub IsQuiet : ℕ → Input → Type 0
  IsQuiet d (event now e) = qualifies e ≡ false
  IsQuiet d (tick now) = now < d
  IsQuiet d failure = Unit
  IsQuiet d finish = ⊥

  quiet_step : (d : ℕ) (i : Input) (l : Loop) → IsQuiet d i → l.deadline ≡ some d → step i l ≡ l
  unfolding step
  quiet_step d (event now e) l q h = ground arith
  quiet_step d (tick now) l q h = ground arith
  quiet_step d failure l q h = refl
  quiet_step d finish l q h = elim q [ ]

  pub quiet_run :
      (d later : ℕ) (is : List Input) (l : Loop)
      → All (IsQuiet d) is
      → l.deadline ≡ some d
      → l.running ≡ true
      → d ≤ later
      → run (is ++ tick later ∷ []) l
        ≡ record { deadline = none; reloads = later ∷ l.reloads; running = true }
  unfolding run step
  quiet_run d later [] l q h r le = ground arith
  quiet_run d later (i ∷ is) l (q, qs) h r le =
      rw (r, run) (rw (quiet_step d i l q h) (quiet_run d later is l qs h r le))
