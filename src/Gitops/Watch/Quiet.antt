-- ===== src/Gitops/Watch/Quiet.antt =====
-- internal/gitops/watch.go and sidecar.go: a change leads to a reload.
use blogflow.Base.{
  ℕ, ◌+◌, ◌≤◌, ◌∙◌, true, ◌++◌, some, none, All, inr, inl, ◌≡◌, refl, Bool, List, [], ◌∷◌, Option,
  Bool-cases,
}
use blogflow.Base.Text.{Text}
use blogflow.Gitops.Debounce.{
  Event, event, tick, Loop, debounce, step, IsQuiet, quiet_run, Input, run,
}
use blogflow.Gitops.Watch.{is_watched_file, Dir, WatchStrategy, watch_run, concerns}

-- The loop in the strategy is the loop on its own.
watch_run-run :
    (tree : Text → Option Dir) (add : Text → Bool) (is : List Input) (w : WatchStrategy)
    → (watch_run tree add is w).loop ≡ run concerns is w.loop
unfolding watch_run run
watch_run-run tree add [] w = refl
watch_run-run tree add (i ∷ is) w = elim (Bool-cases w.loop.running) [
  | inl e ↦ rw (e, watch_run, run) (watch_run-run tree add is _)
  | inr e ↦ rw (e, watch_run, run) refl
]

change_reloads :
    (qualifies : Event → Bool) (now later : ℕ) (e : Event) (between : List Input) (l : Loop)
    → l.running ≡ true
    → qualifies e ≡ true
    → All (IsQuiet qualifies (now + debounce)) between
    → now + debounce ≤ later
    → run qualifies (event now e ∷ (between ++ tick later ∷ [])) l
      ≡ record { deadline = none; reloads = later ∷ l.reloads; running = true }
unfolding run step
change_reloads qualifies now later e between l r q quiet le =
    rw (r, run)
      (rw q (
        quiet_run qualifies (now + debounce) later between
          (record l { deadline = some (now + debounce) }) quiet refl r le))

-- While the strategy runs, an event for a watched file leads to a reload: if until its timer is read, at the
-- earliest when the debounce is over, there is no further such event and no stop, then whatever else
-- comes the timer's reading makes exactly one reload more, and no timer is left. So a burst of events
-- makes one reload, after the last of them.
pub watched_change-reloads :
    (tree : Text → Option Dir) (add : Text → Bool) (now later : ℕ) (e : Event)
    (between : List Input) (w : WatchStrategy)
    → w.loop.running ≡ true
    → is_watched_file e.name ≡ true
    → All (IsQuiet concerns (now + debounce)) between
    → now + debounce ≤ later
    → (watch_run tree add (event now e ∷ (between ++ tick later ∷ [])) w).loop
      ≡ record { deadline = none; reloads = later ∷ w.loop.reloads; running = true }
watched_change-reloads tree add now later e between w r q quiet le =
    watch_run-run tree add (event now e ∷ (between ++ tick later ∷ [])) w
    ∙ change_reloads concerns now later e between w.loop r q quiet le
