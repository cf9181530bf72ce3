-- ===== src/Engine/Escalation/Channels.antt =====
-- internal/engine/escalation.go: which channels are tried, and when somebody was told.
use remedik.Base.{
  ℕ, suc, ◌≡◌, refl, ap, ◌∙◌, Bool, true, false, ◌&&◌, Option, none, some, List, [], ◌∷◌, arith,
  Error, Bool-cases, ◌⊎◌, inl, inr, is_some,
}
use remedik.Alert.{Labels}
use remedik.Api.{Step, StepStatus, step_succeeded, step_failure, step_skipped, EscalationMode}
use remedik.Engine.Effects.{Env}
use remedik.Engine.Steps.{StepRunner, run_step}
use remedik.Engine.Steps.Outcome.{Reports, run_step-Reports, run_step-Ended, Ended, passing}
use remedik.Engine.Escalation.{
  ChannelResult, channels_from, run_channels, is_first_success, delivered_by, last_error_of,
  already_reached,
}

-- One status to each channel, in order, from whether somebody was told so far to whether somebody
-- was told in the end. A channel is skipped only where one success is enough and there was one;
-- any other is tried, and a failure does not stop the next.
abbrev pub TriesAll : Bool → Bool → ℕ → List Step → List StepStatus → Bool → Type 0
TriesAll stops told i [] [] told_at_end = told_at_end ≡ told
TriesAll stops told i (step ∷ plan) (s ∷ ss) told_at_end =
    Reports i step s
    × (((told && stops ≡ true)
          × (s.phase ≡ step_skipped)
          × TriesAll stops told (suc i) plan ss told_at_end)
        ⊎ ((told && stops ≡ false)
            × (s.phase ≡ step_succeeded)
            × TriesAll stops true (suc i) plan ss told_at_end)
        ⊎ ((told && stops ≡ false)
            × (s.phase ≡ step_failure)
            × TriesAll stops told (suc i) plan ss told_at_end))
TriesAll stops told i _ _ told_at_end = ⊥

-- Who was told stays told.
TriesAll-told :
    (stops : Bool) (i : ℕ) (plan : List Step) (ss : List StepStatus) (d : Bool)
    → TriesAll stops true i plan ss d
    → d ≡ true
TriesAll-told stops i [] [] d t = t
TriesAll-told stops i [] (s ∷ ss) d t = absurd t
TriesAll-told stops i (step ∷ plan) [] d t = absurd t
TriesAll-told stops i (step ∷ plan) (s ∷ ss) d (_, inl (_, _, t)) =
    TriesAll-told stops (suc i) plan ss d t
TriesAll-told stops i (step ∷ plan) (s ∷ ss) d (_, inr (inl (_, _, t))) =
    TriesAll-told stops (suc i) plan ss d t
TriesAll-told stops i (step ∷ plan) (s ∷ ss) d (_, inr (inr (_, _, t))) =
    TriesAll-told stops (suc i) plan ss d t

told_of_stop : (told stops : Bool) → (told && stops ≡ true) → told ≡ true
told_of_stop told stops h = ground arith

module _ {W : Type 0} (r : StepRunner W) (live : r.dry_run ≡ false) (labels : Labels)
    (mode : EscalationMode) where
  abbrev Tries : Bool → ℕ → List Step → ChannelResult → Type 0
  Tries told i plan res = TriesAll (is_first_success mode) told i plan res.steps res.delivered

  channel_then :
      (i : ℕ) (told : Bool) (last : Option Error) (step : Step) (plan : List Step) (s : StepStatus)
      (o : Option Error) (e : Env W)
      → Reports i step s
      → Ended r s o
      → (told && is_first_success mode ≡ false)
      → ((told' : Bool) (last' : Option Error) (e' : Env W)
          → Tries told' (suc i) plan (channels_from r labels mode (suc i) told' last' plan e').0)
      → let rest =
          (channels_from r labels mode
            (suc i)
            (delivered_by told o)
            (last_error_of last o)
            plan
            e).0 in
        Tries told i (step ∷ plan) (record rest { steps = s ∷ rest.steps })
  unfolding delivered_by last_error_of
  channel_then i told last step plan s none e rep ended go ih =
      (rep, inr (inl (go, ended ∙ ap passing live, ih true last e)))
  channel_then i told last step plan s (some x) e rep ended go ih =
      (rep, inr (inr (go, ended, ih told (some x) e)))

  channels_from-TriesAll :
      (plan : List Step) (i : ℕ) (told : Bool) (last : Option Error) (e : Env W)
      → Tries told i plan (channels_from r labels mode i told last plan e).0
  unfolding channels_from already_reached
  channels_from-TriesAll [] i told last e = refl
  channels_from-TriesAll (step ∷ plan) i told last e =
      elim (Bool-cases (told && is_first_success mode)) [
        | inl stop ↦
            rw (stop, channels_from)
              ((refl, refl), inl (stop, refl, channels_from-TriesAll plan (suc i) told last e))
        | inr go ↦
            let done = run_step r i labels step e in
            rw (go, channels_from)
              (channel_then i told last step plan done.0.0 done.0.1 done.1
                (run_step-Reports r i labels step e) (run_step-Ended r i labels step e) go
                (λ told' last' e'. channels_from-TriesAll plan (suc i) told' last' e'))
      ]

  last_error-stays :
      (last o : Option Error) → is_some last ≡ true → is_some (last_error_of last o) ≡ true
  unfolding last_error_of
  last_error-stays last none h = h
  last_error-stays last (some x) h = refl

  channels_from-last_error :
      (plan : List Step) (i : ℕ) (told : Bool) (last : Option Error) (e : Env W)
      → is_some last ≡ true
      → is_some (channels_from r labels mode i told last plan e).0.last_error ≡ true
  unfolding channels_from
  channels_from-last_error [] i told last e h = h
  channels_from-last_error (step ∷ plan) i told last e h =
      elim (Bool-cases (told && is_first_success mode)) [
        | inl stop ↦ rw (stop, channels_from) (channels_from-last_error plan (suc i) told last e h)
        | inr go ↦
            let done = run_step r i labels step e in
            rw (go, channels_from)
              (channels_from-last_error plan (suc i) (delivered_by told done.0.1)
                (last_error_of last done.0.1) done.1 (last_error-stays last done.0.1 h))
      ]

  error_then :
      (i : ℕ) (plan : List Step) (o : Option Error) (e : Env W)
      → let rest =
          (channels_from r labels mode i (delivered_by false o) (last_error_of none o) plan e).0 in
        rest.delivered ≡ false → is_some rest.last_error ≡ true
  unfolding delivered_by last_error_of
  error_then i plan none e d =
      let told =
        TriesAll-told (is_first_success mode) i plan _ _
          (channels_from-TriesAll plan i true none e) in
      ground arith
  error_then i plan (some x) e d = channels_from-last_error plan i false (some x) e refl

  -- A page that is not a dry run records one status to each channel, in order. A channel is skipped
  -- exactly where the mode is `FirstSuccess` and an earlier one reached somebody; any other is tried,
  -- also after a failure, and its status tells how it ended. The result is `delivered` exactly if
  -- some channel succeeded, and where none did there is an error to report.
  pub run_channels-TriesAll :
      (step : Step) (plan : List Step) (e : Env W)
      → let result = (run_channels r labels (step ∷ plan) mode e).0 in
        TriesAll (is_first_success mode) false 0 (step ∷ plan) result.steps result.delivered
        × ((result.delivered ≡ true) ⊎ (is_some result.last_error ≡ true))
  unfolding run_channels channels_from
  run_channels-TriesAll step plan e =
      let done = run_step r 0 labels step e in
      (
        channels_from-TriesAll (step ∷ plan) 0 false none e,
        elim (Bool-cases (run_channels r labels (step ∷ plan) mode e).0.delivered) [
          | inl told ↦ inl told
          | inr untold ↦ inr (error_then 1 plan done.0.1 done.1 untold)
        ],
      )
