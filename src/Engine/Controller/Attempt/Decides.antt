-- ===== src/Engine/Controller/Attempt/Decides.antt =====
-- internal/engine/controller.go: the statuses that `runAttempt` writes.
use remedik.Base.{
  ℕ, ◌+◌, ◌<◌, ◌≡◌, refl, sym, ◌∙◌, ap, subst, Bool, true, false, Option, none, some, [], ◌∷◌,
  arith, Error, ErrorKind, unknown_action, not_found, other_error, Result, ok, err, ℤ, is_some, leb,
  Bool-cases, inl, inr, pos,
}
use remedik.Api.{
  running, failed, no_reason, Reason, Remediation, RemediationSpec, RemediationStatus,
}
use remedik.Engine.Effects.{Env, writes, now, call, log}
use remedik.Engine.Backoff.{backoff}
use remedik.Engine.Reconciler.{Reconciler, Echoes, update, accepted}
use remedik.Engine.Steps.{RunResult, run, reason_of, terminal_state}
use remedik.Engine.Steps.Outcome.{StopsAtFailure, Explains, run-StopsAtFailure}
use remedik.Engine.Steps.Writes.{run-writes}
use remedik.Engine.Controller.Lifecycle.{Legal, Follows, Enters, FailsFor, current, is_open}
use remedik.Engine.Controller.Finish.{ended}
use remedik.Engine.Controller.Finish.Writes.{update-writes, finish-Legal, paged-Legal}
use remedik.Engine.Controller.Attempt.{
  run_attempt, after_mark, after_retry, conclude, retry, fail_for_good, marked_running, with_steps,
  set_to_retry, attempt_runner,
}

module _ {W : Type 0} (r : Reconciler W) where
  retry-Legal :
      (spec : RemediationSpec) (s : RemediationStatus) (rem : Remediation) (why : Reason)
      (x : Error) (wait : ℤ) (e : Env W)
      → Legal spec s (writes e.trace)
      → Follows spec (current s (writes e.trace)) (set_to_retry rem why x).status
      → Legal spec s (writes (retry r rem why x wait e).1.trace)
  unfolding retry after_retry
  retry-Legal spec s rem why x wait e legal follows =
      let (answer, e') = update r (set_to_retry rem why x) e in
      let noted : Legal spec s (writes e'.trace) =
        subst (λ ws. Legal spec s ws) (sym (update-writes r (set_to_retry rem why x) e))
          (follows, legal) in
      answered answer e' noted
    where
      answered :
          (answer : Result Remediation) (e' : Env W)
          → Legal spec s (writes e'.trace)
          → Legal spec s (writes (after_retry wait answer e').1.trace)
      answered (err y) e' l = l
      answered (ok rem') e' l = l

  -- What an attempt that failed for good says of the status before it.
  spent :
      (spec : RemediationSpec) (k : ErrorKind) (s s' : RemediationStatus)
      → (s.state ≡ running)
      → (spec.retries < s.attempt)
      → StopsAtFailure spec.dry_run 0 spec.steps s'.steps true
      → FailsFor spec s s' (reason_of k)
  unfolding reason_of
  spent spec unknown_action s s' st lt st' = (st, lt, st')
  spent spec not_found s s' st lt st' = (st, lt, st')
  spent spec other_error s s' st lt st' = (st, lt, st')

  passed :
      (spec : RemediationSpec) (s s' : RemediationStatus) (dry : Bool)
      → s'.state ≡ terminal_state dry none
      → s.state ≡ running
      → spec.dry_run ≡ dry
      → s'.attempt ≡ s.attempt
      → StopsAtFailure dry 0 spec.steps s'.steps false
      → is_some s'.completed_at ≡ true
      → Follows spec s s'
  unfolding terminal_state
  passed spec s s' true now_in st d n plan at =
      subst (λ state. Enters spec s s' state) (sym now_in) (n, (st, d, plan, at))
  passed spec s s' false now_in st d n plan at =
      subst (λ state. Enters spec s s' state) (sym now_in) (n, (st, d, plan, at))

  conclude-Legal :
      (s : RemediationStatus) (rem : Remediation) (n : ℕ) (result : RunResult) (o : Option Error)
      (e : Env W)
      → Legal rem.spec s (writes e.trace)
      → current s (writes e.trace) ≡ rem.status
      → rem.status.state ≡ running
      → rem.status.attempt ≡ n
      → StopsAtFailure rem.spec.dry_run 0 rem.spec.steps result.steps (is_some o)
      → Explains o result.reason
      → Legal rem.spec s (writes (conclude r (with_steps rem result) n result o e).1.trace)
  unfolding conclude with_steps fail_for_good set_to_retry ended
  conclude-Legal s rem n result none e legal cur st same plan why =
      let last =
        ended (with_steps rem result) (terminal_state rem.spec.dry_run none) no_reason []
          (now e).0 in
      finish-Legal r rem.spec s (with_steps rem result) (terminal_state rem.spec.dry_run none)
        no_reason [] e legal
        (subst (λ q. Follows rem.spec q last.status) (sym cur)
          (passed rem.spec rem.status last.status rem.spec.dry_run refl st refl refl plan refl))
  conclude-Legal s rem n result (some x) e legal cur st same plan why =
      elim (Bool-cases (leb n rem.spec.retries)) [
        | inl left ↦
            rw (left, conclude)
              (retry-Legal rem.spec s (with_steps rem result) result.reason x
                (pos (backoff (n + 1))) e legal
                (subst
                  (λ q.
                    Follows rem.spec q
                      (set_to_retry (with_steps rem result) result.reason x).status)
                  (sym cur) (st, refl, ground arith, plan)))
        | inr spent_all ↦
            rw (spent_all, conclude)
              (paged-Legal r rem.spec s (with_steps rem result) n result.reason x.text_of e legal
                (λ page t.
                  subst
                    (λ q.
                      Follows rem.spec q
                        (ended
                          (record rem {
                            status = record rem.status { escalation = page; steps = result.steps };
                          })
                          failed result.reason x.text_of t).status)
                    (sym cur)
                    (
                      refl,
                      subst (λ k. FailsFor rem.spec rem.status (with_steps rem result).status k)
                          (sym why)
                          (spent rem.spec x.kind rem.status (with_steps rem result).status st
                            (ground arith) plan),
                      refl,
                    )))
      ]

  marked-Legal :
      (s : RemediationStatus) (rem : Remediation) (marked : Remediation)
      (written : Result Remediation) (e : Env W)
      → ((rem' : Remediation)
          → written ≡ ok rem'
          → (rem'.spec ≡ rem.spec) × (rem'.status ≡ marked.status))
      → Legal rem.spec s (writes e.trace)
      → (accepted written ≡ true → current s (writes e.trace) ≡ marked.status)
      → marked.status.state ≡ running
      → Legal rem.spec s (writes (after_mark r marked.status.attempt written e).1.trace)
  unfolding after_mark attempt_runner
  marked-Legal s rem marked (err x) e echo legal cur st = legal
  marked-Legal s rem marked (ok rem') e echo legal cur st =
      let (spec', status') = echo rem' refl in
      let ran = run (attempt_runner r rem') rem'.spec.alert.labels rem'.spec.steps e in
      let (plan, why) =
        run-StopsAtFailure (attempt_runner r rem') rem'.spec.alert.labels rem'.spec.steps e in
      let same =
        sym (run-writes (attempt_runner r rem') rem'.spec.alert.labels rem'.spec.steps e) in
      subst (λ sp. Legal sp s (writes (after_mark r marked.status.attempt (ok rem') e).1.trace))
        spec'
        (conclude-Legal s rem' marked.status.attempt ran.0 ran.0.error ran.1
          (subst (λ ws. Legal rem'.spec s ws) same
            (subst (λ sp. Legal sp s (writes e.trace)) (sym spec') legal))
          (subst (λ ws. current s ws ≡ rem'.status) same (cur refl ∙ sym status'))
          (ap (λ q. q.state) status' ∙ st) (ap (λ q. q.attempt) status') plan why)

  pub run_attempt-Legal :
      (s : RemediationStatus) (rem : Remediation) (e : Env W)
      → Echoes r.client
      → Legal rem.spec s (writes e.trace)
      → current s (writes e.trace) ≡ rem.status
      → is_open rem.status.state ≡ true
      → Legal rem.spec s (writes (run_attempt r rem e).1.trace)
  unfolding run_attempt now marked_running update call log writes
  run_attempt-Legal s rem e echo legal cur op =
      let (t, e') = now e in
      let marked = marked_running rem t in
      let (written, e'') = update r marked e' in
      let noted = update-writes r marked e' in
      marked-Legal s rem marked written e''
        (λ rem' same. let (_, spec', status') = echo marked rem' e'.world same in (spec', status'))
        (subst (λ ws. Legal rem.spec s ws) (sym noted)
          (subst (λ q. Follows rem.spec q marked.status) (sym cur) (op, refl, refl), legal))
        (λ taken.
          subst (λ b. current s ((marked.status, b) ∷ writes e.trace) ≡ marked.status) (sym taken)
            refl)
        refl
