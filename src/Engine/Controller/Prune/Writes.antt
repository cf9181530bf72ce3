-- ===== src/Engine/Controller/Prune/Writes.antt =====
-- internal/engine/controller.go: what `prune` writes and runs.
use remedik.Base.{◌≡◌, refl, List, [], ◌∷◌, String, arith, Result, ok, err, keep}
use remedik.Api.{Remediation}
use remedik.Engine.Effects.{Env, writes, works}
use remedik.Engine.Reconciler.{Reconciler}
use remedik.Engine.Controller.Prune.{delete_one, delete_all, prune_listed, prune, doomed}

module _ {W : Type 0} where
  delete_all-writes :
      (r : Reconciler W) (gone : List Remediation) (e : Env W)
      → writes (delete_all r gone e).1.trace ≡ writes e.trace
  unfolding delete_all delete_one writes
  delete_all-writes r [] e = refl
  delete_all-writes r (old ∷ gone) e =
      ground (arith, delete_all-writes r gone (delete_one r old e).1)

  prune_listed-writes :
      (r : Reconciler W) (kept : String) (listed : Result (List Remediation)) (e : Env W)
      → writes (prune_listed r kept listed e).1.trace ≡ writes e.trace
  unfolding prune_listed
  prune_listed-writes r kept (err x) e = refl
  prune_listed-writes r kept (ok items) e =
      delete_all-writes r (doomed r.history_limit kept items) e

  pub prune-writes :
      (r : Reconciler W) (namespace strategy kept : String) (e : Env W)
      → writes (prune r namespace strategy kept e).1.trace ≡ writes e.trace
  unfolding prune
  prune-writes r namespace strategy kept e = prune_listed-writes r kept _ _

  delete_all-works :
      (r : Reconciler W) (gone : List Remediation) (e : Env W)
      → keep works (delete_all r gone e).1.trace ≡ keep works e.trace
  unfolding delete_all delete_one keep
  delete_all-works r [] e = refl
  delete_all-works r (old ∷ gone) e = ground (arith, delete_all-works r gone (delete_one r old e).1)

  prune_listed-works :
      (r : Reconciler W) (kept : String) (listed : Result (List Remediation)) (e : Env W)
      → keep works (prune_listed r kept listed e).1.trace ≡ keep works e.trace
  unfolding prune_listed
  prune_listed-works r kept (err x) e = refl
  prune_listed-works r kept (ok items) e = delete_all-works r (doomed r.history_limit kept items) e

  pub prune-works :
      (r : Reconciler W) (namespace strategy kept : String) (e : Env W)
      → keep works (prune r namespace strategy kept e).1.trace ≡ keep works e.trace
  unfolding prune
  prune-works r namespace strategy kept e = prune_listed-works r kept _ _
