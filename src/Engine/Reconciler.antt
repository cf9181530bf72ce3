-- ===== src/Engine/Reconciler.antt =====
-- internal/engine/controller.go: the reconciler's fields, and its writes of a status. The
-- Kubernetes client, `time.ParseDuration` and the rendering of a message are parameters.
use remedik.Base.{String, Bool, true, false, Option, List, Text, Error, Result, ok, err, ℤ, ◌≡◌}
use remedik.Alert.{Labels}
use remedik.Action.{Registry}
use remedik.Api.{Remediation, Strategy}
use remedik.Engine.Effects.{M, pure, ◌>>=◌, ◌>>◌, log, call, wrote_status}

-- The calls of the API server; each may fail, and may change the cluster.
pub record Client (W : Type 0) : Type 0 where
  pub get : String → W → Result Remediation × W
  pub list : String → Labels → W → Result (List Remediation) × W
  pub strategies : W → Result (List Strategy) × W
  pub create : Remediation → W → Option Error × W
  pub update_status : Remediation → W → Result Remediation × W
  pub delete : Remediation → W → Option Error × W

-- The documented answer of an accepted status write: the object as it is written, with a new
-- resource version.
abbrev pub Echoes : {W : Type 0} → Client W → Type 0
Echoes {W} c =
    (rem rem' : Remediation) (w : W)
    → (c.update_status rem w).0 ≡ ok rem'
    → (rem'.name ≡ rem.name) × (rem'.spec ≡ rem.spec) × (rem'.status ≡ rem.status)

pub record Reconciler (W : Type 0) : Type 0 where
  pub client : Client W
  pub registry : Registry W
  pub history_limit : ℤ
  -- An event recorder is configured, and with it a mapper that addresses a step's target.
  pub has_events : Bool
  pub has_mapper : Bool
  pub parse_duration : String → Result ℤ
  pub render : Text → String

abbrev pub accepted : Result Remediation → Bool
accepted (ok rem) = true
accepted (err e) = false

module _ {W : Type 0} where
  -- `r.Client.Status().Update`.
  unfoldable pub update : Reconciler W → Remediation → M W (Result Remediation)
  unfolding call log
  update r rem = do
    answer ← call (r.client.update_status rem)
    log (wrote_status rem.name rem.status (accepted answer))
    pure answer
