-- ===== src/Examples/Choosing.antt =====
-- The theorems on matching, targets, waits and the history limit, on concrete data.
use Prim.Native.Nat.{min}
use remedik.Base.{
  to_lower, ◌+◌, ◌*◌, ◌^◌, ◌≡◌, refl, String, true, false, List, [], ◌∷◌, arith, ℤ, pos, ◌↔◌, inl,
  inr, ok, Member, keep, sym, ap, ◌∙◌,
}
use text.Mathlib.Text.{◌==◌ as str_eq}
use text.Mathlib.TextEquality.{eq_iff}
use remedik.Base.Assoc
use remedik.Base.Assoc.{string_eq}
use remedik.Alert.{Alert, firing}
use remedik.Matching.{Rule, matches, select, why_not}
use remedik.Matching.Best.{IsBest, select-IsBest, select_order_irrelevant}
use remedik.Matching.Explain.{why_not-matches}
use remedik.Action.Targets.{Target, to_string, parse_target}
use remedik.Action.Targets.RoundTrip.{parse_target-to_string, lowered}
use remedik.Api.{Remediation, succeeded, is_terminal, auto}
use remedik.Engine.Backoff.{backoff, base_backoff, max_backoff, backoff-doubles}
use remedik.Engine.Controller.Prune.{
  doomed, is_candidate, limit_of, newest_first, insert_by_age, newer,
}
use remedik.Engine.Controller.Prune.Keeps.{doomed_terminal}
use remedik.Engine.Controller.Prune.Splits.{Splits, doomed-Splits}
use remedik.Examples.Cluster.{remediation}

abbrev pub web_down : Alert
web_down = record {
  fingerprint = "f";
  status = firing;
  labels = ("alertname", "WebDown") ∷ ("team", "shop") ∷ [];
  annotations = [];
  starts_at = pos 0;
  ends_at = pos 0;
  generator_url = "";
}

abbrev pub wide : Rule
wide = record { name = "wide"; enabled = true; match = ("alertname", "WebDown") ∷ [] }

abbrev pub narrow : Rule
narrow = record {
  name = "narrow";
  enabled = true;
  match = ("alertname", "WebDown") ∷ ("team", "shop") ∷ [];
}

-- It wants that the alert has no `node` label.
abbrev pub absent : Rule
absent = record { name = "absent"; enabled = true; match = ("node", "") ∷ [] }

select-IsBest_example : IsBest web_down (wide ∷ narrow ∷ []) (select web_down (wide ∷ narrow ∷ []))
select-IsBest_example = select-IsBest web_down (wide ∷ narrow ∷ [])

swapped : (r : Rule) → Member r (wide ∷ narrow ∷ []) → Member r (narrow ∷ wide ∷ [])
swapped r (inl e) = inr (inl e)
swapped r (inr (inl e)) = inl e
swapped r (inr (inr e)) = absurd e

swapped_back : (r : Rule) → Member r (narrow ∷ wide ∷ []) → Member r (wide ∷ narrow ∷ [])
swapped_back r (inl e) = inr (inl e)
swapped_back r (inr (inl e)) = inl e
swapped_back r (inr (inr e)) = absurd e

apart : (wide.name ≡ narrow.name) → ⊥
apart e = let h : false ≡ true = (eq_iff wide.name narrow.name).1 e in ground arith

same_of_name :
    (r s : Rule)
    → Member r (wide ∷ narrow ∷ [])
    → Member s (wide ∷ narrow ∷ [])
    → r.name ≡ s.name
    → r ≡ s
same_of_name r s (inl p) (inl q) e = p ∙ sym q
same_of_name r s (inl p) (inr (inl q)) e =
    absurd (apart (sym (ap (λ t. t.name) p) ∙ (e ∙ ap (λ t. t.name) q)))
same_of_name r s (inr (inl p)) (inl q) e =
    absurd (apart (sym (ap (λ t. t.name) q) ∙ (sym e ∙ ap (λ t. t.name) p)))
same_of_name r s (inr (inl p)) (inr (inl q)) e = p ∙ sym q
same_of_name r s (inl p) (inr (inr q)) e = absurd q
same_of_name r s (inr (inl p)) (inr (inr q)) e = absurd q
same_of_name r s (inr (inr p)) n e = absurd p

select_order_irrelevant_example :
    select web_down (wide ∷ narrow ∷ []) ≡ select web_down (narrow ∷ wide ∷ [])
select_order_irrelevant_example =
    select_order_irrelevant web_down (wide ∷ narrow ∷ []) (narrow ∷ wide ∷ []) swapped swapped_back
      same_of_name

why_not-matches_example : (why_not web_down narrow ≡ []) ↔ (matches web_down narrow ≡ true)
unfolding Assoc.get
why_not-matches_example = why_not-matches web_down narrow (refl, (refl, tt)) (refl, (refl, tt))

abbrev pub web : Target
web = record { kind = "Deployment"; namespace = "shop"; name = "web" }

parse_target-to_string_example :
    (parse_target (to_string web) ≡ ok (lowered web))
    × ((parse_target (to_string web) ≡ ok web) ↔ (to_lower web.kind ≡ web.kind))
parse_target-to_string_example =
    parse_target-to_string web (ground arith) (ground arith) (ground arith) refl refl

backoff-doubles_example :
    (backoff 0 ≡ 0) × (backoff 1 ≡ 0) × (backoff (3 + 2) ≡ min (base_backoff * 2 ^ 3) max_backoff)
backoff-doubles_example = backoff-doubles 3

abbrev pub over : String → ℤ → Remediation
over name creation =
    let rem = remediation auto [] 0 in
    record rem {
      name = name;
      creation = creation;
      status = record rem.status { state = succeeded };
    }

abbrev pub listed : List Remediation
listed = over "a" (pos 1) ∷ over "b" (pos 5) ∷ over "c" (pos 3) ∷ remediation auto [] 0 ∷ []

doomed_terminal_example :
    Member (over "a" (pos 1)) listed
    × (is_terminal (over "a" (pos 1)).status.state ≡ true)
    × (str_eq "a" "b" ≡ false)
unfolding doomed newest_first insert_by_age newer is_candidate limit_of is_terminal keep
doomed_terminal_example = doomed_terminal (pos 2) "b" listed (over "a" (pos 1)) (inl refl)

doomed-Splits_example :
    (spared : List Remediation) × Splits
      (limit_of (pos 2))
      (keep (is_candidate "b") listed)
      spared
      (doomed (pos 2) "b" listed)
doomed-Splits_example = doomed-Splits (pos 2) "b" listed
