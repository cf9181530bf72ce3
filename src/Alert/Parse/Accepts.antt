-- ===== src/Alert/Parse/Accepts.antt =====
-- internal/alert/parse.go: which deliveries are understood, and as what.
use text.Mathlib.Text.{◌==◌ as str_eq}
use remedik.Base.{
  ℕ, suc, String, ◌≡◌, refl, ◌⊎◌, inl, inr, Bool, true, false, none, some, List, [], ◌∷◌, Result,
  ok, err, errorf, wrapf, str, num, pos, trim, to_lower, arith, Bool-cases, if◌then◌else◌,
}
use remedik.Base.Assoc
use remedik.Base.Assoc.{Eq, string_eq, get-put}
use text.Mathlib.TextEquality.{eq_iff}
use remedik.Alert.{Alert, Labels, Status, firing_status, is_firing}
use remedik.Alert.Fingerprint.{derive_fingerprint-nonempty}
use remedik.Alert.Parse.{
  WebhookItem, WebhookPayload, Parsing, parsed, refused, validate_status, is_empty, copy_from,
  copy_map, fingerprint_of, alert_of, normalize, normalize_from, unsupported, parse_payload,
}

-- A map names each key once.
abbrev pub Once : Labels → Type 0
Once [] = Unit
Once ((k, v) ∷ labels) = (Assoc.get labels k ≡ none) × Once labels

copy_from-get :
    (out labels : Labels) (k : String)
    → Once labels
    → Assoc.get (copy_from out labels) k
      ≡ elim (Assoc.get labels k) [ none ↦ Assoc.get out k | some v ↦ some v ]
unfolding copy_from Assoc.get
copy_from-get out [] k o = refl
copy_from-get out ((j, v) ∷ labels) k o =
    ground (arith, copy_from-get (Assoc.put out j v) labels k o.1, get-put out j k v, eq_iff j k)

copy_map-get :
    (labels : Labels) (k : String)
    → Once labels
    → Assoc.get (copy_map labels) k ≡ Assoc.get labels k
unfolding copy_map Assoc.get
copy_map-get labels k o = ground (arith, copy_from-get [] labels k o)

-- What is read off an entry.
abbrev pub known_status : WebhookItem → Bool
known_status it =
    if str_eq (to_lower (trim it.status)) "firing"
    then true
    else str_eq (to_lower (trim it.status)) "resolved"

pub record Understood (it : WebhookItem) (a : Alert) : Type 0 where
  pub has_status : known_status it ≡ true
  pub same_status : is_firing a ≡ str_eq (to_lower (trim it.status)) "firing"
  pub has_labels : is_empty it.labels ≡ false
  pub same_labels : (k : String) → Once it.labels → Assoc.get a.labels k ≡ Assoc.get it.labels k
  pub has_identity : str_eq a.fingerprint "" ≡ false
  pub keeps_identity : (str_eq it.fingerprint "" ≡ true) ⊎ (a.fingerprint ≡ it.fingerprint)

-- Why an entry is not understood.
abbrev pub Misread : WebhookItem → Type 0
Misread it = (known_status it ≡ false) ⊎ (is_empty it.labels ≡ true)

fingerprint_of-nonempty : (it : WebhookItem) → str_eq (fingerprint_of it) "" ≡ false
unfolding fingerprint_of
fingerprint_of-nonempty it = ground (arith, derive_fingerprint-nonempty it.labels)

fingerprint_of-keeps :
    (it : WebhookItem) → (str_eq it.fingerprint "" ≡ true) ⊎ (fingerprint_of it ≡ it.fingerprint)
unfolding fingerprint_of
fingerprint_of-keeps it = ground arith

-- The status that was read, against the text.
StatusOf : WebhookItem → Result Status → Type 0
StatusOf it (ok s) =
    (known_status it ≡ true) × (firing_status s ≡ str_eq (to_lower (trim it.status)) "firing")
StatusOf it (err e) = known_status it ≡ false

validate_status-StatusOf : (it : WebhookItem) → StatusOf it (validate_status it.status)
unfolding validate_status StatusOf
validate_status-StatusOf it = elim (Bool-cases (str_eq (to_lower (trim it.status)) "firing")) [
  | inl e ↦ rw e (ground (arith, e), rw e refl)
  | inr e ↦ elim (Bool-cases (str_eq (to_lower (trim it.status)) "resolved")) [
    | inl f ↦ rw (e, f) (ground (arith, e, f), rw e refl)
    | inr f ↦ elim (Bool-cases (str_eq (to_lower (trim it.status)) "")) [
      | inl g ↦ rw (e, f, g) (ground (arith, e, f))
      | inr g ↦ rw (e, f, g) (ground (arith, e, f))
    ]
  ]
]

abbrev Read : WebhookItem → Result Alert → Type 0
Read it (ok a) = Understood it a
Read it (err e) = Misread it

-- The rest of `normalize`, once the status is read.
rest-Read :
    (it : WebhookItem) (status : Result Status)
    → StatusOf it status
    → Read it (elim status [
      | err e ↦ err e
      | ok s ↦
          if is_empty it.labels
          then err (errorf (str "alert has no labels" ∷ []))
          else ok (alert_of it s)
    ])
unfolding StatusOf alert_of is_firing
rest-Read it (err e) h = inl h
rest-Read it (ok s) h = elim (Bool-cases (is_empty it.labels)) [
  | inl none_there ↦ rw none_there (inr none_there)
  | inr there ↦ rw there (record {
    has_status = h.0;
    same_status = h.1;
    has_labels = there;
    same_labels = λ k o. copy_map-get it.labels k o;
    has_identity = fingerprint_of-nonempty it;
    keeps_identity = fingerprint_of-keeps it;
  })
]

normalize-Read : (it : WebhookItem) → Read it (normalize it)
unfolding normalize
normalize-Read it = rest-Read it (validate_status it.status) (validate_status-StatusOf it)

-- The alerts against the entries, one by one.
abbrev pub Reads : List WebhookItem → List Alert → Type 0
Reads [] [] = Unit
Reads (it ∷ items) (a ∷ alerts) = Understood it a × Reads items alerts
Reads _ _ = ⊥

abbrev pub SomeMisread : List WebhookItem → Type 0
SomeMisread [] = ⊥
SomeMisread (it ∷ items) = Misread it ⊎ SomeMisread items

abbrev ReadsAll : List WebhookItem → Result (List Alert) → Type 0
ReadsAll items (ok alerts) = Reads items alerts
ReadsAll items (err e) = SomeMisread items

one-ReadsAll :
    (i : ℕ) (it : WebhookItem) (items : List WebhookItem) (first : Result Alert)
    (others : Result (List Alert))
    → Read it first
    → ReadsAll items others
    → ReadsAll (it ∷ items) (elim first [
      | err e ↦ err (wrapf (str "alert[" ∷ num (pos i) ∷ str "]" ∷ []) e)
      | ok a ↦ elim others [ err e ↦ err e | ok alerts ↦ ok (a ∷ alerts) ]
    ])
one-ReadsAll i it items (err e) others h r = inl h
one-ReadsAll i it items (ok a) (err e) h r = inr r
one-ReadsAll i it items (ok a) (ok alerts) h r = (h, r)

normalize_from-ReadsAll :
    (i : ℕ) (items : List WebhookItem) → ReadsAll items (normalize_from i items)
unfolding normalize_from
normalize_from-ReadsAll i [] = tt
normalize_from-ReadsAll i (it ∷ items) =
    one-ReadsAll i it items (normalize it) (normalize_from (suc i) items) (normalize-Read it)
      (normalize_from-ReadsAll (suc i) items)

-- What `ParseWebhook` promises of a payload.
abbrev pub ReadsPayload : WebhookPayload → Parsing → Type 0
ReadsPayload p (parsed r) =
    (unsupported p.version ≡ false)
    × (r.truncated_alerts ≡ p.truncated_alerts)
    × Reads p.alerts r.alerts
ReadsPayload p (refused large e) = (unsupported p.version ≡ true) ⊎ SomeMisread p.alerts

payload_rest :
    (p : WebhookPayload) (alerts : Result (List Alert))
    → unsupported p.version ≡ false
    → ReadsAll p.alerts alerts
    → ReadsPayload p (elim alerts [
      | err e ↦ refused false e
      | ok found ↦ parsed (record { alerts = found; truncated_alerts = p.truncated_alerts })
    ])
payload_rest p (err e) v r = inr r
payload_rest p (ok alerts) v r = (v, refl, r)

-- A payload is understood whole or not at all. If it is, its version is supported, and there is one
-- alert to each entry, in order, with the status that the entry's text names (whatever its case and
-- the space around it), the entry's labels where they name each key once, at least one of them, and a
-- fingerprint that is not empty and is the sender's where he gave one. If it is refused, its version is
-- unsupported, or some entry has no known status or no labels.
pub parse_payload-Reads : (p : WebhookPayload) → ReadsPayload p (parse_payload p)
unfolding parse_payload
parse_payload-Reads p = elim (Bool-cases (unsupported p.version)) [
  | inl off ↦ rw off (inl off)
  | inr on ↦
      rw on (payload_rest p (normalize_from 0 p.alerts) on (normalize_from-ReadsAll 0 p.alerts))
]
