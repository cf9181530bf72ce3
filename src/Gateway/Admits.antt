-- ===== src/Gateway/Admits.antt =====
-- internal/gateway/gateway.go: what is let through to the sink.
use Prim.Native.String.{◌++◌ as append}
use text.Mathlib.TextEquality.{eq_iff}
use text.Mathlib.TextLemmas.{nil-append, cons-append}
use text.Mathlib.Text.{◌==◌ as str_eq}
use remedik.Base.{
  String, ◌≡◌, refl, ap, ◌∙◌, ◌⊎◌, inl, inr, Bool, true, false, some, List, ◌==◌, arith, Bool-cases,
  any, trim,
}
use remedik.Alert.Parse.{Parsing, parsed, refused, ParseResult, parse_webhook}
use remedik.Gateway.{
  Handler, Request, Response, Effect, body_read, strip_fold, is_token, presents, authorized,
  is_accepting, take_parsed, serve,
}

unfoldable pub reads_body : Effect → Bool
reads_body body_read = true
reads_body _ = false

module _ {S : Type 0} where
  -- The delivery comes to the right place, from a sender that shows the token, at the leader.
  pub record Permitted (h : Handler S) (r : Request) (s : S) : Type 0 where
    pub right_path : str_eq r.path h.path ≡ true
    pub is_post : str_eq r.method "POST" ≡ true
    pub is_authorized : authorized h r ≡ true
    pub leads : is_accepting h s ≡ true

  abbrev pub Delivered :
      Handler S → Request → S → (Response × List Effect) × S → ParseResult → Type 0
  Delivered h r s out result =
      (parse_webhook (r.body h.max_body_bytes) ≡ parsed result)
      × (out.0.0.status ≡ 200)
      × (out.1 ≡ h.sink result.alerts s)

  -- Every outcome: the alerts of an admitted delivery are handed over, or nothing is.
  abbrev pub Outcome : Handler S → Request → S → (Response × List Effect) × S → Type 0
  Outcome h r s out =
      (Permitted h r s × ((result : ParseResult) × Delivered h r s out result))
      ⊎ (((out.0.0.status == 200) ≡ false)
          × (out.1 ≡ s)
          × ((any reads_body out.0.1 ≡ false) ⊎ Permitted h r s))

  take_parsed-Outcome :
      (h : Handler S) (r : Request) (s : S) (p : Parsing)
      → parse_webhook (r.body h.max_body_bytes) ≡ p
      → Permitted h r s
      → Outcome h r s (take_parsed h p s)
  unfolding take_parsed
  take_parsed-Outcome h r s (parsed result) e k = inl (k, (result, (e, refl, refl)))
  take_parsed-Outcome h r s (refused true x) e k = inr (refl, refl, inr k)
  take_parsed-Outcome h r s (refused false x) e k = inr (refl, refl, inr k)

  -- The gateway hands alerts to the sink exactly when it answers 200, and then those of the parsed
  -- delivery, once; on every other answer the state behind the sink is as it was. It answers 200 only
  -- to a POST to its path, from a sender that shows the token, at an instance that holds the lease; and
  -- the body of any other request is not read.
  pub serve-Outcome : (h : Handler S) (r : Request) (s : S) → Outcome h r s (serve h r s)
  unfolding serve any reads_body
  serve-Outcome h r s = elim (Bool-cases (str_eq r.path h.path)) [
    | inr away ↦ rw away (inr (refl, refl, inl refl))
    | inl here ↦ elim (Bool-cases (str_eq r.method "POST")) [
      | inr other ↦ rw (here, other) (inr (refl, refl, inl refl))
      | inl post ↦ elim (Bool-cases (authorized h r)) [
        | inr stranger ↦ rw (here, post, stranger) (inr (refl, refl, inl refl))
        | inl known ↦ elim (Bool-cases (is_accepting h s)) [
          | inr standby ↦ rw (here, post, known, standby) (inr (refl, refl, inl refl))
          | inl leads ↦
              rw (here, post, known, leads)
                (take_parsed-Outcome h r s _ refl (record {
                  right_path = here;
                  is_post = post;
                  is_authorized = known;
                  leads = leads;
                }))
        ]
      ]
    ]
  ]

strip_fold_self : (p s : String) → strip_fold p (append p s) ≡ some s
unfolding strip_fold
strip_fold_self String.[] s = ap some (nil-append s)
strip_fold_self (String.◌∷◌ c p) s = rw (cons-append c p s) (ground (arith, strip_fold_self p s))

is_token_self :
    (token : String)
    → str_eq token "" ≡ false
    → trim token ≡ token
    → is_token token (some token) ≡ true
unfolding is_token
is_token_self token some_there bare = rw (some_there, bare) ((eq_iff token token).1 refl)

presents-bearer :
    (token : String)
    → str_eq token "" ≡ false
    → trim token ≡ token
    → presents token (append "Bearer " token) ≡ true
unfolding presents
presents-bearer token some_there bare =
    ap (is_token token) (strip_fold_self "Bearer " token) ∙ is_token_self token some_there bare

-- A sender that shows the configured token after "Bearer " is let in, if the token has no space around
-- it; so is one without any token, where none is configured.
pub authorized-bearer :
    {S : Type 0} (h : Handler S) (r : Request)
    → trim h.token ≡ h.token
    → r.authorization ≡ append "Bearer " h.token
    → authorized h r ≡ true
unfolding authorized
authorized-bearer h r bare shown = elim (Bool-cases (str_eq h.token "")) [
  | inl open_to_all ↦ rw open_to_all refl
  | inr guarded ↦ rw (guarded, shown) (presents-bearer h.token guarded bare)
]
