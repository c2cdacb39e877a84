-- ===== src/Webhook/Handler.antt =====
-- The webhook's construction and its handler (`NewWebhookStrategy`, `buildHandler`, `ipInCIDRs` of
-- internal/gitops/webhook.go). Logging and the outcome counter are left out; the outcome that is
-- counted is part of the response.
pub mod Authentic
pub mod Budgets
use blogflow.Base.{
  ℕ, zero, suc, ◌*◌, Bool, true, false, ◌&&◌, ◌||◌, not, List, [], ◌∷◌, ◌++◌, length, take, any,
  ltb, if◌then◌else◌, list_eq, nat_eq, ◌==◌, Option, none, some,
}
use blogflow.Base.Text.{Text, codes, is_empty, trim_space}
use blogflow.Base.Int.{ℤ, pos, negsuc}
use blogflow.Webhook.Limiter.{Limiter, new_rate_limiter, allow}
use blogflow.Webhook.Signature.{signature_well_formed, verify_signature}

-- The secret and the branch filter are bytes; the other texts are code points.
pub record WebhookConfig : Type 0 where
  pub path : Text
  pub secret : Text
  pub allowed_events : List Text
  pub allowed_ips : List Text
  pub branch_filter : Text
  pub rate_limit : ℤ
  pub max_body_size : ℤ

-- What the handler reads of an `http.Request`: the two headers it gets, the bytes of the body, and
-- whether their transfer breaks off. `remote` stands for what the IP resolver reads.
pub record Request : Type 0 where
  pub method : Text
  pub remote : Text
  pub signature : Text
  pub event : Text
  pub body : Text
  pub broken : Bool

pub data Outcome : Type 0 where
  accepted forbidden_ip missing_signature invalid_signature body_too_large body_read_error : Outcome
  failure_budget verified_budget event_rejected invalid_payload branch_skipped : Outcome
  reload_failed method_not_allowed : Outcome

-- The response, with the header X-Blogflow-Branch-Skipped if it is set. The message and the header are
-- bytes, since they may repeat a part of a ref.
pub record Response : Type 0 where
  pub outcome : Outcome
  pub status : ℕ
  pub message : Text
  pub skipped : Option Text

abbrev pub response : Outcome → ℕ → Text → Response
response outcome status message = record {
  outcome = outcome;
  status = status;
  message = message;
  skipped = none;
}

-- `webhookLimits`, and what the reloader works on.
pub record State (S : Type 0) : Type 0 where
  pub failures : Option Limiter
  pub verified : Option Limiter
  pub site : S

unfoldable pub new_webhook_limits : {S : Type 0} → ℤ → S → State S
unfolding new_rate_limiter
new_webhook_limits limit site = record {
  failures = new_rate_limiter limit;
  verified = new_rate_limiter limit;
  site = site;
}

-- The errors of `NewWebhookStrategy`.
pub data Refusal : Type 0 where
  bad_path no_secret short_secret no_resolver : Refusal

-- `cfg.Path == "" || cfg.Path[0] != '/'`
abbrev pub starts_with_slash : Text → Bool
starts_with_slash [] = false
starts_with_slash (c ∷ _) = c == b'/'

-- `none` is success.
unfoldable pub new_webhook_strategy : WebhookConfig → Bool → Option Refusal
new_webhook_strategy cfg has_resolver =
    if not (starts_with_slash cfg.path)
    then some bad_path
    else if is_empty cfg.secret
    then some no_secret
    else if ltb (length cfg.secret) 32
    then some short_secret
    else if not has_resolver
    then some no_resolver
    else none

-- `limits.failures != nil && !limits.failures.allow(ip)`: whether the budget allows the request.
unfoldable pub charge : Text → ℕ → Option Limiter → Bool × Option Limiter
charge ip now none = (true, none)
charge ip now (some rl) = let (answer, rl') = allow ip now rl in (answer, some rl')

unfoldable pub reject : {S : Type 0} → Text → ℕ → Outcome → ℕ → Text → State S → Response × State S
unfolding charge
reject ip now outcome status message st =
    let (answer, failures) = charge ip now st.failures in
    let st' = record st { failures = failures } in
    if answer
    then (response outcome status message, st')
    else (response failure_budget 429 (codes "rate limit exceeded"), st')

abbrev pub default_max_payload_size : ℕ
default_max_payload_size = 1024 * 1024

unfoldable pub body_limit : WebhookConfig → ℕ
body_limit cfg = elim cfg.max_body_size [
  | pos zero ↦ default_max_payload_size
  | pos (suc n) ↦ suc n
  | negsuc n ↦ default_max_payload_size
]

abbrev pub max_echoed_ref_len : ℕ
max_echoed_ref_len = 256

-- `net.ParseIP` and `net.ParseCIDR`: the bytes of an address, and the test whether a range has it.
module _ (parse_ip : Text → Option Text) (parse_cidr : Text → Option (Text → Bool)) where
  -- One round of the loop of `ipInCIDRs`.
  unfoldable pub entry_matches : Text → Text → Bool
  unfolding trim_space
  entry_matches target entry = elim (parse_cidr (trim_space entry)) [
    | some has ↦ has target
    | none ↦ elim (parse_ip (trim_space entry)) [ none ↦ false | some ip ↦ ip == target ]
  ]

  unfoldable pub ip_in_cidrs : Text → List Text → Bool
  unfolding entry_matches
  ip_in_cidrs ip allowed_ips = elim (parse_ip ip) [
    | none ↦ false
    | some target ↦ any (entry_matches target) allowed_ips
  ]

  -- `len(w.config.AllowedIPs) > 0 && !ipInCIDRs(ip, w.config.AllowedIPs)`, negated.
  unfoldable pub source_allowed : WebhookConfig → Text → Bool
  unfolding ip_in_cidrs
  source_allowed cfg ip = is_empty cfg.allowed_ips || ip_in_cidrs ip cfg.allowed_ips

  -- The IP resolver, the HMAC, the bytes of the `ref` that `json.Unmarshal` finds in the payload (`none`
  -- is its error) and the reloader, which returns whether it succeeded.
  module _ {S : Type 0} (client_ip : Request → Text) (hmac : Text → Text → Text)
      (json_ref : Text → Option Text) (reload : S → Bool × S) where
    -- The checks up to the signature, with the outcome, the status and the message of the rejection.
    unfoldable pub authenticate : WebhookConfig → Request → Option (Outcome × ℕ × Text)
    unfolding source_allowed signature_well_formed verify_signature body_limit
    authenticate cfg r =
        if not (source_allowed cfg (client_ip r))
        then some (forbidden_ip, 403, codes "source IP not in allowed_ips")
        else if is_empty r.signature
        then some (missing_signature, 401, codes "missing signature")
        else if not (signature_well_formed r.signature)
        then some (invalid_signature, 401, codes "invalid signature")
        else if ltb (body_limit cfg) (length r.body)
        then some (body_too_large, 413, codes "request body too large")
        else if r.broken
        then some (body_read_error, 400, codes "failed to read body")
        else if not (verify_signature hmac cfg.secret r.body r.signature)
        then some (invalid_signature, 401, codes "invalid signature")
        else none

    -- `AllowedEvents`
    unfoldable pub filter_event : WebhookConfig → Request → Option Response
    filter_event cfg r =
        if is_empty cfg.allowed_events
        then none
        else if is_empty r.event
        then some (response event_rejected 403 (codes "missing event header"))
        else if not (any (λ e. e == r.event) cfg.allowed_events)
        then some (response event_rejected 403 (codes "event type not allowed"))
        else none

    -- `BranchFilter`; `ref[:maxEchoedRefLen]` cuts bytes, and so does `take` here.
    unfoldable pub filter_branch : WebhookConfig → Request → Option Response
    filter_branch cfg r = if is_empty cfg.branch_filter then none else elim (json_ref r.body) [
      | none ↦ some (response invalid_payload 400 (codes "invalid payload"))
      | some ref ↦
          let echoed = take max_echoed_ref_len ref in
          if ref == codes "refs/heads/" ++ cfg.branch_filter
          then none
          else some (record {
            outcome = branch_skipped;
            status = 202;
            message = echoed ++ codes " (no action)";
            skipped = some echoed;
          })
    ]

    -- The verified budget and the reload.
    unfoldable pub deliver : Text → ℕ → State S → Response × State S
    unfolding charge
    deliver ip now st =
        let (answer, verified) = charge ip now st.verified in
        let st' = record st { verified = verified } in
        if answer
        then (let (done, site) = reload st.site in
            (
              if done
                  then response accepted 200 (codes "ok")
                  else response reload_failed 500 (codes "reload failed"),
              record st' { site = site },
            ))
        else (response verified_budget 429 (codes "rate limit exceeded"), st')

    -- The function that `buildHandler` returns; `now` is what the clock says to the limiter that is
    -- asked, and no more than one is.
    unfoldable pub handle : WebhookConfig → Request → ℕ → State S → Response × State S
    unfolding authenticate filter_event filter_branch deliver reject
    handle cfg r now st =
        let ip = client_ip r in
        if not (r.method == codes "POST")
        then (response method_not_allowed 405 (codes "method not allowed"), st)
        else elim (authenticate cfg r) [
          | some (outcome, status, message) ↦ reject ip now outcome status message st
          | none ↦ elim (filter_event cfg r) [
            | some answer ↦ (answer, st)
            | none ↦ elim (filter_branch cfg r) [
              | some answer ↦ (answer, st)
              | none ↦ deliver ip now st
            ]
          ]
        ]
