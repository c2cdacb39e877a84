-- ===== src/Webhook/Tests.antt =====
-- Runs of the webhook model, and its theorems at a small configuration: a sender whose digests are
-- 32 zero bytes, and a site that counts its reloads.
use blogflow.Base.Assoc.{erase, lookup}
use blogflow.Base.{
  list_beq, ℕ, zero, suc, ◌+◌, ◌≤◌, ◌<◌, ◌≡◌, refl, Bool, true, false, List, [], ◌∷◌, ◌++◌, Option,
  none, some, length, All, arith, ◌↔◌, ◌⊎◌, list_eq, nat_eq,
}
use blogflow.Base.Text.{cut_prefix, Text, codes}
use blogflow.Base.Int.{pos}
use blogflow.Webhook.Limiter.{Limiter, new_rate_limiter, minute, default_max_clients, allow}
use blogflow.Webhook.Limiter.History.{allow_all, times, reference_all, allow_all-reference}
use blogflow.Webhook.Limiter.Window.{IsSorted}
use blogflow.Webhook.Limiter.Log.{accepted_within}
use blogflow.Webhook.Signature.{
  hex_digit, hex_encode, signature_well_formed, verify_signature, verify_signature-well_formed,
  verify_signature-hex_encode,
}
use blogflow.Webhook.Handler.{
  WebhookConfig, Request, Response, response, accepted, State, new_webhook_limits,
  new_webhook_strategy, starts_with_slash, authenticate, filter_event, filter_branch, handle,
  deliver,
}
use blogflow.Webhook.Handler.Authentic.{
  IsAuthentic, authenticate-IsAuthentic, new_webhook_strategy-none,
}
use blogflow.Webhook.Handler.Budgets.{handle_all, SameBudget, handle-not_starved, handle-forged}

abbrev limiter : Limiter
limiter = record { limit = 2; window = minute; max_size = default_max_clients; lru = [] }

abbrev calls : List (Text × ℕ)
calls =
    (codes "a", 1) ∷ (codes "a", 2) ∷ (codes "b", 2) ∷ (codes "a", 3) ∷ (codes "a", 2 + minute) ∷ []

-- The third delivery of one client is one too many, until the window has passed.
calls_answered : (allow_all calls limiter).0 ≡ true ∷ true ∷ true ∷ false ∷ true ∷ []
unfolding allow_all allow lookup list_beq erase
calls_answered = refl

calls-IsSorted : IsSorted (times calls)
calls-IsSorted = ground arith

calls_past : All (λ t. t ≤ 3 + minute) (times calls)
calls_past = ground arith

allow_all-reference_example :
    ((allow_all calls limiter).0 ≡ (reference_all 2 minute calls []).0)
    × (accepted_within minute (3 + minute) (codes "a") (reference_all 2 minute calls []).1 ≤ 2)
allow_all-reference_example =
    allow_all-reference 2 limiter calls (unfold new_rate_limiter in refl) calls-IsSorted
      (omega arith) (codes "a") (3 + minute) calls_past

abbrev zeros : ℕ → Text
zeros zero = []
zeros (suc n) = 0 ∷ zeros n

abbrev digest : Text → Text → Text
digest key message = zeros 32

zeros-bytes : (n : ℕ) → All (λ c. c < 256) (zeros n)
zeros-bytes zero = tt
zeros-bytes (suc n) = (omega arith, zeros-bytes n)

abbrev header : Text
header = codes "sha256=" ++ hex_encode (zeros 32)

verify_signature-hex_encode_example :
    (verify_signature digest [] [] header ≡ true) × (signature_well_formed header ≡ true)
verify_signature-hex_encode_example = verify_signature-hex_encode digest [] [] refl (zeros-bytes 32)

verify_signature-well_formed_example : signature_well_formed header ≡ true
verify_signature-well_formed_example =
    verify_signature-well_formed digest [] [] header refl verify_signature-hex_encode_example.0

abbrev config : WebhookConfig
config = record {
  path = codes "/hook";
  secret = zeros 32;
  allowed_events = codes "push" ∷ [];
  allowed_ips = [];
  branch_filter = codes "main";
  rate_limit = pos 2;
  max_body_size = pos 0;
}

abbrev request : Text → Request
request signature = record {
  method = codes "POST";
  remote = codes "10.0.0.1";
  signature = signature;
  event = codes "push";
  body = codes "refs/heads/main";
  broken = false;
}

abbrev no_ip : Text → Option Text
no_ip s = none

abbrev no_range : Text → Option (Text → Bool)
no_range s = none

abbrev remote_of : Request → Text
remote_of r = r.remote

abbrev reload : ℕ → Bool × ℕ
reload n = (true, suc n)

abbrev start : State ℕ
start = new_webhook_limits (pos 2) 0

abbrev run : Request → ℕ → State ℕ → Response × State ℕ
run = handle no_ip no_range remote_of digest some reload config

signed_reloads :
    ((run (request header) 5 start).0 ≡ response accepted 200 (codes "ok"))
    × ((run (request header) 5 start).1.site ≡ 1)
unfolding handle list_beq cut_prefix hex_encode hex_digit new_webhook_limits allow lookup
signed_reloads = (refl, refl)

short_secret_refused :
    (new_webhook_strategy config true ≡ none)
    ↔ ((starts_with_slash config.path ≡ true) × (32 ≤ length config.secret) × (true ≡ true))
short_secret_refused = new_webhook_strategy-none config true

authenticate-IsAuthentic_example :
    (authenticate no_ip no_range remote_of digest some reload config (request header) ≡ none)
    ↔ IsAuthentic no_ip no_range remote_of digest config (request header)
authenticate-IsAuthentic_example =
    authenticate-IsAuthentic no_ip no_range remote_of digest config some reload (request header)
      refl

genuine : IsAuthentic no_ip no_range remote_of digest config (request header)
unfolding cut_prefix hex_encode hex_digit list_beq
genuine = authenticate-IsAuthentic_example.0 (unfold authenticate in refl)

abbrev junk : List (Request × ℕ)
junk = (request [], 1) ∷ (request [], 2) ∷ (request [], 3) ∷ []

unsigned : IsAuthentic no_ip no_range remote_of digest config (request []) → ⊥
unfolding verify_signature cut_prefix
unsigned a = absurd (cc a.signed)

handle-not_starved_example :
    ((run
        (request header)
        5
        (handle_all no_ip no_range remote_of digest some reload config junk start)).0
      ≡ (run (request header) 5 start).0)
    × SameBudget no_ip no_range remote_of digest some reload config
        (run
          (request header)
          5
          (handle_all no_ip no_range remote_of digest some reload config junk start)).1
        (run (request header) 5 start).1
handle-not_starved_example =
    handle-not_starved no_ip no_range remote_of digest some reload config (request header) 5 junk
      start (λ _. refl) (unsigned, (unsigned, (unsigned, tt))) genuine

handle-forged_example :
    SameBudget no_ip no_range remote_of digest some reload config
      (run (request header) 5 start).1
      start
    ⊎ (((request header).method ≡ codes "POST")
        × IsAuthentic no_ip no_range remote_of digest config (request header)
        × (filter_event no_ip no_range remote_of digest some reload config (request header) ≡ none)
        × (filter_branch no_ip no_range remote_of digest some reload config (request header) ≡ none)
        × (run (request header) 5 start
            ≡ deliver no_ip no_range remote_of digest some reload (codes "10.0.0.1") 5 start))
handle-forged_example =
    handle-forged no_ip no_range remote_of digest some reload config (request header) 5 start refl
