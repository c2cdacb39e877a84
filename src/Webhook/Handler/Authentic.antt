-- ===== src/Webhook/Handler/Authentic.antt =====
-- Which requests the handler of internal/gitops/webhook.go takes for genuine.
use blogflow.Base.{
  if◌then◌else◌, [], ◌∷◌, ℕ, ◌≤◌, ◌≡◌, refl, Bool, true, false, not, length, ltb, list_eq, Option,
  none, some, arith, ◌↔◌,
}
use blogflow.Base.Text.{cut_prefix, Text, is_empty}
use blogflow.Webhook.Signature.{
  signature_well_formed, verify_signature, verify_signature-well_formed,
}
use blogflow.Webhook.Handler.{
  WebhookConfig, Request, new_webhook_strategy, starts_with_slash, source_allowed, body_limit,
  authenticate,
}

-- A chain of guards gives `none` only if each lets pass.
guard-none :
    {A : Type 0} (b : Bool) (x : A) (rest : Option A)
    → (if b then some x else rest) ≡ none
    → (b ≡ false) × (rest ≡ none)
guard-none true x rest e = absurd (cc)
guard-none false x rest e = (refl, e)

le_of_ltb : (a b : ℕ) → ltb a b ≡ false → b ≤ a
le_of_ltb a b h = ground arith

ltb_of_le : (a b : ℕ) → b ≤ a → ltb a b ≡ false
ltb_of_le a b h = ground arith

not-false : (b : Bool) → not b ≡ false → b ≡ true
not-false true e = refl
not-false false e = absurd (cc)

signature_well_formed-present :
    (sig_header : Text) → signature_well_formed sig_header ≡ true → is_empty sig_header ≡ false
unfolding signature_well_formed cut_prefix
signature_well_formed-present [] e = absurd (cc)
signature_well_formed-present (c ∷ s) e = refl

module _ (parse_ip : Text → Option Text) (parse_cidr : Text → Option (Text → Bool))
    (client_ip : Request → Text) (hmac : Text → Text → Text) (cfg : WebhookConfig) where
  -- A request of the sender: from an allowed source, its body whole and within the limit, and the
  -- signature right for that body.
  pub record IsAuthentic (r : Request) : Type 0 where
    pub allowed_source : source_allowed parse_ip parse_cidr cfg (client_ip r) ≡ true
    pub whole : r.broken ≡ false
    pub within : length r.body ≤ body_limit cfg
    pub signed : verify_signature hmac cfg.secret r.body r.signature ≡ true

  module _ {S : Type 0} (json_ref : Text → Option Text) (reload : S → Bool × S) where
    -- The checks let a request through exactly if it is authentic, for digests of 32 bytes: the
    -- early checks of the header turn away no authentic request.
    pub authenticate-IsAuthentic :
        (r : Request)
        → length (hmac cfg.secret r.body) ≡ 32
        → (authenticate parse_ip parse_cidr client_ip hmac json_ref reload cfg r ≡ none)
          ↔ IsAuthentic r
    unfolding authenticate
    authenticate-IsAuthentic r size = (to, from)
      where
        to :
            authenticate parse_ip parse_cidr client_ip hmac json_ref reload cfg r ≡ none
            → IsAuthentic r
        to e =
            let (source, e1) =
              guard-none (not (source_allowed parse_ip parse_cidr cfg (client_ip r))) _ _ e in
            let (_, e2) = guard-none (is_empty r.signature) _ _ e1 in
            let (_, e3) = guard-none (not (signature_well_formed r.signature)) _ _ e2 in
            let (fits, e4) = guard-none (ltb (body_limit cfg) (length r.body)) _ _ e3 in
            let (whole, e5) = guard-none r.broken _ _ e4 in
            let (signed, _) =
              guard-none (not (verify_signature hmac cfg.secret r.body r.signature)) _ _ e5 in
            record {
              allowed_source = not-false _ source;
              whole = whole;
              within = le_of_ltb (body_limit cfg) (length r.body) fits;
              signed = not-false _ signed;
            }

        from :
            IsAuthentic r
            → authenticate parse_ip parse_cidr client_ip hmac json_ref reload cfg r ≡ none
        from a =
            let formed =
              verify_signature-well_formed hmac cfg.secret r.body r.signature size a.signed in
            let fits : ltb (body_limit cfg) (length r.body) ≡ false =
              ltb_of_le (body_limit cfg) (length r.body) a.within in
            rw
              (
                a.allowed_source,
                signature_well_formed-present r.signature formed,
                formed,
                fits,
                a.whole,
                a.signed,
                authenticate,
              )
              refl

-- `NewWebhookStrategy` succeeds exactly on a path that starts with a slash, a secret of at least 32
-- bytes and a resolver.
pub new_webhook_strategy-none :
    (cfg : WebhookConfig) (has_resolver : Bool)
    → (new_webhook_strategy cfg has_resolver ≡ none)
      ↔ ((starts_with_slash cfg.path ≡ true) × (32 ≤ length cfg.secret) × (has_resolver ≡ true))
unfolding new_webhook_strategy
new_webhook_strategy-none cfg has_resolver = ground arith
