-- ===== src/Config/Validate/Sync.antt =====
-- internal/config/loader.go: what `Validate` accepts for the synchronization of the content.
use blogflow.Base.{
  ℕ, ◌+◌, ◌*◌, ◌≤◌, ◌≡◌, ◌≢◌, ◌↔◌, inl, inr, Bool, true, false, ◌&&◌, List, [], ◌∷◌, ◌==◌, list_eq,
  nat_eq, list_beq_iff, Option, none, some, arith, Bool-cases, Option-cases, All,
}
use blogflow.Base.Int.{ℤ}
use blogflow.Base.Text.{Text, codes, is_empty, has_prefix, byte_len, trim_space}
use blogflow.Webhook.Handler.{WebhookConfig}
use blogflow.Config.{SyncConfig, second}
use blogflow.Config.Rules.{
  webhook_allowed_ips, ConfigField, report, valid_strategies, valid_events, validate_poll_interval,
}
use blogflow.Config.Validate.{
  validate_events, validate_addresses, validate_cidr_or_ip, validate_webhook, validate_sync,
}
use blogflow.Config.Validate.Server.{
  InRange, AtLeast, report-Passes, append_nil_iff, outside_iff, below_iff,
}
use blogflow.Config.Validate.Sections.{OneOf, is_one_of_iff, empty_iff}

validate_events-OneOf : (l : List Text) → (validate_events l ≡ []) ↔ All (OneOf valid_events) l
unfolding validate_events report
validate_events-OneOf [] = ground arith
validate_events-OneOf (ev ∷ l) =
    ground (arith, is_one_of_iff valid_events ev, validate_events-OneOf l)

module _ (parse_ip : Text → Option Text) (parse_cidr : Text → Option (Text → Bool)) where
  -- An address or a network, between spaces.
  pub data IsAddress (s : Text) : Type 0 where
    network :
        (n : Text → Bool) → trim_space s ≢ [] → parse_cidr (trim_space s) ≡ some n → IsAddress s
    address : (ip : Text) → trim_space s ≢ [] → parse_ip (trim_space s) ≡ some ip → IsAddress s

  validate_cidr_or_ip-IsAddress :
      (s : Text) → (validate_cidr_or_ip parse_ip parse_cidr s ≡ none) ↔ IsAddress s
  unfolding validate_cidr_or_ip
  validate_cidr_or_ip-IsAddress s = (sound, complete)
    where
      sound : validate_cidr_or_ip parse_ip parse_cidr s ≡ none → IsAddress s
      sound h = elim (Bool-cases (is_empty (trim_space s))) [
        | inl bare ↦ absurd (ground arith)
        | inr filled ↦ elim (Option-cases (parse_cidr (trim_space s))) [
          | inr (n, e) ↦ network n ((empty_iff (trim_space s)).0 filled) e
          | inl e ↦ elim (Option-cases (parse_ip (trim_space s))) [
            | inr (ip, e2) ↦ address ip ((empty_iff (trim_space s)).0 filled) e2
            | inl e2 ↦ absurd (ground arith)
          ]
        ]
      ]

      complete : IsAddress s → validate_cidr_or_ip parse_ip parse_cidr s ≡ none
      complete (network n filled e) = ground (arith, empty_iff (trim_space s))
      complete (address ip filled e) = ground (arith, empty_iff (trim_space s))

  addresses_cons :
      (f : ℕ → ConfigField) (i : ℕ) (s : Text) (l : List Text)
      → (validate_addresses parse_ip parse_cidr f i (s ∷ l) ≡ [])
        ↔ (validate_cidr_or_ip parse_ip parse_cidr s ≡ none)
          × (validate_addresses parse_ip parse_cidr f (i + 1) l ≡ [])
  unfolding validate_addresses
  addresses_cons f i s l = ground arith

  pub validate_addresses-IsAddress :
      (f : ℕ → ConfigField) (i : ℕ) (l : List Text)
      → (validate_addresses parse_ip parse_cidr f i l ≡ []) ↔ All IsAddress l
  unfolding validate_addresses
  validate_addresses-IsAddress f i [] = ground arith
  validate_addresses-IsAddress f i (s ∷ l) = (
    λ h.
        let (first, rest) = (addresses_cons f i s l).0 h in
        (
          (validate_cidr_or_ip-IsAddress s).0 first,
          (validate_addresses-IsAddress f (i + 1) l).0 rest,
        ),
    λ (a, all).
        (addresses_cons f i s l).1
          ((validate_cidr_or_ip-IsAddress s).1 a, (validate_addresses-IsAddress f (i + 1) l).1 all),
  )

  pub record WebhookIsValid (w : WebhookConfig) : Type 0 where
    pub long_secret : 32 ≤ byte_len w.secret
    pub some_event : w.allowed_events ≢ []
    pub events : All (OneOf valid_events) w.allowed_events
    pub rooted : has_prefix w.path (codes "/") ≡ true
    pub rate : InRange 1 100 w.rate_limit
    pub body : InRange 0 10_485_760 w.max_body_size
    pub addresses : All IsAddress w.allowed_ips

  validate_webhook-WebhookIsValid :
      (w : WebhookConfig) → (validate_webhook parse_ip parse_cidr w ≡ []) ↔ WebhookIsValid w
  unfolding validate_webhook report
  validate_webhook-WebhookIsValid w = ground (
    arith,
    empty_iff w.allowed_events,
    validate_events-OneOf w.allowed_events,
    outside_iff 1 100 w.rate_limit,
    outside_iff 0 10_485_760 w.max_body_size,
    validate_addresses-IsAddress webhook_allowed_ips 0 w.allowed_ips,
  )

  module _ (parse_duration : Text → Option ℤ) where
    -- No interval, or one of 30 seconds at least.
    pub data PollInterval (s : SyncConfig) : Type 0 where
      disabled : s.poll_interval ≡ [] → s.strategy ≢ codes "poll" → PollInterval s
      every :
          (d : ℤ)
          → s.poll_interval ≢ []
          → parse_duration s.poll_interval ≡ some d
          → AtLeast (30 * second) d
          → PollInterval s

    pub record SyncIsValid (s : SyncConfig) : Type 0 where
      pub kind : OneOf valid_strategies s.strategy
      pub polling : PollInterval s
      pub depth : AtLeast 1 s.clone_depth
      pub hook : s.strategy ≡ codes "webhook" → WebhookIsValid s.webhook

    poll_rules :
        (s : SyncConfig)
        → ((validate_poll_interval parse_duration s.poll_interval ≡ [])
            × ((s.strategy == codes "poll" && is_empty s.poll_interval) ≡ false))
          ↔ PollInterval s
    unfolding validate_poll_interval report
    poll_rules s = (sound, complete)
      where
        sound :
            ((validate_poll_interval parse_duration s.poll_interval ≡ [])
              × ((s.strategy == codes "poll" && is_empty s.poll_interval) ≡ false))
            → PollInterval s
        sound (h, k) = elim (Bool-cases (is_empty s.poll_interval)) [
          | inl e ↦
              disabled (ground (arith, empty_iff s.poll_interval))
                (ground (arith, list_beq_iff s.strategy (codes "poll")))
          | inr filled ↦ elim (Option-cases (parse_duration s.poll_interval)) [
            | inl e ↦ absurd (ground arith)
            | inr (d, e) ↦
                every d ((empty_iff s.poll_interval).0 filled) e
                  ((below_iff (30 * second) d).0 (ground arith))
          ]
        ]

        complete :
            PollInterval s
            → ((validate_poll_interval parse_duration s.poll_interval ≡ [])
                × ((s.strategy == codes "poll" && is_empty s.poll_interval) ≡ false))
        complete (disabled e other) =
            ground (arith, empty_iff s.poll_interval, list_beq_iff s.strategy (codes "poll"))
        complete (every d filled e long) =
            ground (arith, empty_iff s.poll_interval, below_iff (30 * second) d)

    pub validate_sync-SyncIsValid :
        (s : SyncConfig) → (validate_sync parse_ip parse_cidr parse_duration s ≡ []) ↔ SyncIsValid s
    unfolding validate_sync
    validate_sync-SyncIsValid s = (sound, complete)
      where
        sound : validate_sync parse_ip parse_cidr parse_duration s ≡ [] → SyncIsValid s
        sound h =
            let (front, hook) = (append_nil_iff _ _).0 h in
            let (head, rows) = (append_nil_iff _ _).0 front in
            let (kind, interval) = (append_nil_iff _ _).0 head in
            let (known, _) = (report-Passes _).0 kind in
            let (polled, (depth, _)) = (report-Passes _).0 rows in
            record {
              kind = ground (arith, is_one_of_iff valid_strategies s.strategy);
              polling = (poll_rules s).0 (interval, polled);
              depth = (below_iff 1 s.clone_depth).0 depth;
              hook = ground (
                arith,
                list_beq_iff s.strategy (codes "webhook"),
                validate_webhook-WebhookIsValid s.webhook,
              );
            }

        complete : SyncIsValid s → validate_sync parse_ip parse_cidr parse_duration s ≡ []
        complete v =
            let (interval, polled) = (poll_rules s).1 v.polling in
            (append_nil_iff _ _).1 (
              (append_nil_iff _ _).1 (
                (append_nil_iff _ _).1 (
                  (report-Passes _).1
                      (ground (arith, is_one_of_iff valid_strategies s.strategy, v.kind), tt),
                  interval,
                ),
                (report-Passes _).1 (polled, ((below_iff 1 s.clone_depth).1 v.depth, tt)),
              ),
              ground (
                arith,
                list_beq_iff s.strategy (codes "webhook"),
                v.hook,
                validate_webhook-WebhookIsValid s.webhook,
              ),
            )
