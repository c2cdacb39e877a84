-- ===== src/Webhook/Handler/Budgets.antt =====
-- The two budgets of the webhook's handler (internal/gitops/webhook.go).
use blogflow.Base.{
  eq_of_beq, ℕ, ◌≡◌, refl, ◌∙◌, subst, Bool, List, [], ◌∷◌, length, list_eq, nat_eq, ◌==◌, Option,
  none, ◌⊎◌, inl, inr, Bool-cases, Option-cases, All,
}
use blogflow.Base.Text.{Text, codes}
use blogflow.Webhook.Handler.{
  WebhookConfig, Request, Response, State, Outcome, charge, reject, authenticate, filter_event,
  filter_branch, deliver, handle,
}
use blogflow.Webhook.Handler.Authentic.{IsAuthentic, authenticate-IsAuthentic}

module _ (parse_ip : Text → Option Text) (parse_cidr : Text → Option (Text → Bool)) {S : Type 0}
    (client_ip : Request → Text) (hmac : Text → Text → Text) (json_ref : Text → Option Text)
    (reload : S → Bool × S) (cfg : WebhookConfig) where
  -- A list of requests, each with the clock's reading.
  abbrev pub handle_all : List (Request × ℕ) → State S → State S
  handle_all [] st = st
  handle_all ((r, now) ∷ rs) st =
      handle_all rs (handle parse_ip parse_cidr client_ip hmac json_ref reload cfg r now st).1

  -- The states agree on all that a delivery may use.
  abbrev pub SameBudget : State S → State S → Type 0
  SameBudget st st' = (st.verified ≡ st'.verified) × (st.site ≡ st'.site)

  keeps_budget-reject :
      (ip : Text) (now : ℕ) (o : Outcome) (status : ℕ) (message : Text) (st : State S)
      → SameBudget (reject ip now o status message st).1 st
  unfolding reject
  keeps_budget-reject ip now o status message st = elim (Bool-cases (charge ip now st.failures).0) [
    | inl e ↦ rw e (refl, refl)
    | inr e ↦ rw e (refl, refl)
  ]

  forged-handle :
      (r : Request) (now : ℕ) (st : State S)
      → ¬ (authenticate parse_ip parse_cidr client_ip hmac json_ref reload cfg r ≡ none)
      → SameBudget (handle parse_ip parse_cidr client_ip hmac json_ref reload cfg r now st).1 st
  unfolding handle
  forged-handle r now st forged = elim (Bool-cases (r.method == codes "POST")) [
    | inr other ↦ rw (other, handle) (refl, refl)
    | inl post ↦
        elim (Option-cases
          (authenticate parse_ip parse_cidr client_ip hmac json_ref reload cfg r)) [
            | inl e ↦ absurd (forged e)
            | inr (x, e) ↦
                rw (post, e, handle) (keeps_budget-reject (client_ip r) now x.0 x.1 x.2 st)
          ]
  ]

  deliver-same :
      (ip : Text) (now : ℕ) (st st' : State S)
      → SameBudget st st'
      → ((deliver parse_ip parse_cidr client_ip hmac json_ref reload ip now st).0
          ≡ (deliver parse_ip parse_cidr client_ip hmac json_ref reload ip now st').0)
        × SameBudget
            (deliver parse_ip parse_cidr client_ip hmac json_ref reload ip now st).1
            (deliver parse_ip parse_cidr client_ip hmac json_ref reload ip now st').1
  unfolding deliver
  deliver-same ip now st st' (same_verified, same_site) =
      subst (λ s. Same (record st' { site = s })) same_site
        (subst (λ v. Same (record st' { verified = v; site = st.site })) same_verified here)
    where
      run : State S → Response × State S
      run = deliver parse_ip parse_cidr client_ip hmac json_ref reload ip now

      Same : State S → Type 0
      Same x = ((run st).0 ≡ (run x).0) × SameBudget (run st).1 (run x).1

      here : Same (record st' { verified = st.verified; site = st.site })
      here = elim (Bool-cases (charge ip now st.verified).0) [
        | inl e ↦ rw e (refl, (refl, refl))
        | inr e ↦ rw e (refl, (refl, refl))
      ]

  -- What a request that passed the checks comes to depends on the verified budget alone.
  genuine-handle :
      (r : Request) (now : ℕ) (st st' : State S)
      → authenticate parse_ip parse_cidr client_ip hmac json_ref reload cfg r ≡ none
      → SameBudget st st'
      → ((handle parse_ip parse_cidr client_ip hmac json_ref reload cfg r now st).0
          ≡ (handle parse_ip parse_cidr client_ip hmac json_ref reload cfg r now st').0)
        × SameBudget
            (handle parse_ip parse_cidr client_ip hmac json_ref reload cfg r now st).1
            (handle parse_ip parse_cidr client_ip hmac json_ref reload cfg r now st').1
  unfolding handle
  genuine-handle r now st st' genuine same = elim (Bool-cases (r.method == codes "POST")) [
    | inr other ↦ rw (other, handle) (refl, same)
    | inl post ↦
        elim (Option-cases
          (filter_event parse_ip parse_cidr client_ip hmac json_ref reload cfg r)) [
            | inr (x, e) ↦ rw (post, genuine, e, handle) (refl, same)
            | inl e ↦
                elim (Option-cases
                  (filter_branch parse_ip parse_cidr client_ip hmac json_ref reload cfg r)) [
                    | inr (x, b) ↦ rw (post, genuine, e, b, handle) (refl, same)
                    | inl b ↦
                        rw (post, genuine, e, b, handle)
                          (deliver-same (client_ip r) now st st' same)
                  ]
          ]
  ]

  handle_all-same :
      (junk : List (Request × ℕ)) (st : State S)
      → All (λ j. ¬ IsAuthentic parse_ip parse_cidr client_ip hmac cfg j.0) junk
      → ((r : Request) → length (hmac cfg.secret r.body) ≡ 32)
      → SameBudget (handle_all junk st) st
  handle_all-same [] st h size = (refl, refl)
  handle_all-same ((r, now) ∷ junk) st (forged, h) size =
      let (v, s) =
        handle_all-same junk
          (handle parse_ip parse_cidr client_ip hmac json_ref reload cfg r now st).1 h size in
      let (v', s') = forged-handle r now st (λ e. forged (
        (authenticate-IsAuthentic parse_ip parse_cidr client_ip hmac cfg json_ref reload r
            (size r)).0
          e)) in
      (v ∙ v', s ∙ s')

  -- However many requests that are not authentic come before it, from any address, an authentic
  -- request gets the response that it would have got without them, and the same reload, for digests
  -- of 32 bytes.
  pub handle-not_starved :
      (r : Request) (now : ℕ) (junk : List (Request × ℕ)) (st : State S)
      → ((s : Request) → length (hmac cfg.secret s.body) ≡ 32)
      → All (λ j. ¬ IsAuthentic parse_ip parse_cidr client_ip hmac cfg j.0) junk
      → IsAuthentic parse_ip parse_cidr client_ip hmac cfg r
      → ((handle parse_ip parse_cidr client_ip hmac json_ref reload cfg r now
            (handle_all junk st)).0
          ≡ (handle parse_ip parse_cidr client_ip hmac json_ref reload cfg r now st).0)
        × SameBudget
            (handle parse_ip parse_cidr client_ip hmac json_ref reload cfg r now
              (handle_all junk st)).1
            (handle parse_ip parse_cidr client_ip hmac json_ref reload cfg r now st).1
  handle-not_starved r now junk st size forged genuine =
      genuine-handle r now (handle_all junk st) st
        ((authenticate-IsAuthentic parse_ip parse_cidr client_ip hmac cfg json_ref reload r
            (size r)).1
          genuine)
        (handle_all-same junk st forged size)

  -- A request after which the site or the verified budget differs is an authentic POST whose event
  -- and branch the filters let through; for digests of 32 bytes.
  pub handle-forged :
      (r : Request) (now : ℕ) (st : State S)
      → length (hmac cfg.secret r.body) ≡ 32
      → SameBudget (handle parse_ip parse_cidr client_ip hmac json_ref reload cfg r now st).1 st
        ⊎ ((r.method ≡ codes "POST")
            × IsAuthentic parse_ip parse_cidr client_ip hmac cfg r
            × (filter_event parse_ip parse_cidr client_ip hmac json_ref reload cfg r ≡ none)
            × (filter_branch parse_ip parse_cidr client_ip hmac json_ref reload cfg r ≡ none)
            × (handle parse_ip parse_cidr client_ip hmac json_ref reload cfg r now st
                ≡ deliver parse_ip parse_cidr client_ip hmac json_ref reload (client_ip r) now st))
  unfolding handle
  handle-forged r now st size = elim (Bool-cases (r.method == codes "POST")) [
    | inr other ↦ inl (rw (other, handle) (refl, refl))
    | inl post ↦
        elim (Option-cases
          (authenticate parse_ip parse_cidr client_ip hmac json_ref reload cfg r)) [
            | inr (x, e) ↦
                inl (rw (post, e, handle) (keeps_budget-reject (client_ip r) now x.0 x.1 x.2 st))
            | inl genuine ↦
                elim (Option-cases
                  (filter_event parse_ip parse_cidr client_ip hmac json_ref reload cfg r)) [
                    | inr (x, e) ↦ inl (rw (post, genuine, e, handle) (refl, refl))
                    | inl event ↦
                        elim (Option-cases (
                          filter_branch parse_ip parse_cidr client_ip hmac json_ref reload cfg r)) [
                            | inr (x, b) ↦ inl (rw (post, genuine, event, b, handle) (refl, refl))
                            | inl branch ↦ inr (
                              eq_of_beq r.method (codes "POST") post,
                              (authenticate-IsAuthentic parse_ip parse_cidr client_ip hmac cfg
                                    json_ref reload r size).0
                                  genuine,
                              event,
                              branch,
                              rw (post, genuine, event, branch, handle) refl,
                            )
                          ]
                  ]
          ]
  ]
