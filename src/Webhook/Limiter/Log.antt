-- ===== src/Webhook/Limiter/Log.antt =====
-- The limiter against a reference that remembers every delivery that it allowed.
use blogflow.Base.{
  ℕ, suc, ◌≤◌, ◌≡◌, refl, ◌∙◌, sym, ap, subst, Bool, true, false, ◌&&◌, List, [], ◌∷◌, ltb,
  if◌then◌else◌, ◌==◌, none, some, length, filter, All, All-append_right, list_eq, nat_eq,
  Option-cases, inl, inr,
}
use blogflow.Base.Text.{Text}
use blogflow.Base.Assoc.{lookup, Distinct, lookup-append, All-lookup}
use blogflow.Webhook.Limiter.{Limiter, is_recent, is_live, evict_expired}
use blogflow.Webhook.Limiter.Window.{IsSorted, dead-none, evict_expired-tail}

-- How many deliveries of a client were allowed within the window.
abbrev pub accepted_within : ℕ → ℕ → Text → List (Text × ℕ) → ℕ
accepted_within window now ip [] = 0
accepted_within window now ip ((q, t) ∷ log) =
    let rest = accepted_within window now ip log in
    if q == ip && is_recent window now t then suc rest else rest

-- The reference: a delivery is allowed if fewer than the limit were, within the window.
abbrev pub reference_allow : ℕ → ℕ → Text → ℕ → List (Text × ℕ) → Bool × List (Text × ℕ)
reference_allow limit window ip now log =
    if ltb (accepted_within window now ip log) limit then (true, (ip, now) ∷ log) else (false, log)

abbrev pub stamps : Text → List (Text × List ℕ) → List ℕ
stamps ip l = elim (lookup ip l) [ none ↦ [] | some ts ↦ ts ]

abbrev pub Past : ℕ → List ℕ → Type 0
Past now ts = IsSorted ts × All (λ t. t ≤ now) ts

-- The limiter's timestamps agree with the log, now and later.
pub record Refines (now : ℕ) (rl : Limiter) (log : List (Text × ℕ)) : Type 0 where
  pub distinct : Distinct rl.lru
  pub each : All (λ e. Past now e.1) rl.lru
  pub agrees :
      (ip : Text) (later : ℕ)
      → now ≤ later
      → length (filter (is_recent rl.window later) (stamps ip rl.lru))
        ≡ accepted_within rl.window later ip log

-- An eviction of dead entries changes no count.
pub evict_expired-stamps :
    (w now later : ℕ) (q : Text) (l : List (Text × List ℕ))
    → now ≤ later
    → All (λ e. IsSorted e.1) l
    → filter (is_recent w later) (stamps q (evict_expired w now l))
      ≡ filter (is_recent w later) (stamps q l)
evict_expired-stamps w now later q l le sorted =
    let (dropped, e, dead) = evict_expired-tail w now l in
    let here : All (λ x. IsSorted x.1) dropped =
      All-append_right (λ x. IsSorted x.1) (evict_expired w now l) dropped
        (subst (All (λ x. IsSorted x.1)) (sym e) sorted) in
    let split = ap (lookup q) (sym e) ∙ lookup-append q (evict_expired w now l) dropped in
    elim (Option-cases (lookup q (evict_expired w now l))) [
      | inr (ts, kept) ↦
          let whole : lookup q l ≡ some ts = split ∙ rw kept refl in rw (kept, whole, stamps) refl
      | inl gone ↦ elim (Option-cases (lookup q dropped)) [
        | inl absent ↦
            let whole : lookup q l ≡ none = split ∙ rw (gone, absent) refl in
            rw (gone, whole, stamps) refl
        | inr (ts, was) ↦
            let whole : lookup q l ≡ some ts = split ∙ rw (gone, was) refl in
            rw (gone, whole, stamps)
              (sym (
                dead-none w now later ts le (All-lookup IsSorted q ts dropped here was)
                  (All-lookup (λ x. is_live w now x ≡ false) q ts dropped dead was)))
      ]
    ]
