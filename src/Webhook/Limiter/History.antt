-- ===== src/Webhook/Limiter/History.antt =====
-- Whole histories of the limiter: a list of calls, each with the client and the clock's reading.
use blogflow.Base.{
  ltb→lt, eq_of_beq, ℕ, zero, suc, ◌+◌, ◌≤◌, ◌<◌, ◌≡◌, refl, ◌∙◌, ap, subst, Bool, List, [], ◌∷◌,
  map, ltb, ◌==◌, some, arith, length, All, list_eq, nat_eq, Bool-cases, inl, inr,
}
use blogflow.Base.Assoc.{lookup}
use blogflow.Base.Text.{Text}
use blogflow.Base.Int.{pos}
use blogflow.Webhook.Limiter.{minute, Limiter, allow, new_rate_limiter, default_max_clients}
use blogflow.Webhook.Limiter.Window.{IsSorted}
use blogflow.Webhook.Limiter.Log.{accepted_within, reference_allow, Refines}
use blogflow.Webhook.Limiter.Step.{allow-Agree}

unfoldable pub allow_all : List (Text × ℕ) → Limiter → List Bool × Limiter
allow_all [] rl = ([], rl)
allow_all ((ip, t) ∷ calls) rl =
    let (answer, rl') = allow ip t rl in
    let (answers, end) = allow_all calls rl' in (answer ∷ answers, end)

abbrev pub reference_all : ℕ → ℕ → List (Text × ℕ) → List (Text × ℕ) → List Bool × List (Text × ℕ)
reference_all limit window [] log = ([], log)
reference_all limit window ((ip, t) ∷ calls) log =
    let (answer, log') = reference_allow limit window ip t log in
    let (answers, end) = reference_all limit window calls log' in (answer ∷ answers, end)

abbrev pub times : List (Text × ℕ) → List ℕ
times calls = map (λ c. c.1) calls

allow_all-answers :
    (calls : List (Text × ℕ)) (now : ℕ) (rl : Limiter) (log : List (Text × ℕ))
    → Refines now rl log
    → IsSorted (now ∷ times calls)
    → 1 ≤ rl.limit
    → length rl.lru + length calls ≤ rl.max_size
    → (allow_all calls rl).0 ≡ (reference_all rl.limit rl.window calls log).0
unfolding allow_all
allow_all-answers [] now rl log h sorted positive roomy = refl
allow_all-answers ((ip, t) ∷ calls) now rl log h ((le, _), sorted) positive roomy =
    let a = allow-Agree rl log now t le h ip positive (omega (arith, roomy)) in
    let rest =
      allow_all-answers calls t (allow ip t rl).1 (reference_allow rl.limit rl.window ip t log).1
        a.refines sorted (omega (arith, a.same_limit, positive))
        (omega (arith, a.grows, a.same_size, roomy)) in
    cc (
      a.answers,
      rest
          ∙ ap
              (λ l.
                (reference_all l (allow ip t rl).1.window calls
                  (reference_allow rl.limit rl.window ip t log).1).0)
              a.same_limit
          ∙ ap
              (λ w.
                (reference_all rl.limit w calls (reference_allow rl.limit rl.window ip t log).1).0)
              a.same_window,
    )

-- As time goes on, a log without new deliveries counts for less.
accepted_within_shrinks :
    (w t later : ℕ) (q : Text) (log : List (Text × ℕ))
    → t ≤ later
    → accepted_within w later q log ≤ accepted_within w t q log
accepted_within_shrinks w t later q [] le = omega arith
accepted_within_shrinks w t later q ((p, u) ∷ log) le =
    ground (arith, accepted_within_shrinks w t later q log le)

-- The log stays within the limit for every client, from `now` on.
record Within (limit w now : ℕ) (log : List (Text × ℕ)) : Type 0 where
  bound : (q : Text) (later : ℕ) → now ≤ later → accepted_within w later q log ≤ limit

reference_allow-Within :
    (limit w now t : ℕ) (ip : Text) (log : List (Text × ℕ))
    → now ≤ t
    → Within limit w now log
    → Within limit w t (reference_allow limit w ip t log).1
reference_allow-Within limit w now t ip log le h = record {
  bound = λ q later after. elim (Bool-cases (ltb (accepted_within w t ip log) limit)) [
    | inr over ↦ rw over (h.bound q later (omega (arith, le, after)))
    | inl under ↦ rw under (elim (Bool-cases (ip == q)) [
      | inl same ↦
          let at : ip ≡ q = eq_of_beq ip q same in
          let fewer : accepted_within w t q log < limit =
            subst (λ k. accepted_within w t k log < limit) at (ltb→lt _ _ under) in
          ground (arith, fewer, accepted_within_shrinks w t later q log after)
      | inr differ ↦ ground (arith, differ, h.bound q later (omega (arith, le, after)))
    ])
  ];
}

reference_all-Within :
    (limit w now : ℕ) (calls log : List (Text × ℕ))
    → IsSorted (now ∷ times calls)
    → Within limit w now log
    → (later : ℕ) → All (λ t. t ≤ later) (now ∷ times calls)
    → Within limit w later (reference_all limit w calls log).1
reference_all-Within limit w now [] log sorted h later (le, _) = record {
  bound = λ q m after. h.bound q m (omega (arith, le, after));
}
reference_all-Within limit w now ((ip, t) ∷ calls) log ((le, _), sorted) h later (_, past) =
    reference_all-Within limit w t calls (reference_allow limit w ip t log).1 sorted
      (reference_allow-Within limit w now t ip log le h) later past

new_rate_limiter-some :
    (limit : ℕ) (rl : Limiter)
    → new_rate_limiter (pos limit) ≡ some rl
    → (1 ≤ limit)
      × (record { limit = limit; window = minute; max_size = default_max_clients; lru = [] } ≡ rl)
unfolding new_rate_limiter
new_rate_limiter-some zero rl e = absurd (cc)
new_rate_limiter-some (suc n) rl e = (omega arith, ground arith)

All-zero : (ts : List ℕ) → All (λ u. 0 ≤ u) ts
All-zero [] = tt
All-zero (t ∷ ts) = (omega arith, All-zero ts)

-- A fresh limiter, called no more often than it can hold clients, at times that do not run backwards,
-- answers as the reference does, which allows a delivery exactly if fewer than the limit were allowed
-- to the client within the window; so at any later time no client has had more than the limit within
-- the window.
pub allow_all-reference :
    (limit : ℕ) (rl : Limiter) (calls : List (Text × ℕ))
    → new_rate_limiter (pos limit) ≡ some rl
    → IsSorted (times calls)
    → length calls ≤ default_max_clients
    → (q : Text) (later : ℕ) → All (λ t. t ≤ later) (times calls)
    → ((allow_all calls rl).0 ≡ (reference_all limit rl.window calls []).0)
      × (accepted_within rl.window later q (reference_all limit rl.window calls []).1 ≤ limit)
allow_all-reference limit rl calls made sorted few q later past =
    let (positive, same) = new_rate_limiter-some limit rl made in
    subst
      (λ r.
        ((allow_all calls r).0 ≡ (reference_all limit r.window calls []).0)
        × (accepted_within r.window later q (reference_all limit r.window calls []).1 ≤ limit))
      same
      (
        allow_all-answers calls 0 _ []
            (record { distinct = tt; each = tt; agrees = λ _ _ _. unfold lookup in refl })
            (All-zero (times calls), sorted) positive (omega (arith, few)),
        (reference_all-Within limit minute 0 calls [] (All-zero (times calls), sorted)
              (record { bound = λ _ _ _. omega arith }) later (omega arith, past)).bound
            q later (omega arith),
      )
