-- ===== src/Webhook/Limiter/Step.antt =====
-- One call of the limiter and of the reference: from states that agree to states that agree.
use blogflow.Base.{
  ℕ, suc, ◌+◌, ◌≤◌, ◌≡◌, refl, ◌∙◌, sym, ap, subst, Bool, true, false, List, [], ◌∷◌, ◌++◌, ltb,
  leb, if◌then◌else◌, ◌==◌, none, some, arith, length, filter, filter-append, filter-filter,
  filter-All, All, All-map, All-append, All-append_left, list_eq, list_beq_iff, nat_eq, Bool-cases,
  Option-cases, inl, inr, length-append,
}
use blogflow.Base.Text.{Text}
use blogflow.Base.Assoc.{
  lookup, erase, Distinct, Distinct-append_left, erase-Distinct, lookup-erase, All-lookup,
  All-erase, length-erase-lt,
}
use blogflow.Webhook.Limiter.{Limiter, is_recent, evict_expired, allow}
use blogflow.Webhook.Limiter.Window.{
  filter-IsSorted, append-IsSorted, evict_expired-tail, make_space-roomy,
}
use blogflow.Webhook.Limiter.Log.{
  accepted_within, reference_allow, stamps, Past, Refines, evict_expired-stamps,
}

-- What a step makes of the limiter, from what it keeps of the others and the new timestamps.
abbrev put : Text → List ℕ → List (Text × List ℕ) → Limiter → Limiter
put ip ts rest rl = record rl { lru = (ip, ts) ∷ rest }

module _ (rl : Limiter) (log : List (Text × ℕ)) (now t : ℕ) (le : now ≤ t) (h : Refines now rl log)
    (ip : Text) where
  abbrev live : List (Text × List ℕ)
  live = evict_expired rl.window t rl.lru

  each_later : All (λ e. Past t e.1) rl.lru
  each_later =
      All-map (λ e (sorted, past). (sorted, All-map (λ u p. omega (arith, p, le)) e.1 past)) rl.lru
        h.each

  live-Past : All (λ e. Past t e.1) live
  live-Past =
      let (dropped, e, _) = evict_expired-tail rl.window t rl.lru in
      All-append_left (λ x. Past t x.1) live dropped
        (subst (All (λ x. Past t x.1)) (sym e) each_later)

  live-Distinct : Distinct live
  live-Distinct =
      let (dropped, e, _) = evict_expired-tail rl.window t rl.lru in
      Distinct-append_left live dropped (subst Distinct (sym e) h.distinct)

  live_agrees :
      (q : Text) (later : ℕ)
      → t ≤ later
      → length (filter (is_recent rl.window later) (stamps q live))
        ≡ accepted_within rl.window later q log
  live_agrees q later after =
      ap length
        (evict_expired-stamps rl.window t later q rl.lru after (All-map (λ e p. p.0) rl.lru h.each))
      ∙ h.agrees q later (omega (arith, le, after))

  stamps_head :
      (ts : List ℕ) (rest : List (Text × List ℕ)) (q : Text)
      → stamps q ((ip, ts) ∷ rest) ≡ (if ip == q then ts else stamps q rest)
  unfolding lookup
  stamps_head ts rest q = ground arith

  -- The state after the entry of `ip` was written with `ts` in front of `rest`.
  put-Refines :
      (ts : List ℕ) (rest : List (Text × List ℕ)) (log' : List (Text × ℕ))
      → Past t ts
      → All (λ e. Past t e.1) rest
      → Distinct ((ip, ts) ∷ rest)
      → ((q : Text) (later : ℕ)
          → t ≤ later
          → length (filter (is_recent rl.window later) (if ip == q then ts else stamps q rest))
            ≡ accepted_within rl.window later q log')
      → Refines t (put ip ts rest rl) log'
  put-Refines ts rest log' past others distinct agrees = record {
    distinct = distinct;
    each = (past, others);
    agrees = λ q later after.
        ap (λ us. length (filter (is_recent rl.window later) us)) (stamps_head ts rest q)
        ∙ agrees q later after;
  }

  rest_stamps : (q : Text) → (ip == q) ≡ false → stamps q (erase ip live) ≡ stamps q live
  rest_stamps q differ = ground (arith, lookup-erase ip q live)

  -- A client that is known: what its recent timestamps are.
  module _ (ts : List ℕ) (known : lookup ip live ≡ some ts) where
    ts-Past : Past t ts
    ts-Past = All-lookup (Past t) ip ts live live-Past known

    abbrev valid : List ℕ
    valid = filter (is_recent rl.window t) ts

    valid-Past : Past t valid
    valid-Past =
        let (sorted, past) = ts-Past in
        (
          filter-IsSorted rl.window t ts sorted,
          filter-All (λ u. u ≤ t) (is_recent rl.window t) ts past,
        )

    valid_later :
        (later : ℕ)
        → t ≤ later
        → filter (is_recent rl.window later) valid ≡ filter (is_recent rl.window later) ts
    valid_later later after =
        filter-filter (is_recent rl.window t) (is_recent rl.window later) ts (λ u r. ground arith)

    ts_agrees :
        (later : ℕ)
        → t ≤ later
        → length (filter (is_recent rl.window later) ts) ≡ accepted_within rl.window later ip log
    ts_agrees later after =
        sym (ap (λ us. length (filter (is_recent rl.window later) us)) (rw (known, stamps) refl))
        ∙ live_agrees ip later after

    valid_agrees :
        (q : Text) (later : ℕ)
        → t ≤ later
        → (ip == q) ≡ true
        → length (filter (is_recent rl.window later) valid) ≡ accepted_within rl.window later q log
    valid_agrees q later after same =
        ap length (valid_later later after)
        ∙ ts_agrees later after
        ∙ ap (λ k. accepted_within rl.window later k log) ((list_beq_iff ip q).0 same)

    rest-Distinct : (us : List ℕ) → Distinct ((ip, us) ∷ erase ip live)
    rest-Distinct us = (
      ground (arith, lookup-erase ip ip live, list_beq_iff ip ip),
      erase-Distinct ip live live-Distinct,
    )

    denied : Refines t (put ip valid (erase ip live) rl) log
    denied =
        put-Refines valid (erase ip live) log valid-Past
          (All-erase (λ e. Past t e.1) ip live live-Past) (rest-Distinct valid)
          λ q later after. elim (Bool-cases (ip == q)) [
            | inl same ↦ rw same (valid_agrees q later after same)
            | inr differ ↦ rw differ (
                ap (λ us. length (filter (is_recent rl.window later) us)) (rest_stamps q differ)
                ∙ live_agrees q later after)
          ]

    allowed : Refines t (put ip (valid ++ t ∷ []) (erase ip live) rl) ((ip, t) ∷ log)
    allowed =
        put-Refines (valid ++ t ∷ []) (erase ip live) ((ip, t) ∷ log)
          (let (sorted, past) = valid-Past in
            (
              append-IsSorted t valid sorted past,
              All-append (λ u. u ≤ t) valid (t ∷ []) past (omega arith, tt),
            ))
          (All-erase (λ e. Past t e.1) ip live live-Past) (rest-Distinct (valid ++ t ∷ []))
          λ q later after. elim (Bool-cases (ip == q)) [
            | inl same ↦ rw same (
                ap length (filter-append (is_recent rl.window later) valid (t ∷ []))
                ∙ length-append (filter (is_recent rl.window later) valid) _
                ∙ ground (arith, valid_agrees q later after same))
            | inr differ ↦ rw differ (
                ap (λ us. length (filter (is_recent rl.window later) us)) (rest_stamps q differ)
                ∙ live_agrees q later after)
          ]

  -- A client that is new.
  module _ (new : lookup ip live ≡ none) where
    new_agrees : (later : ℕ) → t ≤ later → accepted_within rl.window later ip log ≡ 0
    new_agrees later after =
        sym (live_agrees ip later after)
        ∙ ap (λ us. length (filter (is_recent rl.window later) us)) none_yet
      where
        none_yet : stamps ip live ≡ []
        none_yet = rw (new, stamps) refl

    admitted : Refines t (put ip (t ∷ []) live rl) ((ip, t) ∷ log)
    admitted =
        put-Refines (t ∷ []) live ((ip, t) ∷ log) ((tt, tt), (omega arith, tt)) live-Past
          (new, live-Distinct)
          λ q later after. elim (Bool-cases (ip == q)) [
            | inl same ↦
                let none_yet : accepted_within rl.window later q log ≡ 0 =
                  ap (λ k. accepted_within rl.window later k log) (sym ((list_beq_iff ip q).0 same))
                  ∙ new_agrees later after in
                rw same (ground (arith, none_yet))
            | inr differ ↦ rw differ (live_agrees q later after)
          ]

  length-live : length live ≤ length rl.lru
  length-live =
      let (dropped, e, _) = evict_expired-tail rl.window t rl.lru in
      omega (arith, sym (ap length e) ∙ length-append live dropped)

  -- One call of `allow` and of the reference.
  pub record Agree (now' : ℕ) (step : Bool × Limiter) (ref : Bool × List (Text × ℕ)) : Type 0 where
    pub answers : step.0 ≡ ref.0
    pub refines : Refines now' step.1 ref.1
    pub grows : length step.1.lru ≤ length rl.lru + 1
    pub same_limit : step.1.limit ≡ rl.limit
    pub same_window : step.1.window ≡ rl.window
    pub same_size : step.1.max_size ≡ rl.max_size

  allow_new :
      lookup ip live ≡ none
      → length rl.lru + 1 ≤ rl.max_size
      → allow ip t rl ≡ (true, put ip (t ∷ []) live rl)
  unfolding allow
  allow_new new roomy =
      let space =
        make_space-roomy (length live) rl.max_size live (omega (arith, length-live, roomy)) in
      rw (new, allow, space) refl

  allow_known :
      (ts : List ℕ) (known : lookup ip live ≡ some ts)
      → allow ip t rl ≡ (
          if leb rl.limit (length (valid ts known))
          then (false, put ip (valid ts known) (erase ip live) rl)
          else (true, put ip (valid ts known ++ t ∷ []) (erase ip live) rl))
  unfolding allow
  allow_known ts known = rw (known, allow) refl

  length-erase_known :
      (ts : List ℕ) → lookup ip live ≡ some ts → suc (length (erase ip live)) ≤ length rl.lru
  length-erase_known ts known = omega (arith, length-erase-lt ip ts live known, length-live)

  known-Agree :
      (ts : List ℕ) (known : lookup ip live ≡ some ts)
      → Agree t (allow ip t rl) (reference_allow rl.limit rl.window ip t log)
  known-Agree ts known =
      subst (λ a. Agree t a (reference_allow rl.limit rl.window ip t log))
        (sym (allow_known ts known))
        (elim (Bool-cases (leb rl.limit (length (valid ts known)))) [
          | inl full ↦
              let over : ltb (accepted_within rl.window t ip log) rl.limit ≡ false =
                ground (arith, count) in
              rw (full, over)
                (record {
                  answers = refl;
                  refines = denied ts known;
                  grows = omega (arith, length-erase_known ts known);
                  same_limit = refl;
                  same_window = refl;
                  same_size = refl;
                })
          | inr below ↦
              let under : ltb (accepted_within rl.window t ip log) rl.limit ≡ true =
                ground (arith, count) in
              rw (below, under)
                (record {
                  answers = refl;
                  refines = allowed ts known;
                  grows = omega (arith, length-erase_known ts known);
                  same_limit = refl;
                  same_window = refl;
                  same_size = refl;
                })
        ])
    where
      count : length (valid ts known) ≡ accepted_within rl.window t ip log
      count = ts_agrees ts known t (omega arith)

  pub allow-Agree :
      1 ≤ rl.limit
      → length rl.lru + 1 ≤ rl.max_size
      → Agree t (allow ip t rl) (reference_allow rl.limit rl.window ip t log)
  allow-Agree positive roomy = elim (Option-cases (lookup ip live)) [
    | inr (ts, known) ↦ known-Agree ts known
    | inl new ↦
        let few : accepted_within rl.window t ip log ≡ 0 = new_agrees new t (omega arith) in
        let under : ltb (accepted_within rl.window t ip log) rl.limit ≡ true =
          ground (arith, few) in
        subst (λ a. Agree t a (reference_allow rl.limit rl.window ip t log))
          (sym (allow_new new roomy))
          (rw under (record {
            answers = refl;
            refines = admitted new;
            grows = omega (arith, length-live);
            same_limit = refl;
            same_window = refl;
            same_size = refl;
          }))
  ]
