-- ===== src/Server/ClientIp.antt =====
-- The client's address behind trusted proxies (internal/server/clientip.go). Text is code points.
pub mod Spoof
use blogflow.Base.{
  ℕ, zero, suc, Bool, true, false, ◌&&◌, List, [], ◌∷◌, ◌++◌, any, length, ltb, if◌then◌else◌,
  list_eq, nat_eq, ◌==◌, Option, none, some,
}
use blogflow.Base.Text.{Text, codes, is_empty, split, trim_space}

-- `strings.Join` with a comma.
unfoldable pub join_commas : List Text → Text
join_commas [] = []
join_commas (s ∷ []) = s
join_commas (s ∷ t ∷ l) = s ++ b',' ∷ join_commas (t ∷ l)

-- `strings.Split(strings.Join(xffLines, ","), ",")`
unfoldable pub hops_of : List Text → List Text
unfolding join_commas split
hops_of lines = split (join_commas lines) b','

-- The list from its end to its beginning, before `onto`.
unfoldable pub reverse_onto {ℓ} : {A : Type ℓ} → List A → List A → List A
reverse_onto onto [] = onto
reverse_onto onto (x ∷ l) = reverse_onto (x ∷ onto) l

-- How the walk over the hops ends.
pub data Walk : Type 0 where
  client : Text → Walk
  ended : Text → Bool → Walk

-- `hop[1 : len(hop)-1]` of a hop in brackets.
unfoldable pub in_brackets : Text → Option Text
in_brackets [] = none
in_brackets (c ∷ s) = if c == b'[' && ltb 1 (length s) then without_last s else none
  where
    without_last : Text → Option Text
    without_last [] = none
    without_last (d ∷ []) = if d == b']' then some [] else none
    without_last (d ∷ e ∷ t) = elim (without_last (e ∷ t)) [ none ↦ none | some u ↦ some (d ∷ u) ]

-- `net.ParseIP` (the bytes of the address), `net.ParseCIDR` (the test of the range), the host of
-- `net.SplitHostPort`, and `netip.ParseAddr` and `netip.ParseAddrPort`, with the canonical text of the
-- address without its zone.
module _ (parse_ip : Text → Option Text) (parse_cidr : Text → Option (Text → Bool))
    (split_host_port parse_addr parse_addr_port : Text → Option Text) where
  -- `NewClientIPResolver`; `none` is its error. A bare address is a range that holds itself alone.
  unfoldable pub new_client_ip_resolver : List Text → Option (List (Text → Bool))
  unfolding trim_space
  new_client_ip_resolver [] = some []
  new_client_ip_resolver (cidr ∷ cidrs) =
      let rest = new_client_ip_resolver cidrs in
      elim (parse_cidr (trim_space cidr)) [
        | some net ↦ elim rest [ none ↦ none | some nets ↦ some (net ∷ nets) ]
        | none ↦ elim (parse_ip (trim_space cidr)) [
          | none ↦ none
          | some ip ↦ elim rest [ none ↦ none | some nets ↦ some ((λ target. ip == target) ∷ nets) ]
        ]
      ]

  unfoldable pub normalize_hop : Text → Option Text
  unfolding in_brackets
  normalize_hop hop = if is_empty hop then none else elim (parse_addr hop) [
    | some ip ↦ some ip
    | none ↦ elim (parse_addr_port hop) [
      | some ip ↦ some ip
      | none ↦ elim (in_brackets hop) [ none ↦ none | some inner ↦ parse_addr inner ]
    ]
  ]

  unfoldable pub extract_ip : Text → Text
  extract_ip addr = elim (split_host_port addr) [ none ↦ addr | some host ↦ host ]

  module _ (trusted : List (Text → Bool)) where
    unfoldable pub is_trusted : Text → Bool
    is_trusted ip = elim (parse_ip ip) [ none ↦ false | some parsed ↦ any (λ n. n parsed) trusted ]

    -- The loop over the hops, from the right; the hops are given in that order.
    unfoldable pub walk : Text → Bool → List Text → Walk
    walk leftmost saw_hop [] = ended leftmost saw_hop
    walk leftmost saw_hop (hop ∷ hops) =
        let raw = trim_space hop in
        let skipped = walk leftmost saw_hop hops in
        if is_empty raw then skipped else elim (normalize_hop raw) [
          | none ↦ ended leftmost true
          | some ip ↦ let onward = walk ip true hops in if is_trusted ip then onward else client ip
        ]

    -- What the walk falls back to: X-Real-IP, then the remote address.
    unfoldable pub real_ip : Text → Text → Text
    unfolding normalize_hop trim_space
    real_ip remote_ip x_real_ip = elim (normalize_hop (trim_space x_real_ip)) [
      | none ↦ remote_ip
      | some ip ↦ ip
    ]

    -- `ClientIP`: of the remote address, the X-Forwarded-For lines and the X-Real-IP header.
    unfoldable pub client_ip : Text → List Text → Text → Text
    client_ip remote_addr xff_lines x_real_ip =
        let remote_ip = extract_ip remote_addr in
        if is_trusted remote_ip
        then (if is_empty xff_lines
            then real_ip remote_ip x_real_ip
            else elim (walk [] false (reverse_onto [] (hops_of xff_lines))) [
              | client ip ↦ ip
              | ended leftmost saw_hop ↦
                  if is_empty leftmost
                  then (if saw_hop then remote_ip else real_ip remote_ip x_real_ip)
                  else leftmost
            ])
        else remote_ip
