-- ===== src/Server/ClientIp/Spoof.antt =====
-- A client cannot choose its address (internal/server/clientip.go).
use blogflow.Base.{
  ◌≡◌, refl, ◌∙◌, sym, ap, Bool, true, false, List, [], ◌∷◌, ◌++◌, append_assoc, All, list_eq,
  nat_eq, ◌==◌, Option, some, Bool-cases, inl, inr, ◌⊎◌,
}
use blogflow.Base.Text.{Text, is_empty, split, split_from, trim_space}
use blogflow.Server.ClientIp.{
  join_commas, hops_of, reverse_onto, client, normalize_hop, extract_ip, is_trusted, walk,
  client_ip,
}

split_from-append :
    (cur s t : Text)
    → split_from b',' cur (s ++ b',' ∷ t) ≡ split_from b',' cur s ++ split_from b',' [] t
unfolding split_from
split_from-append cur [] t = refl
split_from-append cur (c ∷ s) t = elim (Bool-cases (c == b',')) [
  | inl comma ↦ rw comma (ap (◌∷◌ cur) (split_from-append [] s t))
  | inr other ↦ rw other (split_from-append (cur ++ c ∷ []) s t)
]

-- The hops of more lines are the hops of each, one after the other.
hops_of-append :
    (line : Text) (lines : List Text)
    → is_empty lines ≡ false
    → hops_of (line ∷ lines) ≡ split line b',' ++ hops_of lines
unfolding hops_of join_commas split
hops_of-append line [] some_left = absurd (cc some_left)
hops_of-append line (next ∷ lines) some_left =
    split_from-append [] line (join_commas (next ∷ lines))

append_not_empty {ℓ} :
    {A : Type ℓ} (xs ys : List A) → is_empty ys ≡ false → is_empty (xs ++ ys) ≡ false
append_not_empty [] ys h = h
append_not_empty (x ∷ xs) ys h = refl

-- Whatever lines stand before, the hops end with those of the last lines.
hops_of-suffix :
    (before last : List Text)
    → is_empty last ≡ false
    → (spoofed : List Text) × (hops_of (before ++ last) ≡ spoofed ++ hops_of last)
hops_of-suffix [] last some_left = ([], refl)
hops_of-suffix (line ∷ before) last some_left =
    let (spoofed, e) = hops_of-suffix before last some_left in
    (
      split line b',' ++ spoofed,
      hops_of-append line (before ++ last) (append_not_empty before last some_left)
          ∙ ap (λ h. split line b',' ++ h) e
          ∙ sym (append_assoc (split line b',') spoofed (hops_of last)),
    )

reverse_onto-append {ℓ} :
    {A : Type ℓ} (onto xs ys : List A)
    → reverse_onto onto (xs ++ ys) ≡ reverse_onto (reverse_onto onto xs) ys
unfolding reverse_onto
reverse_onto-append onto [] ys = refl
reverse_onto-append onto (x ∷ xs) ys = reverse_onto-append (x ∷ onto) xs ys

-- What stands behind in the list comes first, and what it is put onto stays behind.
reverse_onto-behind {ℓ} :
    {A : Type ℓ} (onto xs : List A) → reverse_onto onto xs ≡ reverse_onto [] xs ++ onto
unfolding reverse_onto
reverse_onto-behind onto [] = refl
reverse_onto-behind onto (x ∷ xs) =
    reverse_onto-behind (x ∷ onto) xs
    ∙ sym (append_assoc (reverse_onto [] xs) (x ∷ []) onto)
    ∙ ap (λ l. l ++ onto) (sym (reverse_onto-behind (x ∷ []) xs))

All-reverse_onto {ℓ κ} :
    {A : Type ℓ} (P : A → Type κ) (onto xs : List A)
    → All P onto
    → All P xs
    → All P (reverse_onto onto xs)
unfolding reverse_onto
All-reverse_onto P onto [] ho h = ho
All-reverse_onto P onto (x ∷ xs) ho (px, h) = All-reverse_onto P (x ∷ onto) xs (px, ho) h

module _ (parse_ip : Text → Option Text) (parse_cidr : Text → Option (Text → Bool))
    (split_host_port parse_addr parse_addr_port : Text → Option Text)
    (trusted : List (Text → Bool)) where
  -- A hop that the walk passes: blank, or a trusted proxy.
  abbrev pub IsPassed : Text → Type 0
  IsPassed hop =
      (is_empty (trim_space hop) ≡ true)
      ⊎ ((ip : Text) × (is_empty (trim_space hop) ≡ false)
          × (normalize_hop parse_ip parse_cidr split_host_port parse_addr parse_addr_port
                (trim_space hop)
              ≡ some ip)
          × (is_trusted parse_ip parse_cidr split_host_port parse_addr parse_addr_port trusted ip
              ≡ true))

  -- A hop of a client: an address that is not trusted.
  pub record IsClient (hop ip : Text) : Type 0 where
    pub some_text : is_empty (trim_space hop) ≡ false
    pub address :
        normalize_hop parse_ip parse_cidr split_host_port parse_addr parse_addr_port
          (trim_space hop)
        ≡ some ip
    pub untrusted :
        is_trusted parse_ip parse_cidr split_host_port parse_addr parse_addr_port trusted ip ≡ false

  -- The walk over passed hops, in the order of the header, and then the rest.
  walk-passed :
      (proxies : List Text) (leftmost : Text) (saw_hop : Bool) (hop ip : Text) (rest : List Text)
      → All IsPassed proxies
      → IsClient hop ip
      → walk parse_ip parse_cidr split_host_port parse_addr parse_addr_port trusted leftmost saw_hop
          (proxies ++ hop ∷ rest)
        ≡ client ip
  unfolding walk
  walk-passed [] leftmost saw_hop hop ip rest h c = rw (c.some_text, c.address, c.untrusted) refl
  walk-passed (p ∷ proxies) leftmost saw_hop hop ip rest (inl blank, h) c =
      rw blank (walk-passed proxies leftmost saw_hop hop ip rest h c)
  walk-passed (p ∷ proxies) leftmost saw_hop hop ip rest (inr (q, text, address, trust), h) c =
      rw (text, address, trust) (walk-passed proxies q true hop ip rest h c)

  -- Behind a trusted proxy the client's address is the right-most hop that is no trusted proxy, and
  -- whatever the client itself sends is without effect: X-Forwarded-For lines in front of those of
  -- the proxies, hops to the left of its own in the same line, and X-Real-IP.
  pub client_ip-not_spoofed :
      (remote_addr x_real_ip hop ip : Text) (spoofed lines front proxies : List Text)
      → is_trusted parse_ip parse_cidr split_host_port parse_addr parse_addr_port trusted
          (extract_ip parse_ip parse_cidr split_host_port parse_addr parse_addr_port remote_addr)
        ≡ true
      → is_empty lines ≡ false
      → hops_of lines ≡ front ++ hop ∷ proxies
      → IsClient hop ip
      → All IsPassed proxies
      → client_ip parse_ip parse_cidr split_host_port parse_addr parse_addr_port trusted remote_addr
          (spoofed ++ lines)
          x_real_ip
        ≡ ip
  unfolding client_ip reverse_onto
  client_ip-not_spoofed remote_addr x_real_ip hop ip spoofed lines front proxies proxied some_left
        here c h =
      let (more, e) = hops_of-suffix spoofed lines some_left in
      let whole : hops_of (spoofed ++ lines) ≡ (more ++ front) ++ hop ∷ proxies =
        e ∙ ap (λ l. more ++ l) here ∙ sym (append_assoc more front (hop ∷ proxies)) in
      let turned : reverse_onto [] (hops_of (spoofed ++ lines))
          ≡ reverse_onto [] proxies ++ hop ∷ reverse_onto [] (more ++ front) =
        ap (reverse_onto []) whole
        ∙ reverse_onto-append [] (more ++ front) (hop ∷ proxies)
        ∙ reverse_onto-behind (hop ∷ reverse_onto [] (more ++ front)) proxies in
      let walked =
        walk-passed (reverse_onto [] proxies) [] false hop ip (reverse_onto [] (more ++ front))
          (All-reverse_onto IsPassed [] proxies tt h) c in
      rw (proxied, append_not_empty spoofed lines some_left, turned, walked, client_ip) refl

  -- The headers of a request that no trusted proxy sent are not read.
  pub client_ip-direct :
      (remote_addr x_real_ip : Text) (lines : List Text)
      → is_trusted parse_ip parse_cidr split_host_port parse_addr parse_addr_port trusted
          (extract_ip parse_ip parse_cidr split_host_port parse_addr parse_addr_port remote_addr)
        ≡ false
      → client_ip parse_ip parse_cidr split_host_port parse_addr parse_addr_port trusted remote_addr
          lines x_real_ip
        ≡ extract_ip parse_ip parse_cidr split_host_port parse_addr parse_addr_port remote_addr
  unfolding client_ip reverse_onto
  client_ip-direct remote_addr x_real_ip lines direct = rw (direct, client_ip) refl
