-- ===== src/Server/Tests.antt =====
-- The server's theorems at small inputs: a proxy at "p", whose name is the first byte of its address.
use blogflow.Webhook.Signature.{hex_digit, hex_encode}
use blogflow.Base.{
  ℕ, zero, suc, ◌<◌, ◌≡◌, refl, Bool, true, List, [], ◌∷◌, ◌++◌, Option, none, some, All, arith,
  list_eq, nat_eq, ◌==◌, list_beq, inr,
}
use blogflow.Base.Text.{Text, codes, trim_space}
use blogflow.Server.ClientIp.{client_ip, extract_ip, is_trusted, hops_of, normalize_hop}
use blogflow.Server.ClientIp.Spoof.{IsClient, IsPassed, client_ip-not_spoofed}
use blogflow.Server.RequestId.{request_id, is_valid_request_id, request_id-valid}

abbrev address : Text → Option Text
address s = some s

abbrev no_range : Text → Option (Text → Bool)
no_range s = none

abbrev nothing : Text → Option Text
nothing s = none

abbrev proxies : List (Text → Bool)
proxies = (λ a. a == codes "p") ∷ []

abbrev lines : List Text
lines = codes "evil, c, p" ∷ []

abbrev spoofed : List Text
spoofed = codes "10.0.0.1" ∷ []

proxied :
    is_trusted address no_range nothing address nothing proxies
      (extract_ip address no_range nothing address nothing (codes "p"))
    ≡ true
unfolding is_trusted extract_ip list_beq
proxied = refl

lines_split : hops_of lines ≡ (codes "evil" ∷ []) ++ codes " c" ∷ codes " p" ∷ []
unfolding hops_of
lines_split = refl

c-IsClient : IsClient address no_range nothing address nothing proxies (codes " c") (codes "c")
unfolding is_trusted normalize_hop trim_space list_beq
c-IsClient = record { some_text = refl; address = refl; untrusted = refl }

p-IsPassed : IsPassed address no_range nothing address nothing proxies (codes " p")
unfolding is_trusted normalize_hop trim_space list_beq
p-IsPassed = inr (codes "p", refl, refl, refl)

client_ip-not_spoofed_example :
    client_ip address no_range nothing address nothing proxies
      (codes "p")
      (spoofed ++ lines)
      (codes "x")
    ≡ codes "c"
client_ip-not_spoofed_example =
    client_ip-not_spoofed address no_range nothing address nothing proxies (codes "p") (codes "x")
      (codes " c") (codes "c") spoofed lines (codes "evil" ∷ []) (codes " p" ∷ []) proxied refl
      lines_split c-IsClient (p-IsPassed, tt)

abbrev zeros : ℕ → Text
zeros zero = []
zeros (suc n) = 0 ∷ zeros n

zeros-bytes : (n : ℕ) → All (λ u. u < 256) (zeros n)
zeros-bytes zero = tt
zeros-bytes (suc n) = (omega arith, zeros-bytes n)

uuid_made :
    request_id (codes "a b") (some (zeros 16)) ≡ some (codes "00000000-0000-4000-8000-000000000000")
unfolding request_id hex_encode hex_digit
uuid_made = refl

request_id-valid_example :
    (made : Text) × (request_id (codes "a b") (some (zeros 16)) ≡ some made)
    × (is_valid_request_id made ≡ true)
request_id-valid_example = request_id-valid (codes "a b") (zeros 16) refl (zeros-bytes 16)
