-- ===== src/Config/Validate/Server.antt =====
-- internal/config/loader.go: what `Validate` accepts for the server, and the lemmas on its tests.
use blogflow.Base.{
  ℕ, zero, suc, ◌≤◌, ◌≡◌, ◌≢◌, ◌⊎◌, ◌↔◌, true, false, List, [], ◌∷◌, ◌++◌, list_eq, nat_eq, arith,
  All,
}
use blogflow.Base.Int.{ℤ, pos, negsuc, ltb_ℤ, leb_ℤ, ◌=ℤ◌}
use blogflow.Config.{ServerConfig, effective_ops_port, is_zero}
use blogflow.Config.Rules.{Check, report, outside, validate_server}

abbrev pub Passes : Check → Type 0
Passes c = c.bad ≡ false

pub report-Passes : (l : List Check) → (report l ≡ []) ↔ All Passes l
unfolding report
report-Passes [] = ground arith
report-Passes (c ∷ l) = ground (arith, report-Passes l)

pub append_nil_iff {ℓ} : {A : Type ℓ} (xs ys : List A) → (xs ++ ys ≡ []) ↔ (xs ≡ []) × (ys ≡ [])
append_nil_iff [] ys = ground arith
append_nil_iff (x ∷ xs) ys = ground arith

abbrev pub InRange : ℕ → ℕ → ℤ → Type 0
InRange lo hi (pos n) = (lo ≤ n) × (n ≤ hi)
InRange lo hi (negsuc n) = ⊥

abbrev pub AtLeast : ℕ → ℤ → Type 0
AtLeast lo (pos n) = lo ≤ n
AtLeast lo (negsuc n) = ⊥

pub outside_iff : (lo hi : ℕ) (z : ℤ) → (outside lo hi z ≡ false) ↔ InRange lo hi z
outside_iff lo hi (pos n) = ground arith
outside_iff lo hi (negsuc n) = ground arith

pub below_iff : (lo : ℕ) (z : ℤ) → (ltb_ℤ z (pos lo) ≡ false) ↔ AtLeast lo z
below_iff lo (pos n) = ground arith
below_iff lo (negsuc n) = ground arith

pub positive_iff : (z : ℤ) → (leb_ℤ z (pos 0) ≡ false) ↔ AtLeast 1 z
positive_iff (pos n) = ground arith
positive_iff (negsuc n) = ground arith

eq_iff : (a b : ℤ) → ((a =ℤ b) ≡ false) ↔ (a ≢ b)
eq_iff (pos a) (pos b) = ground arith
eq_iff (pos a) (negsuc b) = ground arith
eq_iff (negsuc a) (pos b) = ground arith
eq_iff (negsuc a) (negsuc b) = ground arith

zero_iff : (z : ℤ) → (is_zero z ≡ true) ↔ (z ≡ pos 0)
zero_iff (pos zero) = ground arith
zero_iff (pos (suc n)) = ground arith
zero_iff (negsuc n) = ground arith

pub record ServerIsValid (s : ServerConfig) : Type 0 where
  pub port_range : InRange 1 65_535 s.port
  pub ops :
      (effective_ops_port s ≡ pos 0)
      ⊎ (InRange 1 65_535 (effective_ops_port s) × (effective_ops_port s ≢ s.port))
  pub alias : (s.ops_port ≡ pos 0) ⊎ (s.metrics_port ≡ pos 0) ⊎ (s.ops_port ≡ s.metrics_port)
  pub health : s.private_health ≡ true → effective_ops_port s ≢ pos 0
  pub read : AtLeast 1 s.read_timeout
  pub write : AtLeast 1 s.write_timeout
  pub idle : AtLeast 1 s.idle_timeout

pub validate_server-ServerIsValid : (s : ServerConfig) → (validate_server s ≡ []) ↔ ServerIsValid s
unfolding validate_server
validate_server-ServerIsValid s = (sound, complete)
  where
    sound : validate_server s ≡ [] → ServerIsValid s
    sound h =
        let (port, (range, (same, (alias, (health, (read, (write, (idle, _)))))))) =
          (report-Passes _).0 h in
        record {
          port_range = (outside_iff 1 65_535 s.port).0 port;
          ops = ground (
            arith,
            range,
            same,
            zero_iff (effective_ops_port s),
            outside_iff 1 65_535 (effective_ops_port s),
            eq_iff (effective_ops_port s) s.port,
          );
          alias = ground (
            arith,
            zero_iff s.ops_port,
            zero_iff s.metrics_port,
            eq_iff s.ops_port s.metrics_port,
          );
          health = ground (arith, zero_iff (effective_ops_port s));
          read = (positive_iff s.read_timeout).0 read;
          write = (positive_iff s.write_timeout).0 write;
          idle = (positive_iff s.idle_timeout).0 idle;
        }

    complete : ServerIsValid s → validate_server s ≡ []
    complete v = (report-Passes _).1 (
        ground (
          arith,
          v.ops,
          v.alias,
          v.health,
          outside_iff 1 65_535 s.port,
          zero_iff (effective_ops_port s),
          outside_iff 1 65_535 (effective_ops_port s),
          eq_iff (effective_ops_port s) s.port,
          zero_iff s.ops_port,
          zero_iff s.metrics_port,
          eq_iff s.ops_port s.metrics_port,
          positive_iff s.read_timeout,
          positive_iff s.write_timeout,
          positive_iff s.idle_timeout,
        ))
