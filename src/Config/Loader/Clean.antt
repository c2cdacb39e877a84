-- ===== src/Config/Loader/Clean.antt =====
-- internal/config/loader.go and reload.go: what a configuration that loads has been through.
use blogflow.Base.{
  if◌then◌else◌, ltb, ◌≡◌, ◌⊎◌, ◌∙◌, inl, inr, refl, sym, ap, subst, true, false, List, [], none,
  some, arith, All, Bool-cases, Option-cases,
}
use blogflow.Base.Text.{trim_space, byte_len, Text, is_empty}
use blogflow.Config.{Config, default}
use blogflow.Config.Validate.Sound.{IsValid, validate-IsValid}
use blogflow.Config.Env.{EnvError, EnvVar, Applied, applied, rejected, apply_env_overrides}
use blogflow.Config.Scan.{scan_for_secrets, scan_for_anchors_aliases}
use blogflow.Config.Scan.Patterns.{HasNoSecret, scan_for_secrets-HasNoSecret}
use blogflow.Config.Scan.Anchors.{IsPlainLine, scan_for_anchors_aliases-IsPlainLine}
use blogflow.Base.Text.{split}
use blogflow.Config.Loader.{
  bad_yaml, max_config_file_size, SiteFile, absent, closed, opened, Loaded, ok, err, LoadError,
  World, Library, errors_of, parse_site, read_site, override, check_valid, and_then, loaded,
}
use blogflow.Config.Loader.Origin.{secret_of, FromEnvironment, Unwritten, apply_from-Unwritten}

Applied-cases :
    (a : Applied)
    → ((e : EnvError) × (a ≡ rejected e))
      ⊎ ((c : Config) × (names : List EnvVar) × (a ≡ applied c names))
Applied-cases (rejected e) = inl (e, refl)
Applied-cases (applied c names) = inr (c, names, refl)

pub Loaded-cases : (r : Loaded) → ((e : LoadError) × (r ≡ err e)) ⊎ ((cfg : Config) × (r ≡ ok cfg))
Loaded-cases (err e) = inl (e, refl)
Loaded-cases (ok cfg) = inr (cfg, refl)

module _ (lib : Library) where
  -- The site's YAML, if it is read, matches no pattern for secrets and holds no anchor or alias outside
  -- quotes and comments.
  abbrev pub IsClean : SiteFile → Type 0
  IsClean absent = Unit {0}
  IsClean closed = ⊥
  IsClean (opened s faulty) = HasNoSecret s × All IsPlainLine (split s 10)

  -- What a configuration that was loaded in a world has been through.
  pub record Trusted (world : World) (cfg : Config) : Type 0 where
    pub clean : IsClean world.site_file
    pub valid : IsValid lib.parse_ip lib.parse_cidr lib.parse_duration lib.parse_url cfg
    pub secret :
        (secret_of cfg ≡ []) ⊎ FromEnvironment world.open_file world.lookup_env (secret_of cfg)

  and_then-ok :
      (r : Loaded) (k : Config → Loaded) (cfg : Config)
      → and_then r k ≡ ok cfg
      → (c : Config) × (r ≡ ok c) × (k c ≡ ok cfg)
  and_then-ok (ok c) k cfg h = (c, refl, h)
  and_then-ok (err e) k cfg h = absurd (cc)

  check_valid-ok :
      (c cfg : Config) → check_valid lib c ≡ ok cfg → (c ≡ cfg) × (errors_of lib c ≡ [])
  unfolding check_valid
  check_valid-ok c cfg h = elim (Bool-cases (is_empty (errors_of lib c))) [
    | inl none_found ↦ (ground arith, ground arith)
    | inr found ↦ absurd (ground arith)
  ]

  override-ok :
      (w : World) (c cfg : Config)
      → override lib w c ≡ ok cfg
      → secret_of c ≡ []
      → (secret_of cfg ≡ []) ⊎ FromEnvironment w.open_file w.lookup_env (secret_of cfg)
  unfolding override apply_env_overrides
  override-ok w c cfg h bare =
      elim (Applied-cases
        (apply_env_overrides lib.parse_int lib.parse_duration w.open_file w.lookup_env w.order c)) [
          | inl (e, failed) ↦ absurd (cc (rw (failed, override) at h))
          | inr (c', names, e) ↦
              let same : c' ≡ cfg = cc (rw (e, override) at h) in
              subst (Unwritten w.open_file w.lookup_env lib.parse_int lib.parse_duration) same (
                apply_from-Unwritten w.open_file w.lookup_env lib.parse_int lib.parse_duration
                  w.order c c' [] names (inl bare) e)
        ]

  module _
      (keeps_secret : (s : Text) (c c' : Config)
        → lib.decode s c ≡ some c'
        → secret_of c' ≡ secret_of c) where
    parse_site-ok :
        (s : Text) (c cfg : Config)
        → parse_site lib s c ≡ ok cfg
        → (scan_for_secrets s ≡ none)
          × (scan_for_anchors_aliases s ≡ none)
          × (secret_of cfg ≡ secret_of c)
    unfolding parse_site
    parse_site-ok s c cfg h = elim (Option-cases (scan_for_secrets s)) [
      | inr (i, e) ↦ absurd (cc (rw (e, parse_site) at h))
      | inl e ↦ elim (Option-cases (scan_for_anchors_aliases s)) [
        | inr (m, d) ↦ absurd (cc (rw (e, d, parse_site) at h))
        | inl d ↦ (e, d, decoded (rw (e, d, parse_site) at h))
      ]
    ]
      where
        decoded :
            (if is_empty (trim_space s)
                then ok c
                else elim (lib.decode s c) [ none ↦ err bad_yaml | some cfg' ↦ ok cfg' ])
              ≡ ok cfg
            → secret_of cfg ≡ secret_of c
        decoded k = elim (Bool-cases (is_empty (trim_space s))) [
          | inl bare ↦ let same : c ≡ cfg = cc (rw bare at k) in ap secret_of (sym same)
          | inr filled ↦ elim (Option-cases (lib.decode s c)) [
            | inl f ↦ absurd (cc (rw (filled, f) at k))
            | inr (c', f) ↦
                let same : c' ≡ cfg = cc (rw (filled, f) at k) in
                ap secret_of (sym same) ∙ keeps_secret s c c' f
          ]
        ]

    read_site-ok :
        (f : SiteFile) (cfg : Config)
        → read_site lib f default ≡ ok cfg
        → IsClean f × (secret_of cfg ≡ [])
    unfolding read_site
    read_site-ok absent cfg h = let same : default ≡ cfg = cc in (tt, ap secret_of (sym same))
    read_site-ok closed cfg h = absurd (cc)
    read_site-ok (opened s true) cfg h = absurd (ground arith)
    read_site-ok (opened s false) cfg h =
        elim (Bool-cases (ltb max_config_file_size (byte_len s))) [
          | inl long ↦ absurd (cc (rw (long, read_site) at h))
          | inr fits ↦
              let (secrets, markers, same) =
                parse_site-ok s default cfg (rw (fits, read_site) at h) in
              (
                (
                  scan_for_secrets-HasNoSecret s secrets,
                  scan_for_anchors_aliases-IsPlainLine s markers,
                ),
                same,
              )
        ]

    pub loaded-Trusted : (w : World) (cfg : Config) → loaded lib w ≡ ok cfg → Trusted w cfg
    unfolding loaded
    loaded-Trusted w cfg h =
        let (c, read, h1) = and_then-ok (read_site lib w.site_file default) _ cfg h in
        let (c', overridden, h2) = and_then-ok (override lib w c) _ cfg h1 in
        let (same, valid) = check_valid-ok c' cfg h2 in
        let (clean, bare) = read_site-ok w.site_file c read in
        subst (Trusted w) same record {
          clean = clean;
          valid =
              (validate-IsValid lib.parse_ip lib.parse_cidr lib.parse_duration lib.parse_url c').0
                valid;
          secret = override-ok w c c' overridden bare;
        }
