-- ===== src/Config/Loader/Trusted.antt =====
-- internal/config/loader.go and reload.go: what every configuration that a loader holds or hands out has
-- been through.
use blogflow.Base.{◌≡◌, ◌⊎◌, ℕ, List, [], ◌∷◌, ◌++◌, map, some, All}
use blogflow.Base.Text.{Text}
use blogflow.Config.{Config, default}
use blogflow.Config.Loader.{ok, err, LoadError, Loader, World, Library, load}
use blogflow.Config.Loader.Origin.{secret_of}
use blogflow.Config.Loader.Clean.{Trusted}

module _ (lib : Library) where
  -- Trusted in one of the worlds.
  abbrev pub TrustedIn : List World → Config → Type 0
  TrustedIn [] cfg = ⊥
  TrustedIn (w ∷ ws) cfg = Trusted lib w cfg ⊎ TrustedIn ws cfg

  -- What holds of a loader that has loaded in these worlds.
  pub record Sound (ws : List World) (l : Loader) : Type 0 where
    pub current_trusted : (l.current ≡ default) ⊎ TrustedIn ws l.current
    pub calls_trusted : All (λ (c : ℕ × Config). TrustedIn ws c.1) l.calls

  -- The loader after a reload that succeeds.
  abbrev pub renewed : Config → Loader → Loader
  renewed cfg l = record {
    current = cfg;
    callbacks = l.callbacks;
    calls = l.calls ++ map (λ f. (f, cfg)) l.callbacks;
  }

  module _
      (keeps_secret : (s : Text) (c c' : Config)
        → lib.decode s c ≡ some c'
        → secret_of c' ≡ secret_of c) where
    -- The two outcomes of a load.
    data Outcome (w : World) (l : Loader) : Type 0 where
      kept : (e : LoadError) → load lib w l ≡ (err e, l) → Outcome w l
      replaced :
          (cfg : Config)
          → Trusted lib w cfg
          → load lib w l ≡ (ok cfg, record l { current = cfg })
          → Outcome w l
