-- ===== src/Config/Tests.antt =====
-- Runs of the model of internal/config, and its theorems at a small site.
use blogflow.Base.{
  list_beq, ◌≡◌, refl, Bool, false, [], ◌∷◌, if◌then◌else◌, ◌==◌, list_eq, nat_eq, Option, none,
  some,
}
use blogflow.Base.Int.{ℤ, pos}
use blogflow.Base.Text.{trim_space, split, Text, codes}
use blogflow.EnvFile.{SecretFile}
use blogflow.Config.{effective_ops_port, Config, default}
use blogflow.Config.Rules.{Url, report, server_port, out_of_range}
use blogflow.Config.Validate.{validate}
use blogflow.Config.Env.{
  EnvVar, text_var, number_var, site_title, server_port as port_var, apply_env_overrides,
}
use blogflow.Config.Env.Order.{outcome, swap, apply_env_overrides-Shuffle}
use blogflow.Config.Scan.{scan_for_secrets, scan_for_anchors_aliases, alias}
use blogflow.Config.Loader.{
  Library, World, Loader, err, opened, new_loader, reload, on_change, marker_in_yaml,
}
use blogflow.Config.Loader.Clean.{Trusted}
use blogflow.Config.Loader.Trusted.{Sound}

abbrev no_ip : Text → Option Text
no_ip s = none

abbrev no_cidr : Text → Option (Text → Bool)
no_cidr s = none

abbrev no_number : Text → Option ℤ
no_number s = if s == codes "80" then some (pos 80) else none

abbrev local_url : Text → Option Url
local_url s = some (record { scheme = codes "http"; host = codes "localhost:8080" })

bad_port :
    validate no_ip no_cidr no_number local_url
      (record default { server = record default.server { port = pos 0 } })
    ≡ record { field = server_port; message = out_of_range } ∷ []
unfolding validate report effective_ops_port list_beq
bad_port = refl

token_found : scan_for_secrets (codes "a: 1\n my_Token : x") ≡ some 17
unfolding scan_for_secrets
token_found = refl

placeholder_found : scan_for_secrets (codes "a: ${BLOGFLOW_X}") ≡ some 12
unfolding scan_for_secrets
placeholder_found = refl

clean : scan_for_secrets (codes "site:\n  title: ghp_ x\n") ≡ none
unfolding scan_for_secrets
clean = refl

alias_found : scan_for_anchors_aliases (codes "# &a\nb: '*c' *d") ≡ some alias
unfolding scan_for_anchors_aliases split trim_space
alias_found = refl

quoted : scan_for_anchors_aliases (codes "b: \"&c\" x*d & e") ≡ none
unfolding scan_for_anchors_aliases split trim_space
quoted = refl

abbrev no_file : Text → Option SecretFile
no_file path = none

abbrev environment : Text → Option Text
environment name =
    if name == codes "BLOGFLOW_SITE_TITLE"
    then some (codes "Notes")
    else if name == codes "BLOGFLOW_SERVER_PORT"
    then some (codes "80")
    else none

abbrev title : EnvVar
title = text_var site_title

abbrev listen : EnvVar
listen = number_var port_var

apply_env_overrides-Shuffle_example :
    outcome
      (apply_env_overrides no_number no_number no_file environment (title ∷ listen ∷ []) default)
    ≡ outcome
        (apply_env_overrides no_number no_number no_file environment (listen ∷ title ∷ []) default)
apply_env_overrides-Shuffle_example =
    apply_env_overrides-Shuffle no_number no_number no_file environment (title ∷ listen ∷ [])
      (listen ∷ title ∷ []) default (swap title listen [])

-- A decoder that sets the title.
abbrev decode_title : Text → Config → Option Config
decode_title s c = some (record c { site = record c.site { title = s } })

abbrev library : Library
library = record {
  parse_ip = no_ip;
  parse_cidr = no_cidr;
  parse_url = local_url;
  parse_duration = no_number;
  parse_int = no_number;
  decode = decode_title;
}

abbrev world : Text → World
world s = record {
  site_file = opened s false;
  open_file = no_file;
  lookup_env = environment;
  order = title ∷ listen ∷ [];
}

abbrev registered : Loader
registered = on_change 7 new_loader

refused : (reload library (world (codes "a: *b")) registered).0 ≡ err (marker_in_yaml alias)
unfolding reload scan_for_secrets scan_for_anchors_aliases split trim_space
refused = refl
