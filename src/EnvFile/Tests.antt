-- ===== src/EnvFile/Tests.antt =====
-- Runs of the model of internal/envfile/envfile.go.
use blogflow.Base.{
  list_beq, ◌≡◌, [], ◌∷◌, true, false, Option, none, some, refl, list_eq, nat_eq, ◌==◌,
  if◌then◌else◌,
}
use blogflow.Base.Text.{trim_space, Text, codes}
use blogflow.EnvFile.{
  read_secret, read_regular, read_secret_file, SecretFile, found, both_set, world_readable,
  read_env_or_file,
}
use blogflow.EnvFile.Origin.{Origin, read_env_or_file-Origin}

abbrev secret : SecretFile
secret = record {
  secret_info = some (record { is_regular = true; permissions = 420; file_size = 4 });
  text = codes " s3\n";
  faulty = false;
}

abbrev open_secret : Text → Option SecretFile
open_secret path = if path == codes "/run/token" then some secret else none

-- Both variables are set.
abbrev lookup_both : Text → Option Text
lookup_both name =
    if name == codes "TOKEN_FILE"
    then some (codes "/run/token")
    else if name == codes "TOKEN"
    then some (codes "plain")
    else none

from_the_file :
    read_env_or_file open_secret lookup_both (codes "TOKEN")
    ≡ (both_set ∷ world_readable ∷ [], found (codes "s3"))
unfolding read_env_or_file list_beq read_secret_file read_regular read_secret trim_space
from_the_file = refl

read_env_or_file-Origin_example : Origin open_secret lookup_both (codes "TOKEN") (codes "s3")
unfolding read_env_or_file list_beq read_secret_file read_regular read_secret trim_space
read_env_or_file-Origin_example =
    (read_env_or_file-Origin open_secret lookup_both (codes "TOKEN") (codes "s3")).0 refl
