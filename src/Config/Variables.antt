-- ===== src/Config/Variables.antt =====
-- Each setting of internal/config/config.go has its own variable.
use longclaw.Base.{◌≡◌, Option, some, List, [], ◌∷◌, Bytes, codes, bytes_eq, All, if◌then◌else◌}
use longclaw.Config.{Config, get_env, load_config}

-- The settings under the names of their variables.
abbrev pub variables : List (Bytes × (Config → Bytes))
variables =
    (codes "LONGCLAW_HTTP_PORT", (λ cfg. cfg.server.http_port))
    ∷ (codes "LONGCLAW_ISO_PORT", (λ cfg. cfg.server.iso_port))
    ∷ (codes "LONGCLAW_DB_PATH", (λ cfg. cfg.database.path))
    ∷ (codes "LONGCLAW_SERVER_CERT", (λ cfg. cfg.tls.server_cert_path))
    ∷ (codes "LONGCLAW_SERVER_KEY", (λ cfg. cfg.tls.server_key_path))
    ∷ (codes "LONGCLAW_CA_CERT", (λ cfg. cfg.tls.ca_path))
    ∷ (codes "LONGCLAW_CLIENT_CERT", (λ cfg. cfg.tls.client_cert_path))
    ∷ (codes "LONGCLAW_CLIENT_KEY", (λ cfg. cfg.tls.client_key_path))
    ∷ (codes "LONGCLAW_EXPECTED_CN", (λ cfg. cfg.tls.expected_cn))
    ∷ (codes "LONGCLAW_SPEC_PATH", (λ cfg. cfg.data_files.spec_path))
    ∷ (codes "LONGCLAW_CARDS_PATH", (λ cfg. cfg.data_files.cards_path))
    ∷ (codes "LONGCLAW_TEMPLATES_PATH", (λ cfg. cfg.data_files.templates_path))
    ∷ []

-- An environment with one more variable.
abbrev pub set_env : Bytes → Bytes → (Bytes → Option Bytes) → Bytes → Option Bytes
set_env key value env other = if bytes_eq key other then some value else env other

module _ (env : Bytes → Option Bytes) (join : List Bytes → Bytes) (base_path value : Bytes) where
  abbrev after : Bytes → Config
  after key = load_config (set_env key value env) join base_path

  -- Setting the variable gives its setting the value, and no other setting another one.
  abbrev pub Overrides : Bytes × (Config → Bytes) → Type 0
  Overrides (key, setting) =
      All
        (λ (v : Bytes × (Config → Bytes)).
          v.1 (after key)
          ≡ (if bytes_eq key v.0 then value else v.1 (load_config env join base_path)))
        variables

  -- Each of the 12 variables overrides its own setting, whatever the environment holds besides, and leaves all the
  -- others as they are.
  pub load_config-Overrides : All Overrides variables
  unfolding load_config get_env
  load_config-Overrides = search tt
