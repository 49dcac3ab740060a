-- ===== src/Config.antt =====
-- internal/config/config.go: the settings, from the environment or below the base path. The environment
-- (`os.LookupEnv`) and `filepath.Join` are parameters.
pub mod Variables
use longclaw.Base.{Option, none, some, List, [], ◌∷◌, Bytes, codes}

pub record ServerConfig : Type 0 where
  pub http_port : Bytes
  pub iso_port : Bytes

pub record DatabaseConfig : Type 0 where
  pub path : Bytes

pub record TlsConfig : Type 0 where
  pub server_cert_path : Bytes
  pub server_key_path : Bytes
  pub ca_path : Bytes
  pub client_cert_path : Bytes
  pub client_key_path : Bytes
  pub expected_cn : Bytes

pub record DataConfig : Type 0 where
  pub path : Bytes
  pub spec_path : Bytes
  pub cards_path : Bytes
  pub templates_path : Bytes

pub record Config : Type 0 where
  pub server : ServerConfig
  pub database : DatabaseConfig
  pub tls : TlsConfig
  pub data_files : DataConfig

module _ (lookup_env : Bytes → Option Bytes) (join : List Bytes → Bytes) where
  unfoldable pub get_env : (key default_value : Bytes) → Bytes
  get_env key default_value = elim (lookup_env key) [ none ↦ default_value | some value ↦ value ]

  -- `Load`, which never fails.
  unfoldable pub load_config : (base_path : Bytes) → Config
  unfolding get_env
  load_config base_path =
      let data_path = join (base_path ∷ codes "data" ∷ []) in
      let certs_path = join (base_path ∷ codes "certs" ∷ []) in
      let cert = (λ (side name : Bytes). join (certs_path ∷ side ∷ name ∷ [])) in
      let data_file = (λ (name : Bytes). join (data_path ∷ name ∷ [])) in
      record {
        server = record {
          http_port = get_env (codes "LONGCLAW_HTTP_PORT") (codes ":8080");
          iso_port = get_env (codes "LONGCLAW_ISO_PORT") (codes ":8443");
        };
        database = record {
          path = get_env (codes "LONGCLAW_DB_PATH") (data_file (codes "stress_test.db"));
        };
        tls = record {
          server_cert_path =
              get_env (codes "LONGCLAW_SERVER_CERT") (cert (codes "server") (codes "server.crt"));
          server_key_path =
              get_env (codes "LONGCLAW_SERVER_KEY") (cert (codes "server") (codes "server.key"));
          ca_path = get_env (codes "LONGCLAW_CA_CERT") (cert (codes "server") (codes "ca.crt"));
          client_cert_path =
              get_env (codes "LONGCLAW_CLIENT_CERT") (cert (codes "client") (codes "client.crt"));
          client_key_path =
              get_env (codes "LONGCLAW_CLIENT_KEY") (cert (codes "client") (codes "client.key"));
          expected_cn = get_env (codes "LONGCLAW_EXPECTED_CN") (codes "photon-client");
        };
        data_files = record {
          path = data_path;
          spec_path = get_env (codes "LONGCLAW_SPEC_PATH") (data_file (codes "file_spec.json"));
          cards_path = get_env (codes "LONGCLAW_CARDS_PATH") (data_file (codes "test_cards.json"));
          templates_path =
              get_env (codes "LONGCLAW_TEMPLATES_PATH")
                (data_file (codes "template_messages.json"));
        };
      }
