-- ===== src/Network/Client/Settings.antt =====
-- The start of network/client/iso_client.go: its settings, up to the connection. Files, certificates and the TLS
-- connection are the libraries': they come as arguments.
use mathlib.Core.Path.{subst}
use longclaw.Base.{
  ◌≡◌, refl, ap, true, false, ok-injective, Option, none, some, Bytes, codes, ◌++◌, Go, ok, err,
  panic, ℤ, Bool, if◌then◌else◌,
}
use longclaw.Strconv.{Num, number, not_number, out_of_range, atoi}

pub record Settings : Type 0 where
  pub server_addr : Bytes
  pub reply_delay_ms : ℤ
  pub ca_path : Bytes
  pub client_cert_path : Bytes
  pub client_key_path : Bytes

pub data SettingsError : Type 0 where
  invalid_delay : SettingsError
  no_key_pair : SettingsError
  not_connected : SettingsError

unfoldable pub parse_delay {ℓ} : {A : Type ℓ} → Num → (ℤ → Go SettingsError A) → Go SettingsError A
parse_delay (number z) next = next z
parse_delay not_number next = err invalid_delay
parse_delay (out_of_range z) next = err invalid_delay

unfoldable pub get_env : (Bytes → Option Bytes) → (key default_value : Bytes) → Bytes
get_env lookup_env key default_value = elim (lookup_env key) [
  | none ↦ default_value
  | some value ↦ value
]

-- The path of the certificates is put in front of the names as it is, without a `/` of its own.
abbrev pub settings_of : (Bytes → Option Bytes) → (delay : ℤ) → Settings
settings_of lookup_env delay =
    let cert_path = get_env lookup_env (codes "LONGCLAW_CERT_PATH") (codes "certs/") in
    record {
      server_addr = get_env lookup_env (codes "LONGCLAW_ISO_ADDR") (codes "127.0.0.1:8443");
      reply_delay_ms = delay;
      ca_path = cert_path ++ codes "server/ca.crt";
      client_cert_path = cert_path ++ codes "client/client.crt";
      client_key_path = cert_path ++ codes "client/client.key";
    }

-- The file of the authority that cannot be read is a panic, the others are `log.Fatalf`.
module _ (readable : Bytes → Bool) (loads_pair : (cert_path key_path : Bytes) → Bool)
    (dials : Bytes → Bool) where
  unfoldable pub connect : Settings → Go SettingsError Settings
  connect s =
      if readable s.ca_path
      then (if loads_pair s.client_cert_path s.client_key_path
          then (if dials s.server_addr then ok s else err not_connected)
          else err no_key_pair)
      else panic

  unfoldable pub start_client : (lookup_env : Bytes → Option Bytes) → Go SettingsError Settings
  unfolding parse_delay connect
  start_client lookup_env =
      parse_delay (atoi (get_env lookup_env (codes "LONGCLAW_CLIENT_DELAY_MS") (codes "3000")))
        (λ delay. connect (settings_of lookup_env delay))

-- What a client that connects has found.
abbrev Connects :
    (Bytes → Bool) → ((cert_path key_path : Bytes) → Bool) → (Bytes → Bool) → Settings → Type 0
Connects readable loads_pair dials s =
    (readable s.ca_path ≡ true)
    × (loads_pair s.client_cert_path s.client_key_path ≡ true)
    × (dials s.server_addr ≡ true)

connect-Connects :
    (readable : Bytes → Bool) (loads_pair : (cert_path key_path : Bytes) → Bool)
    (dials : Bytes → Bool) (s s' : Settings)
    → connect readable loads_pair dials s ≡ ok s'
    → (s ≡ s') × Connects readable loads_pair dials s'
unfolding connect
connect-Connects readable loads_pair dials s s' e =
    by_tests (readable s.ca_path) (loads_pair s.client_cert_path s.client_key_path)
      (dials s.server_addr) refl refl refl e
  where
    by_tests :
        (a b c : Bool)
        → readable s.ca_path ≡ a
        → loads_pair s.client_cert_path s.client_key_path ≡ b
        → dials s.server_addr ≡ c
        → ◌≡◌ {A = Go SettingsError Settings}
            (if a
              then (if b then (if c then ok s else err not_connected) else err no_key_pair)
              else panic)
            (ok s')
        → (s ≡ s') × Connects readable loads_pair dials s'
    by_tests true true true h h' h'' e =
        (ok-injective e, subst (Connects readable loads_pair dials) (ok-injective e) (h, h', h''))
    by_tests true true false h h' h'' e = cc
    by_tests true false c h h' h'' e = cc
    by_tests false b c h h' h'' e = cc

-- A client that connects has a delay that `Atoi` reads, and certificates that could be loaded from its
-- directory.
start_client-Connects :
    (lookup_env : Bytes → Option Bytes) (readable : Bytes → Bool)
    (loads_pair : (cert_path key_path : Bytes) → Bool) (dials : Bytes → Bool) (s : Settings)
    → start_client readable loads_pair dials lookup_env ≡ ok s
    → Connects readable loads_pair dials s
      × (atoi (get_env lookup_env (codes "LONGCLAW_CLIENT_DELAY_MS") (codes "3000"))
          ≡ number s.reply_delay_ms)
unfolding start_client
start_client-Connects lookup_env readable loads_pair dials s e =
    by_delay (atoi (get_env lookup_env (codes "LONGCLAW_CLIENT_DELAY_MS") (codes "3000"))) e
  where
    refused : ◌≡◌ {A = Go SettingsError Settings} (err invalid_delay) (ok s) → {P : Type 0} → P
    refused e = cc

    by_delay :
        (n : Num)
        → parse_delay n (λ delay. connect readable loads_pair dials (settings_of lookup_env delay))
          ≡ ok s
        → Connects readable loads_pair dials s × (n ≡ number s.reply_delay_ms)
    by_delay (number z) e = found (unfold parse_delay in e)
      where
        found :
            connect readable loads_pair dials (settings_of lookup_env z) ≡ ok s
            → Connects readable loads_pair dials s × (number z ≡ number s.reply_delay_ms)
        found e =
            let (same, connects) =
              connect-Connects readable loads_pair dials (settings_of lookup_env z) s e in
            (connects, ap (λ (t : Settings). number t.reply_delay_ms) same)
    by_delay not_number e = refused (unfold parse_delay in e)
    by_delay (out_of_range z) e = refused (unfold parse_delay in e)
