-- ===== src/Network/Admission/Checked.antt =====
-- Only clients with the expected certificate are connected.
use mathlib.Core.Bool.{false≢true}
use longclaw.Base.{
  ◌≤◌, ◌≡◌, ◌⊎◌, inl, inr, refl, true, false, List, [], ◌∷◌, Bytes, bytes_eq, bytes_eq→eq,
  Bool-cases, ltb, ltb→ge, ge→ltb, bytes_eq_iff, sym, ap, ◌∙◌,
}
use longclaw.Network.Conn.{Conn}
use longclaw.Network.Clients.{Server, register_conn}
use longclaw.Network.Admission.{Arrival, validate_client, handle_new_connect}

-- A TLS client behind a handshake, whose own certificate has the expected name, and whose random number
-- is not below 8.
pub record IsWelcome (expected_cn : Bytes) (arrival : Arrival) : Type 0 where
  pub secure : arrival.is_tls ≡ true
  pub shaken : arrival.handshake ≡ true
  pub lucky : 8 ≤ arrival.roll
  pub chain : List Bytes
  pub named : arrival.common_names ≡ expected_cn ∷ chain

abbrev pub Verdict : Bytes → Arrival → Bytes → Conn → Server → Type 0
Verdict expected_cn arrival client_id conn server =
    (IsWelcome expected_cn arrival
      × (handle_new_connect expected_cn arrival client_id conn server
          ≡ (register_conn client_id conn server, true)))
    ⊎ ((IsWelcome expected_cn arrival → ⊥)
        × (handle_new_connect expected_cn arrival client_id conn server ≡ (server, false)))

module _ (expected_cn : Bytes) (arrival : Arrival) (client_id : Bytes) (conn : Conn)
    (server : Server) where
  by_names :
      (names : List Bytes)
      → arrival.common_names ≡ names
      → arrival.is_tls ≡ true
      → arrival.handshake ≡ true
      → ltb arrival.roll 8 ≡ false
      → Verdict expected_cn arrival client_id conn server
  unfolding handle_new_connect validate_client
  by_names [] e tls shaken lucky =
      inr (λ w. no_names (sym e ∙ w.named), rw (handle_new_connect, tls, shaken, lucky, e) refl)
    where
      no_names : {chain : List Bytes} → [] ≡ expected_cn ∷ chain → ⊥
      no_names h = cc
  by_names (name ∷ chain) e tls shaken lucky = elim (Bool-cases (bytes_eq name expected_cn)) [
    | inl same ↦ inl (
      record {
        secure = tls;
        shaken = shaken;
        lucky = ltb→ge _ _ lucky;
        chain = chain;
        named = e ∙ ap (λ n. n ∷ chain) (bytes_eq→eq name expected_cn same);
      },
      rw (handle_new_connect, tls, shaken, lucky, e, validate_client, same) refl,
    )
    | inr differs ↦ inr (
      λ w. false≢true (sym differs ∙ (bytes_eq_iff name expected_cn).1 (first (sym e ∙ w.named))),
      rw (handle_new_connect, tls, shaken, lucky, e, validate_client, differs) refl,
    )
  ]
    where
      first : {rest : List Bytes} → name ∷ chain ≡ expected_cn ∷ rest → name ≡ expected_cn
      first h = cc

  pub handle_new_connect-IsWelcome : Verdict expected_cn arrival client_id conn server
  unfolding handle_new_connect
  handle_new_connect-IsWelcome = elim (Bool-cases arrival.is_tls) [
    | inr plain ↦ inr (λ w. false≢true (sym plain ∙ w.secure), rw (handle_new_connect, plain) refl)
    | inl tls ↦ elim (Bool-cases arrival.handshake) [
      | inr failed ↦
          inr (λ w. false≢true (sym failed ∙ w.shaken), rw (handle_new_connect, tls, failed) refl)
      | inl shaken ↦ elim (Bool-cases (ltb arrival.roll 8)) [
        | inl unlucky ↦ inr (
          λ w. false≢true (sym (ge→ltb _ _ w.lucky) ∙ unlucky),
          rw (handle_new_connect, tls, shaken, unlucky) refl,
        )
        | inr lucky ↦ by_names arrival.common_names refl tls shaken lucky
      ]
    ]
  ]
