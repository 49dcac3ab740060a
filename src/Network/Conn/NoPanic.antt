-- ===== src/Network/Conn/NoPanic.antt =====
-- The read loop survives every message of the socket.
use longclaw.Base.{
  Bool, true, false, bytes_eq, ◌||◌, ◌&&◌, leb, leb→le, ◌<◌, ◌≤◌, ◌≡◌, ◌≢◌, refl, arith, Option,
  none, some, ◌++◌, Bytes, codes, take, drop, length, length-take, ltb, ltb→ge, Bool-cases, inl,
  inr, Go, ok, err, panic, slice-ok, index-ok, get_elem?-some, Returns, Returns-ne-panic,
}
use longclaw.Base.Dict.{load}
use longclaw.Strings.{string_of_byte}
use longclaw.Iso.Spec.{IsoSpec}
use longclaw.Iso.Message.{Message, Error, new_iso8583_message}
use longclaw.Iso.NoPanic.{IsModest, new_iso8583_message-ne-panic}
use longclaw.Iso.Edit.{get_field}
use longclaw.Network.Mti.{match_key, make_even, is_request_mti, is_response_mti}
use longclaw.Network.Conn.{
  Times, Conn, Stuck, dispatch, parse_and_dispatch, with_key, waiting_test, handle_message, deliver,
}

pub match_key-ok :
    (mti reference : Bytes)
    → 4 ≤ length mti
    → (key : Bytes) × (match_key {E = Stuck} mti reference ≡ ok key)
unfolding match_key
match_key-ok mti reference h =
    let (c, e) = get_elem?-some mti 2 (omega arith) in
    (
      take 2 mti
          ++ (string_of_byte (make_even c) ++ (take 1 (drop 3 mti) ++ (codes "|" ++ reference))),
      rw
          (
            slice-ok {E = Stuck} mti 0 2 2 refl (omega arith),
            index-ok {E = Stuck} mti 2 c e,
            slice-ok {E = Stuck} mti 3 4 1 refl h,
          )
          refl,
    )

Survives : Go Stuck Conn → Type 0
Survives r = Returns (λ c. Unit) r

dispatch-Survives :
    (t : Times) (mti : Bytes) (m : Message) (c : Conn)
    → 4 ≤ length mti
    → Survives (dispatch t mti m c)
unfolding Survives dispatch
dispatch-Survives t mti m c h =
    let (key, e) = match_key-ok mti (get_field m 36) h in
    elim (Bool-cases (is_request_mti mti)) [
      | inl p ↦ rw p tt
      | inr p ↦ elim (Bool-cases (is_response_mti mti)) [
        | inl q ↦ rw (p, q, e) tt
        | inr q ↦ rw (p, q) tt
      ]
    ]

and_right : (a b : Bool) → (a && b) ≡ true → b ≡ true
and_right true b e = e
and_right false b e = cc

waiting_test-ok :
    (mti msg : Bytes) (c : Conn)
    → (o : Option (Bytes × Option Bytes)) × (waiting_test mti msg c ≡ ok o)
unfolding waiting_test
waiting_test-ok mti msg c =
    elim (Bool-cases
      ((bytes_eq mti (codes "0810") || bytes_eq mti (codes "0800")) && leb 46 (length msg))) [
        | inl tests ↦ (
          with_key (take 10 (drop 36 msg)) (load (take 10 (drop 36 msg)) c.conn_tests),
          rw
              (
                tests,
                slice-ok {E = Stuck} msg 36 46 10 refl (
                    leb→le 46 (length msg) (
                      and_right (bytes_eq mti (codes "0810") || bytes_eq mti (codes "0800")) _
                        tests)),
              )
              refl,
        )
        | inr other ↦ (none, rw other refl)
      ]

module _ (spec : IsoSpec) (t : Times) (msg : Bytes) (c : Conn) where
  parsed-Survives :
      (mti : Bytes) (r : Go Error Message)
      → r ≢ panic
      → 4 ≤ length mti
      → Survives (elim r [ ok m ↦ dispatch t mti m c | err x ↦ ok c | panic ↦ panic ])
  parsed-Survives mti (ok m) h room = dispatch-Survives t mti m c room
  parsed-Survives mti (err x) h room = unfold Survives in tt
  parsed-Survives mti panic h room = absurd (h refl)

  deliver-Survives :
      (mti : Bytes) (o : Option (Bytes × Option Bytes))
      → Survives (parse_and_dispatch spec t mti msg c)
      → Survives (deliver spec t mti msg c o)
  unfolding Survives deliver
  deliver-Survives mti none h = h
  deliver-Survives mti (some (stan, none)) h = tt
  deliver-Survives mti (some (stan, some unread)) h = tt

  -- Whatever a client sends in one frame, the read loop does not panic, neither on its own slices of
  -- the message nor in the parser: it drops the message, keeps it for a connection test, or handles
  -- it. The fixed lengths of the specification are below 2^62.
  pub handle_message-ne-panic :
      length msg < 65536 → IsModest spec → handle_message spec t msg c ≢ panic
  unfolding Survives handle_message parse_and_dispatch
  handle_message-ne-panic h modest =
      Returns-ne-panic (λ c. Unit) (handle_message spec t msg c) survives
    where
      survives : Survives (handle_message spec t msg c)
      survives = elim (Bool-cases (ltb (length msg) 20)) [
        | inl short ↦ rw (handle_message, short) tt
        | inr enough ↦
            let long = ltb→ge _ _ enough in
            let (o, waits) = waiting_test-ok (take 4 msg) msg c in
            rw
              (
                handle_message,
                enough,
                slice-ok {E = Stuck} msg 0 4 4 refl (omega (arith, long)),
                waits,
              )
              (deliver-Survives (take 4 msg) o (
                parsed-Survives (take 4 msg) (new_iso8583_message msg spec)
                  (new_iso8583_message-ne-panic msg spec (omega arith) modest)
                  (omega (arith, length-take 4 msg, long))))
      ]
