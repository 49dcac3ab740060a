-- ===== src/Network/Client/Exchange.antt =====
-- A request on its way to the test client and back (network/server/iso_server.go, network/client/iso_client.go).
use longclaw.Base.{
  slice, slice-ok, ℕ, ◌≤◌, ◌<◌, ◌≡◌, ◌∙◌, refl, sym, ap, arith, true, false, ◌||◌, none, some, List,
  [], ◌∷◌, ◌++◌, Bytes, codes, bytes_eq, length, take, take-append, take-append-drop, append-nil,
  length-drop, length-append, ge→ltb, ok, ok-injective, max_int, slice, index,
}
use longclaw.Base.Dict.{load, delete}
use longclaw.Iso.Message.{Message, new_iso8583_message}
use longclaw.Iso.Edit.{get_field}
use longclaw.Iso.WellFormed.{IsWellFormed}
use longclaw.Iso.RoundTrip.{text, new_iso8583_message-text}
use longclaw.Network.Mti.{one_of, is_request_mti, is_response_mti, match_key, response_mti}
use longclaw.Network.Conn.{
  Conn, Queued, SentRequest, Times, Stuck, handle_message, parse_and_dispatch, dispatch,
  waiting_test, deliver, handle_response, match_response, write_next,
}
use longclaw.Network.Conn.FollowUp.{write_next-awaits}
use longclaw.Network.Frame.{frame, read_length_prefixed_message}
use longclaw.Network.Frame.Laws.{read_length_prefixed_message-frame}
use longclaw.Network.Client.{reply, client_loop}
use longclaw.Network.Client.Retyped.{
  financial_mti_set, financial-IsAnswered, body, retyped, retyped-text, retyped-IsWellFormed,
  reply-response_mti,
}

-- The key does not depend on the errors of the call that it stands in.
match_key-Stuck :
    (r reference key : Bytes)
    → length r ≡ 4
    → match_key {E = ⊥} r reference ≡ ok key
    → match_key {E = Stuck} r reference ≡ ok key
unfolding match_key slice index
match_key-Stuck [] reference key h e = absurd (omega (arith, h))
match_key-Stuck (a ∷ []) reference key h e = absurd (omega (arith, h))
match_key-Stuck (a ∷ b ∷ []) reference key h e = absurd (omega (arith, h))
match_key-Stuck (a ∷ b ∷ c ∷ []) reference key h e = absurd (omega (arith, h))
match_key-Stuck (a ∷ b ∷ c ∷ d ∷ []) reference key h e = ap ok (ok-injective e)
match_key-Stuck (a ∷ b ∷ c ∷ d ∷ x ∷ rest) reference key h e = absurd (omega (arith, h))

parse-retyped :
    (m : Message) (r : Bytes)
    → IsWellFormed m
    → length r ≡ 4
    → length (r ++ body m) ≤ max_int
    → new_iso8583_message (r ++ body m) m.iso_spec ≡ ok (retyped r m)
parse-retyped m r wf h room =
    let e = retyped-text m r wf.has_mti h in
    ap (λ t. new_iso8583_message t m.iso_spec) (sym e)
    ∙ new_iso8583_message-text (retyped r m) (retyped-IsWellFormed m r h wf) (rw e room)
    ∙ ap {A = Bytes} (λ t. ok (record m { message = t })) e

-- A response under an awaited key.
handle_message-response :
    (times : Times) (m : Message) (r msg key : Bytes) (request : SentRequest) (c : Conn)
    → 20 ≤ length msg
    → take 4 msg ≡ r
    → (bytes_eq r (codes "0810") || bytes_eq r (codes "0800")) ≡ false
    → is_request_mti r ≡ false
    → is_response_mti r ≡ true
    → new_iso8583_message msg m.iso_spec ≡ ok m
    → match_key {E = Stuck} r (get_field m 36) ≡ ok key
    → load key c.sent_times ≡ some request
    → handle_message m.iso_spec times msg c
      ≡ ok (
          match_response times m
            (get_field m 36)
            request
            (record c { sent_times = delete key c.sent_times }))
unfolding handle_message waiting_test deliver parse_and_dispatch dispatch handle_response
handle_message-response times m r msg key request c long front none_waits no_request is_response
      parsed keyed awaited =
    let read : slice {E = Stuck} msg 0 4 ≡ ok r =
      slice-ok {E = Stuck} msg 0 4 4 refl (omega (arith, long)) ∙ ap {A = Bytes} ok front in
    let no_test : waiting_test r msg c ≡ ok none = rw (waiting_test, none_waits) refl in
    rw
      (
        handle_message,
        ge→ltb (length msg) 20 long,
        read,
        no_test,
        deliver,
        parse_and_dispatch,
        parsed,
        dispatch,
        no_request,
        is_response,
        keyed,
        handle_response,
        awaited,
      )
      refl

length-answer :
    (m : Message) (r : Bytes)
    → length r ≡ 4
    → 20 ≤ length (text m)
    → length (r ++ body m) ≡ length (text m)
length-answer m r four long =
    let e = length-append r (body m) in
    let e' = length-drop 4 (text m) in omega (arith, e, e', four, long)

-- The answer, under the key of the request.
read_answer :
    (times : Times) (m : Message) (r key : Bytes) (request : SentRequest) (c : Conn)
    → IsWellFormed m
    → 20 ≤ length (text m)
    → length (text m) < 65536
    → length r ≡ 4
    → is_request_mti r ≡ false
    → is_response_mti r ≡ true
    → (bytes_eq r (codes "0810") || bytes_eq r (codes "0800")) ≡ false
    → match_key {E = ⊥} r (get_field m 36) ≡ ok key
    → load key c.sent_times ≡ some request
    → handle_message m.iso_spec times (r ++ body m) c
      ≡ ok (
          match_response times
            (retyped r m)
            (get_field m 36)
            request
            (record c { sent_times = delete key c.sent_times }))
unfolding get_field
read_answer times m r key request c wf long short four no_request is_response none_waits keyed
      awaited =
    let size = length-answer m r four long in
    handle_message-response times (retyped r m) r (r ++ body m) key request c
      (omega (arith, size, long)) (take-append r (body m) 4 (sym four)) none_waits no_request
      is_response (parse-retyped m r wf four (omega (arith, size, short)))
      (match_key-Stuck r (get_field m 36) key four keyed) awaited

-- One frame is read and answered by one.
pub client_loop_one :
    (message answer : Bytes)
    → length message < 65536
    → reply message ≡ some answer
    → client_loop 1 (frame message) ≡ frame answer ∷ []
unfolding client_loop
client_loop_one message answer h e =
    let read : read_length_prefixed_message (frame message) ≡ ok (message, []) =
      ap read_length_prefixed_message (sym (append-nil (frame message)))
      ∙ read_length_prefixed_message-frame message [] h in
    rw (read, client_loop, e) refl

-- A request of the load generator is written, with the text of a well-formed message of 20 to 65535
-- bytes, the message's type and its field 37 as the reference. Then the test client answers its frame
-- with one frame; and when the server reads that answer, it is parsed as the request with the response's
-- type, and is taken as the answer to this request, with the time of the write.
pub write_next-answered :
    (times : Times) (now : ℕ) (m : Message) (c : Conn) (q : Queued) (rest : List Queued)
    → IsWellFormed m
    → one_of (take 4 (text m)) financial_mti_set ≡ true
    → 20 ≤ length (text m)
    → length (text m) < 65536
    → c.write_channel ≡ q ∷ rest
    → bytes_eq q.reference [] ≡ false
    → q ≡ record {
      reference = get_field m 36;
      mti = take 4 (text m);
      stress_test_id = q.stress_test_id;
      raw_request = text m;
    }
    → (c' : Conn) × (answer : Bytes) × (key : Bytes) × (write_next now true c ≡ ok c')
      × (client_loop 1 (frame q.raw_request) ≡ frame answer ∷ [])
      × (handle_message m.iso_spec times answer c'
          ≡ ok (
              match_response times
                (record m { message = answer })
                q.reference
                (record { mti = q.mti; sent_at = now })
                (record c' { sent_times = delete key c'.sent_times })))
write_next-answered times now m c q rest wf financial long short queued tracked of_message =
    let (r, e, four, no_request, is_response, none_waits) =
      financial-IsAnswered (take 4 (text m)) financial (body m) in
    let e' : response_mti (text m) ≡ some r =
      ap response_mti (sym (take-append-drop 4 (text m))) ∙ e in
    let (c', key, f, keyed, awaited) =
      write_next-awaits now true c q rest (text m) r queued tracked
        (ap (λ (q' : Queued). q'.mti) of_message) e' in
    let answer = r ++ body m in
    let reference : q.reference ≡ get_field m 36 = ap (λ (q' : Queued). q'.reference) of_message in
    let loop : client_loop 1 (frame q.raw_request) ≡ frame answer ∷ [] =
      ap (λ (q' : Queued). client_loop 1 (frame q'.raw_request)) of_message
      ∙ client_loop_one (text m) answer short (reply-response_mti (text m) r e') in
    (
      c',
      answer,
      key,
      f,
      loop,
      read_answer times m r key (record { mti = q.mti; sent_at = now }) c' wf long short four
            no_request is_response none_waits
            (ap (λ t. match_key {E = ⊥} r t) (sym reference) ∙ keyed) awaited
          ∙ ap
              (λ t. ok (
                match_response times (record m { message = answer }) t
                  (record { mti = q.mti; sent_at = now })
                  (record c' { sent_times = delete key c'.sent_times })))
              (sym reference),
    )
