-- ===== src/Tests/Issuer.antt =====
-- The issuer at the sample message, and at one whose field 123 stops it.
use longclaw.Base.{
  ◌≤◌, slice, ◌≡◌, ◌↔◌, refl, arith, true, false, [], Bytes, codes, length, leb, Go, ok, panic, pos,
}
use longclaw.Strconv.{number, atoi, parse_uint}
use longclaw.Strings.{index_of, string_of_byte}
use longclaw.Iso.Message.{Message}
use longclaw.Iso.Edit.{get_field, set_field}
use longclaw.Network.Mti.{one_of, is_request_mti, to_response_mti, match_key}
use longclaw.Network.Mti.Laws.{to_response_mti_key, repeat_mti_set}
use longclaw.Network.Field123.{extract_tag}
use longclaw.Network.Field123.Tags.{HasNegativeLength, extract_tag_panics}
use longclaw.Network.Response.{get_response_code, build_response}
use longclaw.Network.Response.Code.{known_codes, approvals, deciding, get_response_code_approves}
use longclaw.Network.Response.Reply.{Reply}
use longclaw.Network.Response.Answer.{build_response-Reply, build_response_panics}
use longclaw.Tests.Sample.{sample_message, sample_env}

ok_ne_panic : {v : Bytes} → ◌≡◌ {A = Go ⊥ Bytes} (ok v) panic → ⊥
ok_ne_panic e = cc

sample_room : 4 ≤ length sample_message.message
unfolding sample_message
sample_room = omega arith

no_av : HasNegativeLength (get_field sample_message 122) (codes "AV") → ⊥
unfolding sample_message get_field extract_tag index_of
no_av h = ok_ne_panic ((extract_tag_panics (codes "CV051 123") (codes "AV")).1 h)

no_cv : HasNegativeLength (get_field sample_message 122) (codes "CV") → ⊥
unfolding sample_message get_field extract_tag index_of atoi parse_uint slice
no_cv h = ok_ne_panic ((extract_tag_panics (codes "CV051 123") (codes "CV")).1 h)

build_response-Reply_example :
    (code : Bytes) × (resp : Message) × (get_response_code sample_env
        (get_field sample_message 1)
        (get_field sample_message 3)
        (get_field sample_message 122)
      ≡ ok code)
    × (build_response sample_env sample_message ≡ ok resp)
    × Reply sample_message code resp
build_response-Reply_example =
    build_response-Reply sample_env sample_message sample_room (unfold sample_message in refl) no_av
      no_cv

-- Field 123 gives the tag CV the length -5.
abbrev attack : Message
attack = set_field sample_message 122 (codes "CV-5")

attack-HasNegativeLength : HasNegativeLength (get_field attack 122) (codes "CV")
unfolding set_field get_field sample_message index_of atoi parse_uint
attack-HasNegativeLength = (0, 4, refl, omega arith, refl)

attack_room : 4 ≤ length attack.message
unfolding sample_message set_field
attack_room = omega arith

build_response_panics_example : build_response sample_env attack ≡ panic
build_response_panics_example =
    build_response_panics sample_env attack attack_room (unfold sample_message set_field in refl)
      attack-HasNegativeLength

seven : atoi (string_of_byte b'7') ≡ number (pos 7)
unfolding atoi parse_uint string_of_byte
seven = refl

-- A PAN that ends in 7 with an amount is declined.
get_response_code_approves_example :
    (code : Bytes) × (get_response_code sample_env
        (codes "4111111111111117")
        (codes "000000001000")
        []
      ≡ ok code)
    × (one_of code known_codes ≡ true)
    × (one_of code approvals ≡ leb (deciding (codes "000000001000") 7) 5)
get_response_code_approves_example =
    get_response_code_approves sample_env (codes "4111111111111117") (codes "000000001000") [] b'7'
      7 (omega arith) refl seven

to_response_mti_key_example :
    (match_key {E = ⊥} (to_response_mti (codes "0421")) (codes "7")
      ≡ match_key (codes "0421") (codes "7"))
    ↔ (one_of (codes "0421") repeat_mti_set ≡ false)
to_response_mti_key_example =
    to_response_mti_key (codes "0421") (codes "7") (unfold is_request_mti in refl)
