-- ===== src/Tests/Sample.antt =====
-- A small specification, a message over it, an issuer and a connection.
use longclaw.Base.{
  ℕ, ◌-◌, ◌≡◌, refl, arith, false, Option, none, some, List, [], ◌∷◌, ◌++◌, Bytes, codes, ok, pos,
  update,
}
use longclaw.Iso.Spec.{FieldDef, IsoSpec, fill_map, field_kind}
use longclaw.Iso.Message.{
  Message, new_iso8583_message, take_chars, parse_bits, parse_bit, parse_message,
}
use longclaw.Iso.BitSet.{set_string, get_bit}
use longclaw.Strconv.{parse_uint, atoi}
use longclaw.Network.Response.{Env}
use longclaw.Network.Conn.{Times, Conn, Queued}

abbrev pub definition : ℕ → Bytes → ℕ → FieldDef
definition number kind size = record {
  field_no = pos number;
  field_name = [];
  field_description = [];
  field_type = kind;
  min_length = pos size;
  max_length = pos size;
}

abbrev pub sample_definitions : List FieldDef
sample_definitions =
    definition 2 (codes "LLVar") 0
    ∷ definition 4 (codes "Fixed") 12
    ∷ definition 37 (codes "Fixed") 12
    ∷ definition 39 (codes "Fixed") 2
    ∷ definition 123 (codes "LLLVar") 0
    ∷ []

unfoldable pub sample_spec : IsoSpec
unfolding fill_map
sample_spec = record {
  spec_name = codes "sample";
  field_definitions = sample_definitions;
  field_def_map = fill_map (λ k. none) sample_definitions;
}

abbrev pub sample_text : Bytes
sample_text =
    codes "0100D000000008000000"
    ++ (codes "0000000000000020164111111111111115" ++ codes "000000001000123456789012009CV051 123")

abbrev pub sample_fields : ℕ → Option Bytes
sample_fields =
    update
      (update (update (update (λ k. none) 1 (codes "4111111111111115")) 3 (codes "000000001000")) 36
        (codes "123456789012"))
      122 (codes "CV051 123")

unfoldable pub sample_message : Message
unfolding sample_spec
sample_message = record {
  message = sample_text;
  primary = record { word = 14987979560023228416 };
  secondary = some (record { word = 32 });
  fields = sample_fields;
  iso_spec = sample_spec;
}

pub sample_parses : new_iso8583_message sample_text sample_spec ≡ ok sample_message
unfolding new_iso8583_message take_chars set_string parse_uint get_bit parse_bits parse_bit
    parse_message field_kind atoi sample_message sample_spec
sample_parses = refl

-- A random number generator that always takes the last, and a clock that stands still.
abbrev pub sample_env : Env
sample_env = record {
  intn = λ n. n - 1;
  intn_lt = λ n h. omega arith;
  clock = codes "120000";
  four_fifths = λ z. z;
}

abbrev pub sample_request : Queued
sample_request = record {
  reference = codes "123456789012";
  mti = codes "0100";
  stress_test_id = 1;
  raw_request = sample_text;
}

-- One message waits to be written, another for its response, and that one has a follow-up.
abbrev pub sample_conn : Conn
sample_conn = record {
  connection_id = codes "10.0.0.1:99";
  write_channel = sample_request ∷ [];
  sent_times = (codes "0100|000000000001", record { mti = codes "0100"; sent_at = 5 }) ∷ [];
  follow_ups =
      (
        codes "000000000001",
        record { mti = codes "0420"; raw_message = sample_text; stress_test_id = 1 },
      )
      ∷ [];
  conn_tests = [];
  responding = [];
  socket = [];
  closed = false;
  db = record { writes = []; done = false };
  sent_count = 0;
  dropped_count = 0;
  unmatched_count = 0;
}

abbrev pub at_nine : Times
at_nine = record { received_at = 9; followed_at = 10 }
