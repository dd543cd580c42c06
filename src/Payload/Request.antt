-- ===== src/Payload/Request.antt =====
-- components/hacan/protocol_request.cpp. The operation is the code of the `RequestOperation` passed.
use esphome_hacan.Base.{ℕ, not, ltb, ◌==◌, ◌||◌, ◌&&◌, if◌then◌else◌, Option, none, some, Bytes8}
use esphome_hacan.Payload.Value.{valid_endpoint}

pub record RequestPayload : Type 0 where
  pub transaction : ℕ
  pub endpoint : ℕ
  pub operation : ℕ
  pub argument : ℕ

abbrev pub get_state : ℕ
get_state = 1

abbrev pub get_node_info : ℕ
get_node_info = 2

abbrev pub get_endpoint_info : ℕ
get_endpoint_info = 3

unfoldable pub create : ℕ → ℕ → ℕ → ℕ → Option RequestPayload
unfolding valid_endpoint
create transaction endpoint operation argument =
    if ltb operation 1
      || ltb 3 operation
      || (operation == get_node_info && not (endpoint == 0))
      || (operation == get_endpoint_info && not (valid_endpoint endpoint))
    then none
    else some (record {
      transaction = transaction;
      endpoint = endpoint;
      operation = operation;
      argument = argument;
    })

unfoldable pub encode : RequestPayload → Bytes8
encode p = record {
  b0 = p.transaction;
  b1 = p.endpoint;
  b2 = p.operation;
  b3 = p.argument;
  b4 = 0;
  b5 = 0;
  b6 = 0;
  b7 = 0;
}
