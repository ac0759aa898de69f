-- ===== src/Header.antt =====
-- include/peerpaste/header.hpp: the common header of a message.
use peerpaste.Base.{if◌then◌else◌, Bytes, to_string, ℕ, Bool, true, false, [], ◌++◌}

pub record Header : Type 0 where
  pub t_flag : Bool
  pub ttl : ℕ  -- uint32_t
  pub message_length : ℕ  -- uint64_t
  pub request_type : Bytes
  pub transaction_id : Bytes
  pub correlational_id : Bytes
  pub version : Bytes
  pub response_code : Bytes

-- `Header()`.
abbrev pub default_header : Header
default_header = record {
  t_flag = false;
  ttl = 0;
  message_length = 0;
  request_type = [];
  transaction_id = [];
  correlational_id = [];
  version = [];
  response_code = [];
}

-- `Header(true, 0, 0, request_type, "", "", "")`.
abbrev pub request_header : Bytes → Header
request_header request_type = record default_header { t_flag = true; request_type = request_type }

unfoldable pub stringify : Header → Bytes
stringify h =
    to_string (if h.t_flag then 1 else 0)
    ++ (to_string h.ttl
        ++ (to_string h.message_length
            ++ (h.request_type
                ++ (h.transaction_id ++ (h.correlational_id ++ (h.version ++ h.response_code))))))

abbrev pub set_correlational_id : Header → Bytes → Header
set_correlational_id h id = record h { correlational_id = id }

-- The answer carries the identifier of the request as its correlational identifier.
unfoldable pub generate_response_header : Header → Header
generate_response_header h = record {
  t_flag = false;
  ttl = h.ttl;
  message_length = h.message_length;
  request_type = h.request_type;
  transaction_id = [];
  correlational_id = h.transaction_id;
  version = h.version;
  response_code = h.response_code;
}
