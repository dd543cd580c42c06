-- ===== src/Runtime/Handle/Ignored.antt =====
-- The kinds that the runtime decodes and does nothing about.
use esphome_hacan.Base.{Bool, true, false}
use esphome_hacan.Types.{MessageKind}
use esphome_hacan.Runtime.Env.{Env}

-- The kinds that `handle` has no branch for.
abbrev pub is_ignored : MessageKind → Bool
is_ignored MessageKind.protocol_error = true
is_ignored MessageKind.announce = true
is_ignored MessageKind.heartbeat = true
is_ignored MessageKind.request = true
is_ignored MessageKind.response = true
is_ignored MessageKind.ack = true
is_ignored MessageKind.config_get = true
is_ignored MessageKind.config_set = true
is_ignored MessageKind.config_value = true
is_ignored MessageKind.diagnostic_request = true
is_ignored MessageKind.diagnostic_response = true
is_ignored MessageKind.time_sync = true
is_ignored _ = false
