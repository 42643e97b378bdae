-- ===== src/Server/Handler/Errors.antt =====
-- The statuses of the handler's errors against the table of mantalon-server/src/errors.rs.
use mantalon.Base.{Option, none, some, Text, ◌≡◌, arith}
use mantalon.Server.Handler.{
  Reply, invalid_address, incomplete_address, unsupported_protocol, no_connection, status,
  MantalonError, invalid_addr, missing_protocol, unsupported_protocol_error, connection_error,
  status_code,
}

-- The error of the table that a reply to the address stands for, where it has one.
abbrev pub error_of : Text → Reply → Option MantalonError
error_of addr invalid_address = some (invalid_addr addr)
error_of addr incomplete_address = some missing_protocol
error_of addr (unsupported_protocol p) = some (unsupported_protocol_error p)
error_of addr (no_connection ips) = some connection_error
error_of addr _ = none

-- Every reply of the handler that stands for an error of the table has the table's status.
status-status_code :
    (addr : Text) (reply : Reply) (e : MantalonError)
    → error_of addr reply ≡ some e
    → status reply ≡ status_code e
unfolding status status_code
status-status_code addr invalid_address e h = ground arith
status-status_code addr _ e h = ground arith
