-- ===== src/Buffer/Completion.antt =====
-- liboac/include/liboac/buffer/asio_handler.h: the end of an asynchronous call. What the handler is
-- given, an `attempt<std::size_t>`, is the result.
use open_airbus_cockpit.Prelude.{ℕ, ok, throws}
use open_airbus_cockpit.Exception.{eof_error, connection_reset, boost_asio_error, Method}

-- `boost::system::error_code` as the handler tells its values apart.
pub data ErrorCode : Type 0 where
  success eof connection_aborted connection_was_reset : ErrorCode
  other : ℕ → ErrorCode

pub complete : {S : Type 0} → (ℕ → S → S) → ErrorCode → ℕ → Method S ℕ
complete update_index success nbytes s = (ok nbytes, update_index nbytes s)
complete update_index eof nbytes s = (throws eof_error, s)
complete update_index connection_aborted nbytes s = (throws connection_reset, s)
complete update_index connection_was_reset nbytes s = (throws connection_reset, s)
complete update_index (other code) nbytes s = (throws (boost_asio_error code), s)
