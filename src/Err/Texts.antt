-- ===== src/Err/Texts.antt =====
-- `Debug`, `Display` and `Error` of the errors of src/err.rs, where they are not derived.
use Prim.Native.String.{String}
use crossbeam_channel.Common.{Option, none}
use crossbeam_channel.Err.{
  SendError, send_error, TrySendError, full, SendTimeoutError, RecvError, TryRecvError, empty,
  RecvTimeoutError, TrySelectError, SelectTimeoutError,
}

-- `Display` and `Error`; the cause is given by its text.
pub record Error (X : Type 0) : Type 0 where
  pub display : X → String
  pub description : X → String
  pub cause : X → Option String

module _ {A : Type 0} where
  unfoldable pub debug_send : SendError A → String
  debug_send (send_error msg) = "SendError(..)"

  unfoldable pub debug_try_send : TrySendError A → String
  debug_try_send (full msg) = "Full(..)"
  debug_try_send (TrySendError.disconnected msg) = "Disconnected(..)"

  unfoldable pub debug_send_timeout : SendTimeoutError A → String
  debug_send_timeout (SendTimeoutError.timeout msg) = "SendTimeoutError(..)"
  debug_send_timeout (SendTimeoutError.disconnected msg) = "SendTimeoutError(..)"

  unfoldable pub of_send : Error (SendError A)
  of_send = record {
    display = λ e. "sending on a disconnected channel";
    description = λ e. "sending on a disconnected channel";
    cause = λ e. none;
  }

  abbrev pub try_send_text : TrySendError A → String
  try_send_text (full msg) = "sending on a full channel"
  try_send_text (TrySendError.disconnected msg) = "sending on a disconnected channel"

  unfoldable pub of_try_send : Error (TrySendError A)
  of_try_send = record { display = try_send_text; description = try_send_text; cause = λ e. none }

  abbrev pub send_timeout_text : SendTimeoutError A → String
  send_timeout_text (SendTimeoutError.timeout msg) = "timed out waiting on send operation"
  send_timeout_text (SendTimeoutError.disconnected msg) = "sending on a disconnected channel"

  unfoldable pub of_send_timeout : Error (SendTimeoutError A)
  of_send_timeout = record {
    display = send_timeout_text;
    description = λ e. "sending on an empty and disconnected channel";
    cause = λ e. none;
  }

unfoldable pub of_recv : Error RecvError
of_recv = record {
  display = λ e. "receiving on an empty and disconnected channel";
  description = λ e. "receiving on an empty and disconnected channel";
  cause = λ e. none;
}

abbrev pub try_recv_text : TryRecvError → String
try_recv_text empty = "receiving on an empty channel"
try_recv_text TryRecvError.disconnected = "receiving on an empty and disconnected channel"

unfoldable pub of_try_recv : Error TryRecvError
of_try_recv = record { display = try_recv_text; description = try_recv_text; cause = λ e. none }

abbrev pub recv_timeout_text : RecvTimeoutError → String
recv_timeout_text RecvTimeoutError.timeout = "timed out waiting on receive operation"
recv_timeout_text RecvTimeoutError.disconnected = "channel is empty and disconnected"

unfoldable pub of_recv_timeout : Error RecvTimeoutError
of_recv_timeout = record {
  display = recv_timeout_text;
  description = recv_timeout_text;
  cause = λ e. none;
}

unfoldable pub of_try_select : Error TrySelectError
of_try_select = record {
  display = λ e. "all operations in select would block";
  description = λ e. "all operations in select would block";
  cause = λ e. none;
}

unfoldable pub of_select_timeout : Error SelectTimeoutError
of_select_timeout = record {
  display = λ e. "timed out waiting on select";
  description = λ e. "timed out waiting on select";
  cause = λ e. none;
}
