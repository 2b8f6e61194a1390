-- ===== src/Err.antt =====
-- The errors of src/err.rs that the channels return.
pub mod Texts

module _ {ℓ} where
  pub data SendError (A : Type ℓ) : Type ℓ where
    send_error : A → SendError A

  pub data TrySendError (A : Type ℓ) : Type ℓ where
    full : A → TrySendError A
    disconnected : A → TrySendError A

  pub data SendTimeoutError (A : Type ℓ) : Type ℓ where
    timeout : A → SendTimeoutError A
    disconnected : A → SendTimeoutError A

pub data RecvError : Type 0 where
  recv_error : RecvError

pub data TryRecvError : Type 0 where
  empty disconnected : TryRecvError

pub data RecvTimeoutError : Type 0 where
  timeout disconnected : RecvTimeoutError

pub data TrySelectError : Type 0 where
  try_select_error : TrySelectError

pub data SelectTimeoutError : Type 0 where
  select_timeout_error : SelectTimeoutError

module _ {ℓ} {A : Type ℓ} where
  -- `SendError::into_inner`, `TrySendError::into_inner`, `SendTimeoutError::into_inner`
  unfoldable pub into_inner : SendError A → A
  into_inner (send_error msg) = msg

  unfoldable pub try_into_inner : TrySendError A → A
  try_into_inner (full msg) = msg
  try_into_inner (TrySendError.disconnected msg) = msg

  unfoldable pub timeout_into_inner : SendTimeoutError A → A
  timeout_into_inner (timeout msg) = msg
  timeout_into_inner (SendTimeoutError.disconnected msg) = msg

  -- `TrySendError::from`, `SendTimeoutError::from`
  unfoldable pub try_from : SendError A → TrySendError A
  try_from (send_error msg) = TrySendError.disconnected msg

  unfoldable pub timeout_from : SendError A → SendTimeoutError A
  timeout_from (send_error msg) = SendTimeoutError.disconnected msg

-- `TryRecvError::from`, `RecvTimeoutError::from`
unfoldable pub recv_try_from : RecvError → TryRecvError
recv_try_from recv_error = TryRecvError.disconnected

unfoldable pub recv_timeout_from : RecvError → RecvTimeoutError
recv_timeout_from recv_error = RecvTimeoutError.disconnected
