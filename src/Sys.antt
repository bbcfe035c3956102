-- ===== src/Sys.antt =====
-- What the program sees of the operating system: error numbers and the results of calls. The
-- results themselves are inputs of the model.
use cnginx.Common.{ℕ}
use cnginx.Common.Memory.{Bytes}

-- EWOULDBLOCK is EAGAIN on Linux.
pub data Errno : Type 0 where
  eagain eintr econnreset econnaborted emfile enfile enosys enospc echild : Errno
  other : ℕ → Errno

-- recv(): the bytes that it stored (at least one), 0 for a close by the peer, or -1.
pub data RecvResult : Type 0 where
  got : Bytes → RecvResult
  closed : RecvResult
  failed : Errno → RecvResult
