-- ===== src/Amw0/Host.antt =====
-- What the transport of src/backends/amw0/transport.c gets from the C library: files that are written,
-- read and appended to, as operations on a world W. Nothing is assumed of what they do.
use kuangshi16pro_series_gm.Prelude.{ℕ, Bool, Option, List}
use kuangshi16pro_series_gm.Text.{Text}
use kuangshi16pro_series_gm.Status.{Status}

-- The values of `errno` that `map_errno` tells apart.
pub data Errno : Type 0 where
  eacces eperm enoent other : Errno

-- `map_errno`
abbrev pub map_errno : Errno → Status
map_errno Errno.eacces = Status.permission
map_errno Errno.eperm = Status.permission
map_errno Errno.enoent = Status.not_found
map_errno Errno.other = Status.io

-- A read of at most so many bytes: it fails to open or to read, or it gives the bytes and the result of
-- `fclose`.
pub data Reading : Type 0 where
  failed : Errno → Reading
  given : List ℕ → Option Errno → Reading

pub record Host (W : Type 0) : Type 0 where
  pub write_file : Text → Text → W → Option Errno × W  -- fopen "w", fprintf, fclose
  pub read_file : Text → ℕ → W → Reading × W  -- fopen "r", fread, fclose
  pub append_file : Text → Text → W → Bool × W  -- fopen "a", true if it opens; fprintf, fclose
