-- ===== src/Tools.antt =====
-- Small parts: threadctl/timeout.c, lib/bufargs.c, lib/ttymodes.c and lib/popen.c.
pub mod Timeout
pub mod BufArgs
pub mod TtyModes
pub mod Popen
