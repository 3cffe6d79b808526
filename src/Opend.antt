-- ===== src/Opend.antt =====
-- The open server: opend/client.c, opend/request.c, opend.fe/cliargs.c, the client side
-- of open/open.c, and the descriptor passing of lib/sendfd.c, lib/senderr.c and lib/recvfd.c under them.
pub mod Pass
pub mod Request
pub mod Clients
pub mod Loop
