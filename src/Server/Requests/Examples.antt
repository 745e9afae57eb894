-- ===== src/Server/Requests/Examples.antt =====
-- The control handler on a swap.
use tarwyn.Base.{nat_eq}
