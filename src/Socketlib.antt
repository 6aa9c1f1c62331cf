-- ===== src/Socketlib.antt =====
-- switchflow/socketlib/status.hpp, and the modules about sockets.
pub mod Os
pub mod Connection

-- `socketlib::STATUS`
pub data Status : Type 0 where
  complete : Status
  incomplete : Status
  read_incomplete : Status
  write_incomplete : Status
  connection_failed : Status
  src_closed : Status
  dest_closed : Status
  deny : Status
