-- ===== src/Client/Errors.antt =====
-- client.rs: the errors of client operations. Where the source wraps an error value of another
-- crate, the model keeps its text.
use zel.Prelude.{String}
use zel.Types.Errors.{ResourceError}

pub data ClientError : Type 0 where
  io : String → ClientError
  serialization : String → ClientError
  resource : ResourceError → ClientError
  connection : String → ClientError
  protocol : String → ClientError
