-- ===== src/Client/Transport.antt =====
-- What client.rs and streaming.rs use of an `iroh` connection and of the length-delimited codec:
-- streams that carry whole frames, over a world that each operation may change. An error is kept as
-- its text.
use zel.Prelude.{ℕ, String, Bytes, Option, Result, Exec}

pub record Transport : Type 1 where
  pub World : Type 0
  pub SendStream : Type 0
  pub RecvStream : Type 0
  pub open_bi : Exec World String (SendStream × RecvStream)
  pub accept_bi : Exec World String (SendStream × RecvStream)
  pub accept_uni : Exec World String RecvStream
  pub send : SendStream → Bytes → Exec World String (Unit {0})
  -- The next frame, if the stream has not ended.
  pub next : RecvStream → World → Option (Result Bytes String) × World
  -- So many bytes, without framing.
  pub read_exact : RecvStream → ℕ → Exec World String Bytes
