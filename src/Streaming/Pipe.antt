-- ===== src/Streaming/Pipe.antt =====
-- A stream whose two ends the program holds, as the transport promises it: frames come out in the
-- order in which they went in.
use zel.Prelude.{◌≡◌, Bytes, some, ok, List, [], ◌∷◌, ◌++◌}
use zel.Client.Transport.{Transport}

pub record Pipe (net : Transport) (tx : net.SendStream) (rx : net.RecvStream) : Type 1 where
  -- The frames on the way in a world.
  pub Holds : net.World → List Bytes → Type 0
  pub push :
      (w : net.World) (q : List Bytes) (b : Bytes)
      → Holds w q
      → (w' : net.World) × (net.send tx b w ≡ (ok tt, w')) × Holds w' (q ++ b ∷ [])
  pub pop :
      (w : net.World) (q : List Bytes) (b : Bytes)
      → Holds w (b ∷ q)
      → (w' : net.World) × (net.next rx w ≡ (some (ok b), w')) × Holds w' q
