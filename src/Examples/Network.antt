-- ===== src/Examples/Network.antt =====
-- A concrete transport for the examples: the frames on the request's stream, and those on the stream
-- that is opened next, which also takes what is sent on it.
use zel.Prelude.{
  ◌≡◌, refl, String, Bytes, Bool, true, false, Option, Result, ok, err, List, [], ◌∷◌, ◌++◌,
}
use zel.Client.Transport.{Transport}
use zel.Client.Calls.{Carries, first}
use zel.Streaming.Pipe.{Pipe}

abbrev pub Frames : Type 0
Frames = List Bytes × List Bytes

abbrev pub rest_of : List Bytes → List Bytes
rest_of [] = []
rest_of (f ∷ fs) = fs

abbrev sending : Bool → Bytes → Frames → Result (Unit {0}) String × Frames
sending false b w = (ok tt, w)
sending true b (q, a) = (ok tt, (q, a ++ b ∷ []))

abbrev pop : Bool → Frames → Option (Result Bytes String) × Frames
pop false (q, a) = (first q, (rest_of q, a))
pop true (q, a) = (first a, (q, rest_of a))

abbrev read : Frames → Result Bytes String × Frames
read (q, []) = (err "the end of the stream", (q, []))
read (q, b ∷ a) = (ok b, (q, a))

-- A stream is `false` for the request's, and `true` for the next one.
abbrev pub net : Transport
net = record {
  World = Frames;
  SendStream = Bool;
  RecvStream = Bool;
  open_bi = λ w. (ok (false, false), w);
  accept_bi = λ w. (ok (true, true), w);
  accept_uni = λ w. (ok true, w);
  send = sending;
  next = pop;
  read_exact = λ _ _ w. read w;
}

abbrev pub carried :
    (sent : Bytes) (frames a : List Bytes) → Carries net sent frames (frames, a) (rest_of frames, a)
carried sent frames a = record {
  stream = (false, false);
  world_opened = (frames, a);
  world_sent = (frames, a);
  opens = refl;
  sends = refl;
  gives = refl;
}

abbrev pub pipe : Pipe net true true
pipe = record {
  Holds = λ w q. w.1 ≡ q;
  push = λ w q b h. ((w.0, w.1 ++ b ∷ []), refl, λ i. h i ++ b ∷ []);
  pop = λ w q b h. ((w.0, rest_of w.1), rw h refl, rw h refl);
}
