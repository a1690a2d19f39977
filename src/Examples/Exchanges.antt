-- ===== src/Examples/Exchanges.antt =====
-- A notification over a stream with a queue for each direction.
use zel.Prelude.{
  ◌≡◌, refl, String, Bytes, Bool, true, false, Option, none, some, Result, ok, err, [], ◌∷◌, ◌++◌,
}
use zel.Types.Protocol.{NotificationMsg}
use zel.Client.Transport.{Transport}
use zel.Client.Calls.{first}
use zel.Macros.Typed.Exchange.{Duplex}
use zel.Macros.Typed.Session.{send_items, turn, send_items-session}
use zel.Examples.Codec.{codec, put_notification}
use zel.Examples.Network.{Frames, rest_of}
use zel.Examples.Values.{leaf, trees}

-- The client's end is `true`, the server's `false`: the frames on the way out, and those on the way
-- back.
abbrev push : Bool → Bytes → Frames → Result (Unit {0}) String × Frames
push true b (out, back) = (ok tt, (out ++ b ∷ [], back))
push false b (out, back) = (ok tt, (out, back ++ b ∷ []))

abbrev pop : Bool → Frames → Option (Result Bytes String) × Frames
pop true (out, back) = (first back, (out, rest_of back))
pop false (out, back) = (first out, (rest_of out, back))

abbrev net : Transport
net = record {
  World = Frames;
  SendStream = Bool;
  RecvStream = Bool;
  open_bi = λ w. (ok (true, true), w);
  accept_bi = λ w. (ok (false, false), w);
  accept_uni = λ w. (ok false, w);
  send = push;
  next = pop;
  read_exact = λ _ _ w. (err "no raw bytes", w);
}

abbrev duplex : Duplex net true true false false
duplex = record {
  Holds = λ w out back. ◌≡◌ {A = Frames} w (out, back);
  push_out = λ w out back b h. ((w.0 ++ b ∷ [], w.1), refl, λ i. ((h i).0 ++ b ∷ [], (h i).1));
  pop_out = λ w out back b h. (
    (rest_of w.0, w.1),
    (λ i. (first (h i).0, (rest_of w.0, w.1))),
    λ i. (rest_of (h i).0, (h i).1),
  );
  push_back = λ w out back b h. ((w.0, w.1 ++ b ∷ []), refl, λ i. ((h i).0, (h i).1 ++ b ∷ []));
  pop_back = λ w out back b h. (
    (w.0, rest_of w.1),
    (λ i. (first (h i).1, (w.0, rest_of w.1))),
    λ i. ((h i).0, rest_of (h i).1),
  );
}

abbrev encoded : (m : NotificationMsg) → (b : Bytes) × (codec.notification.to_vec m ≡ ok b)
encoded m = (put_notification m, refl)

send_items-session_example :
    (after done : Frames) × (send_items net codec trees "u64" true true false false duplex encoded 0
        (leaf 5 ∷ leaf 6 ∷ [])
        (([], []), [])
      ≡ (ok tt, (after, some (some (ok (leaf 5))) ∷ some (some (ok (leaf 6))) ∷ [])))
    × (turn net codec trees "u64" true true false false duplex encoded 0 after ≡ (some none, done))
    × (done ≡ ([], []))
send_items-session_example =
    send_items-session net codec trees "u64" true true false false duplex encoded 0
      (leaf 5 ∷ leaf 6 ∷ []) ([], []) [] ((tt, 0 ∷ 5 ∷ [], refl), ((tt, 0 ∷ 6 ∷ [], refl), tt)) refl
