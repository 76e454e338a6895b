-- ===== src/Listener/Examples.antt =====
-- The theorems about the listener at concrete inputs.
use wiring.Base.{ℕ, true, List, [], ◌∷◌, none, some, ◌≡◌, refl, ◌<◌}
use wiring.Listener.{
  Listener, handle, Chances, new_listener, Effect, signal_wire_drop, incoming_wire, WireStream,
  outgoing_wire, reply_wire, new_wire, get, drop_wire, outgoing, register, watch,
}
use wiring.Listener.Forward.{forwarded_drop_removes}
use wiring.Listener.Watch.{Watched, handle-Watched}

abbrev draws : Chances
draws = record {
  wire_ids = 5 ∷ (6 ∷ []);
  access_key = 77;
  info_error = none;
  forward_error = none;
  receives = λ ch. true;
  handles = true;
}

abbrev fresh : Listener ℕ
fresh = new_listener 1

fresh-Watched : Watched fresh
fresh-Watched id e found = cc

abbrev with_wire : Listener ℕ
with_wire = record fresh { wires = (5, (77, 0)) ∷ []; watching = (0, 5) ∷ []; next_channel = 1 }

with_wire_step :
    handle {Stream = ℕ} (outgoing_wire 9 none) draws fresh
    ≡ some (with_wire, reply_wire (new_wire 9 5 77 none fresh) ∷ [])
unfolding handle outgoing register watch
with_wire_step = refl

handle-Watched_example : Watched with_wire
handle-Watched_example =
    handle-Watched (outgoing_wire 9 none) draws fresh with_wire
      (reply_wire (new_wire 9 5 77 none fresh) ∷ []) fresh-Watched with_wire_step

forwarded_drop_removes_example :
    (s1 s2 s3 : Listener ℕ) × (effects : List (Effect ℕ ℕ)) × (wire : WireStream ℕ ℕ) × (handle
        (incoming_wire 8 none (some (4, 1)) true)
        draws
        fresh
      ≡ some (s1, effects))
    × (get 5 s1.wires ≡ get 5 fresh.wires)
    × (s1.watching ≡ (0, 5) ∷ fresh.watching)
    × (fresh.next_channel < s1.next_channel)
    × (handle {Stream = ℕ} (outgoing_wire 9 none) draws s1 ≡ some (s2, reply_wire wire ∷ []))
    × (get 5 s2.wires ≡ some (77, s1.next_channel))
    × (handle {Stream = ℕ} (drop_wire 5) draws (signal_wire_drop 0 5 s2) ≡ some (s3, []))
    × (get 5 s3.wires ≡ none)
forwarded_drop_removes_example =
    forwarded_drop_removes 8 9 none none none true (4, 1) draws draws draws 5 fresh refl refl refl
      refl
