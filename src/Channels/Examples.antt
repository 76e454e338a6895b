-- ===== src/Channels/Examples.antt =====
-- Bytes that cross a wire, in both directions, and a watched byte.
use wiring.Base.{
  Result, sym, ap, length, ◌∙◌, flatten, ℕ, ◌≡◌, refl, some, List, [], ◌∷◌, ◌++◌, arith, ok,
}
use wiring.Wire.{Writes}
use wiring.Channels.{write_items, read_stream}
use wiring.Channels.Crossing.{
  stream-terminates, Matches, Advances, items-arrive, watch_sender-echoes,
}
use wiring.Channels.Ends.{
  unbounded_receiver_unwiring, unbounded_receiver_wiring, watch_receiver_wiring,
  unbounded_sender_unwiring, unbounded_sender_wiring, watch_sender_unwiring, watch_sender_wiring,
}
use wiring.Channels.Pairs.{into_channel, pair-exchanges}
use wiring.Decode.Async.{u8_async_unwiring}
use wiring.Decode.Takes.{u8-Takes}
use wiring.Encode.Numbers.{u8_wiring}

bytes-Match : Matches u8_wiring u8_async_unwiring
unfolding u8_wiring u8_async_unwiring flatten
bytes-Match = (λ x. (u8-Takes x, ground arith), λ x b e. cc)

u8-Advances : Advances u8_async_unwiring
unfolding u8_async_unwiring
u8-Advances [] x b' e = cc
u8-Advances (c ∷ cs) x b' e =
    let read : ◌≡◌ {A = Result (ℕ × List ℕ)} (ok (c, cs)) (ok (x, b')) = sym (u8-Takes c cs) ∙ e in
    let same : cs ≡ b' = cc in omega (arith, ap length same)

stream-terminates_example :
    (items : List ℕ) × (read_stream u8_async_unwiring 5 (1 ∷ (2 ∷ [])) ≡ some items)
stream-terminates_example = stream-terminates u8_async_unwiring u8-Advances 5 (1 ∷ (2 ∷ []))

abbrev two_writes : Writes
two_writes = u8_wiring.async_wiring 1 ++ u8_wiring.async_wiring 2

both_written : unbounded_receiver_wiring u8_wiring (ok tt) 2 (1 ∷ (2 ∷ (3 ∷ []))) ≡ ok two_writes
unfolding unbounded_receiver_wiring write_items u8_wiring
both_written = refl

both_sent : unbounded_sender_unwiring u8_wiring (ok tt) 2 (1 ∷ (2 ∷ (3 ∷ []))) ≡ ok two_writes
unfolding unbounded_sender_unwiring write_items u8_wiring
both_sent = refl

watched : watch_receiver_wiring u8_wiring (ok tt) 2 (1 ∷ (2 ∷ (3 ∷ []))) ≡ ok two_writes
unfolding watch_receiver_wiring write_items u8_wiring
watched = refl

items-arrive_example :
    (unbounded_receiver_unwiring u8_async_unwiring (ok (flatten two_writes)) 5
      ≡ ok (some (1 ∷ (2 ∷ []))))
    × (unbounded_sender_wiring u8_async_unwiring (ok (flatten two_writes)) 5
        ≡ ok (some (1 ∷ (2 ∷ []))))
items-arrive_example =
    items-arrive u8_wiring u8_async_unwiring bytes-Match 2 5 (1 ∷ (2 ∷ (3 ∷ []))) two_writes
      two_writes both_written both_sent

watch_sender-echoes_example :
    (back : Writes) × (watch_sender_unwiring u8_wiring u8_async_unwiring
        (ok (flatten (u8_wiring.async_wiring 1)))
        2
        []
        (9 ∷ [])
      ≡ ok (1, back))
    × (watch_sender_wiring u8_wiring u8_async_unwiring (ok (flatten back)) 5 1
        ≡ ok (u8_wiring.async_wiring 1, some (1 ∷ (9 ∷ []))))
watch_sender-echoes_example =
    watch_sender-echoes u8_wiring u8_async_unwiring bytes-Match 2 5 1 [] (9 ∷ [])

pair-exchanges_example :
    (out out' : Writes) × (into_channel u8_wiring u8_async_unwiring
        (flatten out')
        (ok tt)
        2
        5
        (1 ∷ (2 ∷ (3 ∷ [])))
      ≡ ok (out, some (8 ∷ [])))
    × (into_channel u8_wiring u8_async_unwiring (flatten out) (ok tt) 4 1 (8 ∷ [])
        ≡ ok (out', some (1 ∷ [])))
pair-exchanges_example =
    pair-exchanges u8_wiring u8_async_unwiring u8_wiring u8_async_unwiring bytes-Match bytes-Match 2
      4 1 5 (1 ∷ (2 ∷ (3 ∷ []))) (8 ∷ [])
