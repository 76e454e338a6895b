-- ===== src/Handshake/Configs.antt =====
-- wiring/src/core/mod.rs and wiring/src/core/wire.rs: wires over the connections that the repository has.
use wiring.Base.{ℕ, List, Bool, Option, Result, ◌≡◌, ok, some, err, unsupported, refl, ap, ◌∙◌}
use wiring.Config.{
  tcp_stream_config, buf_stream_config, tcp_split, buf_split, BufStream, buf_stream_with_capacity,
  ConnectConfig, config_with_capacity, opens,
}
use wiring.Connect.{ConnectInfo, tcp_stream, url}
use wiring.Handshake.{client_connect, listener_connect, wire_stream}
use wiring.Handshake.Talk.{Link, Talk}
use wiring.Listener.{Peer}

module _ {Url Tcp Read Write : Type 0} (connect : List ℕ → Result Tcp)
    (into_split : Tcp → Read × Write) where
  abbrev pub buffered_tcp : ℕ → ConnectConfig (ConnectInfo Url) Tcp (BufStream Read Write)
  buffered_tcp n =
      buf_stream_config (tcp_split into_split) (config_with_capacity n (tcp_stream_config connect))

module _ {Url Tcp Read Write : Type 0} (as_str : Url → List ℕ) (valid_utf8 : List ℕ → Bool)
    (from_str : List ℕ → Option Url) (connect : List ℕ → Result Tcp)
    (into_split : Tcp → Read × Write) where
  -- Over BufStreamConfig with TcpStreamConfig, connecting to a TcpStream address that is found gives
  -- a stream that splits into the halves of the TcpStream, both with the capacity of the
  -- configuration, and for a Url connect, of a client or where a listener runs, and stream of a wire
  -- fail with Unsupported, write nothing and leave the listener as it is.
  pub tcp-connects :
      (n : ℕ) (addr : List ℕ) (tcp : Tcp) (u : Url)
      (l : Link (BufStream Read Write) (ConnectInfo Url)) (p : Peer (ConnectInfo Url))
      (t : Talk (BufStream Read Write) (ConnectInfo Url))
      → connect addr ≡ ok tcp
      → l.connects ≡ opens (buffered_tcp {Url = Url} connect into_split n)
      → p.wire_info.connect_info ≡ url u
      → ((stream : BufStream Read Write) × (l.connects (tcp_stream addr) ≡ ok stream)
          × (buf_split stream
              ≡ ok (
                record { inner = (into_split tcp).0; capacity = n },
                record { inner = (into_split tcp).1; capacity = n },
              )))
        × (client_connect as_str valid_utf8 from_str l (url u) t ≡ some (err unsupported, t))
        × (listener_connect as_str valid_utf8 from_str l (url u) t ≡ some (err unsupported, t))
        × (wire_stream as_str valid_utf8 from_str l (some p) t ≡ some (err unsupported, t))
  unfolding tcp_stream_config buf_stream_config buf_split tcp_split buf_stream_with_capacity
      config_with_capacity client_connect listener_connect wire_stream
  tcp-connects n addr tcp u l p t found e to =
      let no_url : l.connects (url u) ≡ err unsupported =
        ap (λ (f : ConnectInfo Url → Result (BufStream Read Write)). f (url u)) e in
      let buffered : opens (buffered_tcp {Url = Url} connect into_split n) (tcp_stream addr)
          ≡ ok (record {
            reader = record { inner = (into_split tcp).0; capacity = n };
            writer = record { inner = (into_split tcp).1; capacity = n };
          }) =
        rw found refl in
      (
        (
          record {
            reader = record { inner = (into_split tcp).0; capacity = n };
            writer = record { inner = (into_split tcp).1; capacity = n };
          },
          ap (λ (f : ConnectInfo Url → Result (BufStream Read Write)). f (tcp_stream addr)) e
              ∙ buffered,
          refl,
        ),
        rw no_url refl,
        rw no_url refl,
        rw (to, no_url) refl,
      )
