-- ===== src/Config.antt =====
-- wiring/src/core/mod.rs: `ConnectConfig` and `SplitStream` with their implementations. tokio's streams are parameters:
-- how one is connected, and how one is split. A BufReader or a BufWriter is what it is around, with its capacity.
use wiring.Base.{ℕ, ◌*◌, List, Result, ok, err, ◌>>=◌, unsupported}
use wiring.Connect.{ConnectInfo, tcp_stream, url}

pub record ConnectConfig (Info Raw Stream : Type 0) : Type 0 where
  pub connect_stream : Info → Result Raw
  pub enhance_stream : Raw → Result Stream

-- `connect_stream` and then `enhance_stream`, as `connect` and `stream` call them.
abbrev pub opens : {Info Raw Stream : Type 0} → ConnectConfig Info Raw Stream → Info → Result Stream
opens c info = c.connect_stream info >>= λ raw. c.enhance_stream raw

abbrev pub SplitStream : Type 0 → Type 0 → Type 0 → Type 0
SplitStream Stream Read Write = Stream → Result (Read × Write)

-- `split` that the trait provides, and that of `Cursor<Vec<u8>>`.
unfoldable pub provided_split : {Stream Read Write : Type 0} → SplitStream Stream Read Write
provided_split s = err unsupported

unfoldable pub cursor_split : {Stream : Type 0} → SplitStream Stream Stream Stream
cursor_split s = err unsupported

-- Of a TcpStream and of an IoSplit, by tokio's `into_split` and `split`.
unfoldable pub tcp_split :
    {Stream Read Write : Type 0} → (Stream → Read × Write) → SplitStream Stream Read Write
tcp_split into_split s = ok (into_split s)

unfoldable pub io_split :
    {Stream Read Write : Type 0} → (Stream → Read × Write) → SplitStream Stream Read Write
io_split split s = ok (split s)

pub record Buffered (A : Type 0) : Type 0 where
  pub inner : A
  pub capacity : ℕ

pub record BufStream (Read Write : Type 0) : Type 0 where
  pub reader : Buffered Read
  pub writer : Buffered Write

module _ {Stream Read Write : Type 0} (split : SplitStream Stream Read Write) where
  unfoldable pub buf_stream_with_capacity : ℕ → Stream → Result (BufStream Read Write)
  buf_stream_with_capacity n s = split s >>= λ p. ok (record {
    reader = record { inner = p.0; capacity = n };
    writer = record { inner = p.1; capacity = n };
  })

  -- `BufStream::new`, with the capacities that tokio chooses.
  pub new_buf_stream : ℕ → ℕ → Stream → Result (BufStream Read Write)
  new_buf_stream read_default write_default s = split s >>= λ p. ok (record {
    reader = record { inner = p.0; capacity = read_default };
    writer = record { inner = p.1; capacity = write_default };
  })

unfoldable pub buf_split :
    {Read Write : Type 0} → SplitStream (BufStream Read Write) (Buffered Read) (Buffered Write)
buf_split s = ok (s.reader, s.writer)

-- `TcpStreamConfig`, by tokio's `TcpStream::connect`.
unfoldable pub tcp_stream_config :
    {Url Tcp : Type 0} → (List ℕ → Result Tcp) → ConnectConfig (ConnectInfo Url) Tcp Tcp
tcp_stream_config connect = record {
  connect_stream = λ info. elim info [ tcp_stream addr ↦ connect addr | url u ↦ err unsupported ];
  enhance_stream = λ raw. ok raw;
}

-- `BufStreamConfig`.
pub record BufStreamConfig (Info Raw Stream : Type 0) : Type 0 where
  pub capacity : ℕ
  pub inner_config : ConnectConfig Info Raw Stream

module _ {Info Raw Stream : Type 0} where
  unfoldable pub new_config : ConnectConfig Info Raw Stream → BufStreamConfig Info Raw Stream
  new_config config = record { capacity = 8 * 1024; inner_config = config }

  unfoldable pub config_with_capacity :
      ℕ → ConnectConfig Info Raw Stream → BufStreamConfig Info Raw Stream
  config_with_capacity n config = record { capacity = n; inner_config = config }

  unfoldable pub buf_stream_config :
      {Read Write : Type 0}
      → SplitStream Stream Read Write
      → BufStreamConfig Info Raw Stream
      → ConnectConfig Info Raw (BufStream Read Write)
  unfolding buf_stream_with_capacity
  buf_stream_config split c = record {
    connect_stream = c.inner_config.connect_stream;
    enhance_stream =
        λ raw. c.inner_config.enhance_stream raw >>= buf_stream_with_capacity split c.capacity;
  }
