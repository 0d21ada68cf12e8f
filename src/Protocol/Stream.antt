-- ===== src/Protocol/Stream.antt =====
-- The two halves of a connection as `read_exact`, `write_all` and `flush` see it: the bytes that
-- arrive before it ends, the bytes written so far, and how many more bytes it takes before it
-- fails. tokio's streams are not modelled further.
use noise_tunnel_rs.Base.{ℕ, ◌-◌, [], ◌++◌, length, take, drop, ltb, if◌then◌else◌}
use noise_tunnel_rs.Base.Bytes.{Bytes}
use noise_tunnel_rs.Action.{Action}
use noise_tunnel_rs.Error.{ok, err, unexpected_eof, connection_lost}

pub record Stream : Type 0 where
  pub incoming : Bytes
  pub outgoing : Bytes
  pub room : ℕ

abbrev pub connection : Bytes → Bytes → ℕ → Stream
connection incoming outgoing room = record { incoming = incoming; outgoing = outgoing; room = room }

-- Reads exactly `n` bytes; a stream that ends earlier is used up.
unfoldable pub read_exact : ℕ → Action Stream Bytes
read_exact n s =
    if ltb (length s.incoming) n
    then (record s { incoming = [] }, err unexpected_eof)
    else (record s { incoming = drop n s.incoming }, ok (take n s.incoming))

-- Writes all of `bytes`, or as much as the connection takes.
unfoldable pub write_all : Bytes → Action Stream (Unit {0})
write_all bytes s =
    if ltb s.room (length bytes)
    then (record s { outgoing = s.outgoing ++ take s.room bytes; room = 0 }, err connection_lost)
    else (record s { outgoing = s.outgoing ++ bytes; room = s.room - length bytes }, ok tt)

-- A TCP stream keeps no buffer of its own.
unfoldable pub flush : Action Stream (Unit {0})
flush s = (s, ok tt)
