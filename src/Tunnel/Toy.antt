-- ===== src/Tunnel/Toy.antt =====
-- The toy primitives keep every promise that the tunnel rests on.
use noise_tunnel_rs.Crypto.Toy.{toy, toy-AgreesOnSecrets, toy-ExpandsKeys, toy-SealsMessages}
use noise_tunnel_rs.Tunnel.Agreement.{Promises}

pub toy-Promises : Promises toy
toy-Promises = record {
  agrees = toy-AgreesOnSecrets;
  expands = toy-ExpandsKeys;
  sealing = toy-SealsMessages;
}
