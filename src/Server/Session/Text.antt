-- ===== src/Server/Session/Text.antt =====
-- server.rs: the text that a session answers with.
use noise_tunnel_rs.Base.{◌≡◌, ◌++◌, some, arith, ap, codes}
use noise_tunnel_rs.Base.Bytes.{Bytes}
use noise_tunnel_rs.Base.Utf8.{from_utf8, from_utf8_lossy, from_utf8-lossy}
use noise_tunnel_rs.Server.Session.{reply_to}

-- The echo of a text is that text behind a greeting, and a text itself.
pub reply_to-from_utf8 :
    (text : Bytes)
    → from_utf8 text ≡ some text
    → (reply_to text ≡ codes "Server mottok: " ++ text)
      × (from_utf8 (reply_to text) ≡ some (reply_to text))
unfolding reply_to from_utf8 from_utf8_lossy
reply_to-from_utf8 text h =
    let same = from_utf8-lossy text text h in
    (ap (λ (t : Bytes). codes "Server mottok: " ++ t) same, rw same (ground (arith, h)))
