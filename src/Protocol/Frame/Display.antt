-- ===== src/Protocol/Frame/Display.antt =====
-- protocol/mod.rs: `WireFrame::summary`, and what can be told from it.
use noise_tunnel_rs.Base.{
  ◌≡◌, ◌++◌, length, drop, get_or, codes, if◌then◌else◌, ◌==◌, refl, ap, sym, ◌∙◌, ◌∷◌, [],
}
use noise_tunnel_rs.Base.Bytes.{Bytes, IsU64}
use noise_tunnel_rs.Base.Text.Decimal.{concat, to_string, to_string-injective, cancel_front}
use noise_tunnel_rs.Protocol.MessageType.{
  MessageType, handshake_init, handshake_resp, data_payload, heartbeat, close,
}
use noise_tunnel_rs.Protocol.MessageType.Display.{type_to_string}
use noise_tunnel_rs.Protocol.Frame.{WireFrame}

unfoldable pub summary : WireFrame → Bytes
unfolding type_to_string to_string
summary f = concat (
    codes "WireFrame(type="
    ∷ type_to_string f.msg_type
    ∷ codes ", nonce="
    ∷ to_string f.nonce
    ∷ codes ", payload_len="
    ∷ to_string (length f.payload)
    ∷ codes "B)"
    ∷ [])

-- The type of a text that starts with its name and ", nonce=": the tenth characters all differ.
abbrev type_of_text : Bytes → MessageType
type_of_text text =
    let c = get_or text 9 0 in
    if c == 73
    then handshake_init
    else if c == 82
    then handshake_resp
    else if c == 97
    then data_payload
    else if c == 44
    then heartbeat
    else close

type_of_text-type_to_string :
    (t : MessageType) (rest : Bytes)
    → type_of_text (type_to_string t ++ (codes ", nonce=" ++ rest)) ≡ t
unfolding type_to_string
type_of_text-type_to_string handshake_init rest = refl
type_of_text-type_to_string handshake_resp rest = refl
type_of_text-type_to_string data_payload rest = refl
type_of_text-type_to_string heartbeat rest = refl
type_of_text-type_to_string close rest = refl

-- What follows ", payload_len=", and what follows ", nonce=".
abbrev sized : WireFrame → Bytes
sized f = to_string (length f.payload) ++ codes "B)"

abbrev numbered : WireFrame → Bytes
numbered f = to_string f.nonce ++ (codes ", payload_len=" ++ sized f)

-- The summaries of two frames, with u64 nonces and payloads shorter than 2^64, are the same text
-- only if the frames have the same type, the same nonce and payloads of the same length.
summary-injective :
    (f g : WireFrame)
    → IsU64 f.nonce
    → IsU64 g.nonce
    → IsU64 (length f.payload)
    → IsU64 (length g.payload)
    → summary f ≡ summary g
    → (f.msg_type ≡ g.msg_type) × (f.nonce ≡ g.nonce) × (length f.payload ≡ length g.payload)
unfolding summary
summary-injective f g hf hg lf lg e =
    let text : type_to_string f.msg_type ++ (codes ", nonce=" ++ numbered f)
        ≡ type_to_string g.msg_type ++ (codes ", nonce=" ++ numbered g) =
      ap (drop 15) e in
    let same_type : f.msg_type ≡ g.msg_type =
      sym (type_of_text-type_to_string f.msg_type (numbered f))
      ∙ ap type_of_text text
      ∙ type_of_text-type_to_string g.msg_type (numbered g) in
    let tails : codes ", nonce=" ++ numbered f ≡ codes ", nonce=" ++ numbered g =
      cancel_front (type_to_string f.msg_type) _ _ (
        text
        ∙ ap (λ (t : MessageType). type_to_string t ++ (codes ", nonce=" ++ numbered g))
            (sym same_type)) in
    let (nonce, more) =
      to_string-injective f.nonce g.nonce 44 44 _ _ hf hg refl refl (ap (drop 8) tails) in
    let (size, _) =
      to_string-injective (length f.payload) (length g.payload) 66 66 _ _ lf lg refl refl
        (ap (drop 14) more) in
    (same_type, nonce, size)
