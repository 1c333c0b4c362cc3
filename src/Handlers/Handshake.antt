-- ===== src/Handlers/Handshake.antt =====
-- The handshake of src/handlers.rs: who is admitted, and to which group.
use easytier_wsrelay.Base.{
  [], ◌∷◌, ◌++◌, Option, none, some, Text, ◌==◌, ◌&&◌, ◌≡◌, ◌≢◌, get_or, refl, ap, sym, arith,
  if◌then◌else◌, text_eq, text_beq, text_beq_refl, text_beq_iff, unwrap_or, All, nat_eq,
}
use mathlib.Core.Path.{subst}
use easytier_wsrelay.Base.HashMap
use easytier_wsrelay.Base.HashMap.{HashMap, get-insert, get-insert_self}
use easytier_wsrelay.Constants.{magic}
use easytier_wsrelay.Proto.{HandshakeRequest, Externals}
use easytier_wsrelay.Handlers.{
  HandshakeOutcome, check_digest, admit, handle_handshake, group_key_of, response_packet,
}

-- The digest on record for `name` once a request for `network_name` with `digest` has been let
-- through: the one that was there before, or the new one where there was none.
abbrev pub first_digest : Text → Text → Text → Option Text → Option Text
first_digest network_name digest name (some old) = some old
first_digest network_name digest name none =
    if text_beq network_name name then some digest else none

get-check_digest :
    (network_name digest name : Text) (registry : HashMap Text Text)
    → HashMap.get name (unwrap_or (check_digest network_name digest registry) registry)
      ≡ first_digest network_name digest name (HashMap.get name registry)
unfolding check_digest
get-check_digest network_name digest name registry =
    ground (arith, get-insert network_name name digest registry, text_beq_iff network_name name)

registry-admit :
    (ext : Externals) (req : HandshakeRequest) (registry : HashMap Text Text)
    → (admit ext req registry).0
      ≡ unwrap_or
          (check_digest req.network_name (ext.hex req.network_secret_digest) registry)
          registry
unfolding admit
registry-admit ext req registry = ground arith

-- After a handshake that decodes every network name has the digest it had; a name without one
-- gets, if the magic number is right and the name is that of the request, the digest of the
-- request.
pub handle_handshake-first_digest :
    (ext : Externals) (payload name : Text) (req : HandshakeRequest) (registry : HashMap Text Text)
    → ext.handshake_request.decode payload ≡ some req
    → HashMap.get name (handle_handshake ext payload registry).0 ≡ (
        if req.magic == magic
        then first_digest req.network_name
            (ext.hex req.network_secret_digest)
            name
            (HashMap.get name registry)
        else HashMap.get name registry)
unfolding handle_handshake
handle_handshake-first_digest ext payload name req registry e = ground (
  arith,
  e,
  registry-admit ext req registry,
  get-check_digest req.network_name (ext.hex req.network_secret_digest) name registry,
)

-- A handshake that decodes is let in exactly if its magic number is right and its digest is the
-- one on record for its network, or the network has none yet; the peer then joins the group of
-- that network and digest, and is sent the server's answer.
pub handle_handshake_outcome :
    (ext : Externals) (payload : Text) (req : HandshakeRequest) (registry : HashMap Text Text)
    → ext.handshake_request.decode payload ≡ some req
    → (handle_handshake ext payload registry).1 ≡ (
        let digest = ext.hex req.network_secret_digest in
        if (req.magic == magic)
          && text_beq (unwrap_or (HashMap.get req.network_name registry) digest) digest
        then some (record {
          peer_id = req.my_peer_id;
          group_key = group_key_of req.network_name digest;
          domain_name = req.network_name;
          response_bytes = response_packet ext req.my_peer_id;
        })
        else none)
unfolding handle_handshake admit check_digest
handle_handshake_outcome ext payload req registry e = ground (
  arith,
  e,
  get-insert_self req.network_name (ext.hex req.network_secret_digest) registry,
  text_beq_refl (ext.hex req.network_secret_digest),
  text_beq_iff
      (unwrap_or (HashMap.get req.network_name registry) (ext.hex req.network_secret_digest))
      (ext.hex req.network_secret_digest),
)

-- Whoever is let in is sent the server's packet.
pub response_bytes-handle_handshake :
    (ext : Externals) (payload : Text) (registry : HashMap Text Text) (o : HandshakeOutcome)
    → (handle_handshake ext payload registry).1 ≡ some o
    → o.response_bytes ≡ response_packet ext o.peer_id
unfolding handle_handshake admit
response_bytes-handle_handshake ext payload registry o e = ground (arith, e)

abbrev tail : Text → Text
tail [] = []
tail (x ∷ xs) = xs

-- A text without a colon.
abbrev pub HasNoColon : Text → Type 0
HasNoColon = All (λ b. b ≢ b':')

split-HasNoColon : (xs d : Text) → HasNoColon (xs ++ b':' ∷ d) → ⊥
split-HasNoColon [] d h = h.0 refl
split-HasNoColon (x ∷ xs) d h = split-HasNoColon xs d h.1

-- Where the digests hold no colon, as hexadecimal digits do not, two equal group keys are of the
-- same network name and the same digest.
pub group_key_of-injective :
    (name name' d d' : Text)
    → HasNoColon d
    → HasNoColon d'
    → group_key_of name d ≡ group_key_of name' d'
    → (name ≡ name') × (d ≡ d')
unfolding group_key_of
group_key_of-injective [] [] d d' h h' e = (refl, ap tail e)
group_key_of-injective [] (y ∷ ys) d d' h h' e =
    absurd (split-HasNoColon ys d' (subst HasNoColon (ap tail e) h))
group_key_of-injective (x ∷ xs) [] d d' h h' e =
    absurd (split-HasNoColon xs d (subst HasNoColon (sym (ap tail e)) h'))
group_key_of-injective (x ∷ xs) (y ∷ ys) d d' h h' e =
    let r = group_key_of-injective xs ys d d' h h' (ap tail e) in
    (cc (ap (λ t. get_or t 0 0) e, r.0), r.1)
