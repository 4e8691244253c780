-- ===== src/Server/Control/Token.antt =====
-- The token of the server: `handleControl` of internal/server/connection.go.
use tunel.Prelude.{
  ◌≡◌, ◌≢◌, refl, List, Str, none, some, arith, str_eq_iff, Option-cases, inl, inr, ◌⊎◌, codes,
  ◌++◌,
}
use tunel.Protocol.Messages.{Auth, Control, MessageType, msg_auth, auth_err, encode}
use tunel.Server.Control.{
  Config, Server, Opening, unreadable, envelope, Decision, hang_up, refuse, valid_proto, check_auth,
  check_opening, handle_control,
}

-- The first frame does not show the token.
abbrev LacksToken : Config → Opening → Type 0
LacksToken cfg opening = (a : Auth) → opening ≡ envelope msg_auth (some a) → a.token ≢ cfg.token

abbrev IsRefusal : Decision → Type 0
IsRefusal d = (d ≡ hang_up) ⊎ ((reason : Str) × (d ≡ refuse reason))

check_auth_bad_token :
    (cfg : Config) (a : Auth) → a.token ≢ cfg.token → IsRefusal (check_auth cfg a)
unfolding check_auth
check_auth_bad_token cfg a bad = elim (Option-cases (valid_proto a.proto)) [
  | inl unknown ↦ inr (codes "unsupported proto: " ++ a.proto, ground arith)
  | inr (proto, known) ↦ inr (codes "bad token", ground (arith, str_eq_iff a.token cfg.token))
]

check_opening-IsRefusal :
    (cfg : Config) (opening : Opening)
    → LacksToken cfg opening
    → IsRefusal (check_opening cfg opening)
unfolding check_opening
check_opening-IsRefusal cfg unreadable lacks = inl refl
check_opening-IsRefusal cfg (envelope msg_auth none) lacks = inr (codes "bad auth payload", refl)
check_opening-IsRefusal cfg (envelope msg_auth (some a)) lacks =
    check_auth_bad_token cfg a (lacks a refl)
check_opening-IsRefusal cfg (envelope type payload) lacks =
    inr (codes "first frame must be auth", refl)

-- The server is as before, and the client has been sent nothing, or a refusal.
abbrev pub Harmless : Opening → List MessageType → Control → Server → Type 0
Harmless opening frames control s =
    ((handle_control opening frames control s).0 ≡ s)
    × (((handle_control opening frames control s).1 ≡ control)
        ⊎ ((reason : Str) × ((handle_control opening frames control s).1
              ≡ (encode (auth_err reason) control).0)))

-- A client whose first frame does not show the server's token changes nothing on the server, whatever
-- it sends afterwards, and all that it is sent is at most one refusal.
pub token_protects :
    (opening : Opening) (frames : List MessageType) (control : Control) (s : Server)
    → LacksToken s.config opening
    → Harmless opening frames control s
unfolding handle_control
token_protects opening frames control s lacks =
    elim (check_opening-IsRefusal s.config opening lacks) [
      | inl d ↦ rw (handle_control, d) (refl, inl refl)
      | inr (reason, d) ↦ rw (handle_control, d) (refl, inr (reason, refl))
    ]
