-- ===== src/Server/Control/Pongs.antt =====
-- The keepalive of a tunnel's control stream: `serveControl` of internal/server/tunnel.go.
use tunel.Prelude.{
  ℕ, zero, suc, ◌≡◌, refl, List, [], ◌∷◌, ◌++◌, append-nil, append_assoc, sym, ◌∙◌, ap, take,
}
use tunel.Protocol.Messages.{Control, Message, MessageType, msg_ping, pong, encode}
use tunel.Server.Control.{serve_control}

abbrev pub pings : List MessageType → ℕ
pings [] = 0
pings (msg_ping ∷ rest) = suc (pings rest)
pings (type ∷ rest) = pings rest

abbrev pub pongs : ℕ → List Message
pongs zero = []
pongs (suc n) = pong ∷ pongs n

take-nil {ℓ} : {A : Type ℓ} (n : ℕ) → take {A = A} n [] ≡ []
take-nil zero = refl
take-nil (suc n) = refl

serve_control_from :
    (frames : List MessageType) (takes : ℕ) (sent : List Message)
    → (serve_control frames (record { sent = sent; takes = takes })).sent
      ≡ sent ++ take takes (pongs (pings frames))
unfolding serve_control encode
serve_control_from [] takes sent = sym (ap (λ l. sent ++ l) (take-nil takes) ∙ append-nil sent)
serve_control_from (msg_ping ∷ rest) zero sent = serve_control_from rest zero sent
serve_control_from (msg_ping ∷ rest) (suc n) sent =
    serve_control_from rest n (sent ++ (pong ∷ []))
    ∙ append_assoc sent (pong ∷ []) (take n (pongs (pings rest)))
serve_control_from (type ∷ rest) takes sent = serve_control_from rest takes sent

-- Each ping is answered by one pong, in order, until the stream takes no more, and no other frame is
-- answered.
pub serve_control-pongs :
    (frames : List MessageType) (control : Control)
    → (serve_control frames control).sent
      ≡ control.sent ++ take control.takes (pongs (pings frames))
serve_control-pongs frames control = serve_control_from frames control.takes control.sent
