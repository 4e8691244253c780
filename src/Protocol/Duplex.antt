-- ===== src/Protocol/Duplex.antt =====
-- A data stream and a TCP socket that are joined, as internal/client/tunnel.go and internal/server/tunnel.go
-- join them: what the two give and when they end, in one order.
use tunel.Prelude.{Bool, true, false, List, [], ◌∷◌, ◌++◌, ℕ, if◌then◌else◌}

pub data Side : Type 0 where
  stream socket : Side

-- A read from a side gives bytes; or the copy from that side ends, by the end of what it gives or by an
-- error.
pub data Event : Type 0 where
  gives : Side → List ℕ → Event
  ends : Side → Event

abbrev pub same : Side → Side → Bool
same stream stream = true
same socket socket = true
same stream socket = false
same socket stream = false

-- What a side gives before it ends.
unfoldable pub sent : Side → List Event → List ℕ
sent s [] = []
sent s (gives t xs ∷ es) = let later = sent s es in if same t s then xs ++ later else later
sent s (ends t ∷ es) = let later = sent s es in if same t s then [] else later

unfoldable pub has_ended : Side → List Event → Bool
has_ended s [] = false
has_ended s (gives t xs ∷ es) = has_ended s es
has_ended s (ends t ∷ es) = let later = has_ended s es in if same t s then true else later

-- The events up to the end of the stream.
unfoldable pub until_end : List Event → List Event
until_end [] = []
until_end (gives t xs ∷ es) = gives t xs ∷ until_end es
until_end (ends stream ∷ es) = []
until_end (ends socket ∷ es) = ends socket ∷ until_end es
