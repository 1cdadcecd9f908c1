-- ===== src/Track.antt =====
-- The media stream tracks of WebRTC that producers and consumers share: a track is a number, and what
-- can be asked of it stands here. Only `enabled` changes.
use libmediasouphandler.Base.{ℕ, String, Bool, ◌≡◌, arith, eqb, if◌then◌else◌}

pub record Tracks : Type 0 where
  pub kind : ℕ → String
  pub ended : ℕ → Bool
  pub enabled : ℕ → Bool

-- track->set_enabled(b).
unfoldable pub set_enabled : ℕ → Bool → Tracks → Tracks
set_enabled t b tracks = record tracks { enabled = λ u. if eqb t u then b else tracks.enabled u }

pub enabled-set_enabled :
    (t : ℕ) (b : Bool) (tracks : Tracks) → (set_enabled t b tracks).enabled t ≡ b
unfolding set_enabled
enabled-set_enabled t b tracks = ground arith
