-- ===== src/Sdp/RemoteSdp/Scan.antt =====
-- The loops of RemoteSdp that read the media sections.
use Prim.Native.String.{◌++◌ as append}
use libmediasouphandler.Base.{ℕ, suc, String, Option, none, some, List, [], ◌∷◌, if◌then◌else◌}
use libmediasouphandler.Base.Text.{is_empty}
use libmediasouphandler.Base.Result.{Result, ok, ◌>>=◌}
use libmediasouphandler.Sdp.MediaSection.{MediaSection, get_mid, is_closed}

-- GetNextMediaSectionIdx from an index on: the first closed section's index and mid, or the index
-- after the last one and no mid.
unfoldable pub next_from : ℕ → List MediaSection → Result (ℕ × String)
unfolding is_closed get_mid
next_from idx [] = ok (idx, "")
next_from idx (m ∷ ms) = do
  closed ← is_closed m
  let rest = next_from (suc idx) ms
  if closed then (do mid ← get_mid m; ok (idx, mid)) else rest

abbrev pub append_mid : String → String → String
append_mid mids mid = if is_empty mids then mid else append mids (append " " mid)

-- The loop of RegenerateBundleMids, on the text so far.
unfoldable pub bundle_from : String → List MediaSection → Result String
unfolding is_closed get_mid
bundle_from mids [] = ok mids
bundle_from mids (m ∷ ms) = do
  closed ← is_closed m
  mids' ← if closed then ok mids else (do mid ← get_mid m; ok (append_mid mids mid))
  bundle_from mids' ms

-- find_if of the closed sections.
unfoldable pub first_closed : List MediaSection → Result (Option MediaSection)
unfolding is_closed
first_closed [] = ok none
first_closed (m ∷ ms) = do
  closed ← is_closed m
  let rest = first_closed ms
  if closed then ok (some m) else rest
