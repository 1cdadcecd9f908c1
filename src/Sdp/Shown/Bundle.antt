-- ===== src/Sdp/Shown/Bundle.antt =====
-- RegenerateBundleMids of src/sdp/RemoteSdp.cpp on sections that show slots.
use Prim.Native.String.{◌++◌}
use text.Mathlib.TextLemmas.{append_assoc, cons-append}
use libmediasouphandler.Base.{
  String, false, List, [], ◌∷◌, ◌≡◌, refl, ◌∙◌, ap, Bool-cases, inl, inr, if◌then◌else◌,
}
use libmediasouphandler.Base.Text.{is_empty, join}
use libmediasouphandler.Base.Result.{ok}
use libmediasouphandler.Json.{Pairwise}
use libmediasouphandler.Sdp.MediaSection.{MediaSection}
use libmediasouphandler.Sdp.RemoteSdp.Scan.{bundle_from, append_mid}
use libmediasouphandler.Sdp.Slots.{Slot, Named, open_mids, bundle}
use libmediasouphandler.Sdp.Shown.Section.{Shows}

-- The loop over slots.
abbrev gather : String → List Slot → String
gather mids [] = mids
gather mids (s ∷ ss) = gather (if s.closed then mids else append_mid mids s.mid) ss

bundle_from-gather :
    (mids : String) (ms : List MediaSection) (ss : List Slot)
    → Pairwise Shows ms ss
    → bundle_from mids ms ≡ ok (gather mids ss)
unfolding bundle_from
bundle_from-gather mids [] (s ∷ ss) h = elim h [ ]
bundle_from-gather mids (m ∷ ms) [] h = elim h [ ]
bundle_from-gather mids [] [] h = refl
bundle_from-gather mids (m ∷ ms) (s ∷ ss) h = elim (Bool-cases s.closed) [
  | inl e ↦ rw (h.0.1, e) (bundle_from-gather mids ms ss h.1)
  | inr e ↦ rw (h.0.1, e, h.0.0) (bundle_from-gather (append_mid mids s.mid) ms ss h.1)
]

append-nonempty : (a b : String) → is_empty a ≡ false → is_empty (a ++ b) ≡ false
append-nonempty String.[] b h = cc
append-nonempty (String.◌∷◌ c a) b h = rw (cons-append c a b) refl

join_merge :
    (sep a b : String) (rest : List String)
    → join sep ((a ++ sep ++ b) ∷ rest) ≡ join sep (a ∷ b ∷ rest)
unfolding join
join_merge sep a b [] = refl
join_merge sep a b (c ∷ rest) = simp append_assoc

gather-join :
    (mids : String) (ss : List Slot)
    → is_empty mids ≡ false
    → gather mids ss ≡ join " " (mids ∷ open_mids ss)
unfolding join
gather-join mids [] h = refl
gather-join mids (s ∷ ss) h = elim (Bool-cases s.closed) [
  | inl e ↦ rw e (gather-join mids ss h)
  | inr e ↦
      rw (e, h)
        (gather-join (mids ++ " " ++ s.mid) ss (append-nonempty mids (" " ++ s.mid) h)
          ∙ join_merge " " mids s.mid (open_mids ss))
]

gather-bundle : (ss : List Slot) → Named ss → gather "" ss ≡ bundle ss
unfolding bundle
gather-bundle [] n = refl
gather-bundle (s ∷ ss) n = elim (Bool-cases s.closed) [
  | inl e ↦ rw e (gather-bundle ss n.1)
  | inr e ↦ rw e (gather-join s.mid ss n.0)
]

-- The group names the open sections' mids, with spaces between them.
pub bundle_from-Shown :
    (ms : List MediaSection) (ss : List Slot)
    → Pairwise Shows ms ss
    → Named ss
    → bundle_from "" ms ≡ ok (bundle ss)
bundle_from-Shown ms ss h n = bundle_from-gather "" ms ss h ∙ ap ok (gather-bundle ss n)
