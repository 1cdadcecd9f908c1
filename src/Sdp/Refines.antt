-- ===== src/Sdp/Refines.antt =====
-- RemoteSdp (src/sdp/RemoteSdp.cpp) stands for a list of slots: the relation between the two.
pub mod Add
pub mod Reuse
pub mod Close
pub mod Place
pub mod Update
pub mod Call
pub mod Reach
pub mod Recycle
use libmediasouphandler.Base.{
  ℕ, String, Bool, true, false, Option, none, some, List, [], ◌∷◌, ◌++◌, ◌≡◌, refl, sym, ◌∙◌, ap,
  ◌==◌, if◌then◌else◌,
}
use libmediasouphandler.Json.{Json}
use libmediasouphandler.Sdp.RemoteSdp.State.{RemoteSdp}
use libmediasouphandler.Sdp.RemoteSdp.Store.{lookup}
use libmediasouphandler.Sdp.Slots.{Slot, position, WellFormed, head_mid, bundle}
use libmediasouphandler.Sdp.Shown.{Shown, objects}

-- The sections show the slots, the description has the sections' objects, and the map, the first
-- mid and the group BUNDLE are those of the slots.
pub record Refines (slots : List Slot) (r : RemoteSdp) : Type 0 where
  pub shown : Shown r.media_sections slots
  pub synced : r.sdp.media ≡ objects r.media_sections
  pub indexed : (mid : String) → lookup mid r.mid_to_index ≡ position mid slots
  pub well : WellFormed slots
  pub first : r.first_mid ≡ head_mid slots
  pub bundled : r.sdp.mids ≡ bundle slots
