-- ===== src/Sdp/RemoteSdp.antt =====
-- The class RemoteSdp of src/sdp/RemoteSdp.cpp: the media sections, the indices of their mids, and
-- the session description.
pub mod Store
pub mod State
pub mod Scan
use Prim.Native.String.{◌++◌ as append}
use libmediasouphandler.Base.{
  ℕ, zero, suc, ◌+◌, ◌-◌, ◌%◌, ◌^◌, String, Bool, true, false, ◌||◌, Option, none, some, List, [],
  ◌∷◌, ◌++◌, ◌==◌, eqb, if◌then◌else◌,
}
use libmediasouphandler.Base.Text.{is_empty}
use libmediasouphandler.Base.Result.{Result, ok, err, json_error, undefined}
use libmediasouphandler.Base.State.{Method, ◌>>=◌, ◌>>◌, lift, pure, read, modify}
use libmediasouphandler.Json.{
  Json, int, null, number_unsigned, str, arr, to_list, array, object, find, member_or_null,
  assign_member, length,
}
use libmediasouphandler.Sdp.MediaSection.{
  MediaSection, get_mid, is_closed, get_object, set_ice_parameters, set_dtls_role,
}
use libmediasouphandler.Sdp.MediaSection as Section
use libmediasouphandler.Sdp.MediaSection.Codecs.{ShowFloat}
use libmediasouphandler.Sdp.MediaSection.Answer.{new_answer}
use libmediasouphandler.Sdp.MediaSection.Offer.{new_offer}
use libmediasouphandler.Sdp.RemoteSdp.State.{
  SdpObject, sdp_object, RemoteSdp, is_some, new_remote_sdp,
}
use libmediasouphandler.Sdp.RemoteSdp.Scan.{next_from, bundle_from, first_closed}
use libmediasouphandler.Sdp.RemoteSdp.Store.{lookup, insert, remove, element_at, replace_at, put_at}

-- sdpObject["icelite"] is never taken away.
unfoldable pub mark_icelite : Json → RemoteSdp → RemoteSdp
unfolding find
mark_icelite ice r = record r {
  sdp = record r.sdp { icelite = is_some (find "iceLite" ice) || r.sdp.icelite };
}

unfoldable pub put_section : ℕ → MediaSection → RemoteSdp → RemoteSdp
unfolding replace_at
put_section idx m r = record r { media_sections = replace_at idx m r.media_sections }

-- sdpObject["media"][idx] = mediaSection->GetObject();
unfoldable pub put_media : ℕ → MediaSection → RemoteSdp → RemoteSdp
unfolding put_at get_object
put_media idx m r = record r {
  sdp = record r.sdp { media = put_at idx (get_object m) r.sdp.media };
}

-- The loops of the updates, from an index on.
unfoldable pub update_from :
    (MediaSection → Result MediaSection) → ℕ → List MediaSection → Method RemoteSdp (Unit {0})
unfolding put_section put_media
update_from f idx [] = pure tt
update_from f idx (m ∷ ms) = do
  m' ← lift (f m)
  modify (put_section idx m')
  modify (put_media idx m')
  update_from f (suc idx) ms

unfoldable pub update_ice_parameters : Json → Method RemoteSdp (Unit {0})
unfolding update_from set_ice_parameters mark_icelite
update_ice_parameters ice = do
  modify (λ r. record r { ice_parameters = ice })
  modify (mark_icelite ice)
  λ r. update_from (set_ice_parameters ice) 0 r.media_sections r

unfoldable pub update_dtls_role : String → Method RemoteSdp (Unit {0})
unfolding update_from set_dtls_role assign_member mark_icelite
update_dtls_role role = do
  dtls ← read (λ r. r.dtls_parameters)
  dtls' ← lift (assign_member "role" (some (str role)) dtls)
  modify (λ r. record r { dtls_parameters = dtls' })
  modify (λ r. mark_icelite r.ice_parameters r)
  λ r. update_from (λ m. ok (set_dtls_role role m)) 0 r.media_sections r

unfoldable pub get_next_media_section_idx : RemoteSdp → Result (ℕ × String)
unfolding next_from
get_next_media_section_idx r = next_from 0 r.media_sections

unfoldable pub regenerate_bundle_mids : Method RemoteSdp (Unit {0})
unfolding bundle_from
regenerate_bundle_mids = do
  sections ← read (λ r. r.media_sections)
  mids ← lift (bundle_from "" sections)
  modify (λ r. record r { sdp = record r.sdp { mids = mids } })

unfoldable pub note_first : MediaSection → Method RemoteSdp (Unit {0})
unfolding get_mid
note_first m = do mid ← lift (get_mid m); modify (λ r. record r { first_mid = mid })

unfoldable pub note_index : ℕ → MediaSection → Method RemoteSdp (Unit {0})
unfolding get_mid insert
note_index idx m = do
  mid ← lift (get_mid m)
  modify (λ r. record r { mid_to_index = insert mid idx r.mid_to_index })

unfoldable pub add_media_section : MediaSection → Method RemoteSdp (Unit {0})
unfolding get_object regenerate_bundle_mids note_first note_index
add_media_section m = do
  first ← read (λ r. r.first_mid)
  if is_empty first then note_first m else pure tt
  modify (λ r. record r { media_sections = r.media_sections ++ (m ∷ []) })
  size ← read (λ r. length r.media_sections)
  note_index (size - 1) m
  modify (λ r. record r { sdp = record r.sdp { media = r.sdp.media ++ (get_object m ∷ []) } })
  regenerate_bundle_mids

abbrev or_zero : Option ℕ → ℕ
or_zero none = 0
or_zero (some n) = n

-- midToIndex[mid], which puts index 0 in for a mid that is not there.
unfoldable pub index_of : String → Method RemoteSdp ℕ
unfolding lookup insert
index_of mid = do
  idx ← read (λ r. or_zero (lookup mid r.mid_to_index))
  modify (λ r. record r { mid_to_index = insert mid idx r.mid_to_index })
  pure idx

abbrev present_section : Option MediaSection → Result MediaSection
present_section none = err undefined
present_section (some m) = ok m

-- mediaSections[idx].
unfoldable pub section_at : ℕ → Method RemoteSdp MediaSection
unfolding element_at
section_at idx r = (present_section (element_at idx r.media_sections), r)

-- ReplaceMediaSection with a mid to reuse.
unfoldable pub reuse_media_section : MediaSection → String → Method RemoteSdp (Unit {0})
unfolding remove get_mid regenerate_bundle_mids index_of section_at put_section note_index put_media
reuse_media_section m reuse_mid = do
  idx ← index_of reuse_mid
  old ← section_at idx
  modify (put_section idx m)
  old_mid ← lift (get_mid old)
  modify (λ r. record r { mid_to_index = remove old_mid r.mid_to_index })
  note_index idx m
  modify (put_media idx m)
  regenerate_bundle_mids

unfoldable pub replace_media_section : MediaSection → String → Method RemoteSdp (Unit {0})
unfolding reuse_media_section get_mid index_of section_at put_section put_media
replace_media_section m reuse_mid =
    if is_empty reuse_mid
    then (do
      mid ← lift (get_mid m)
      idx ← index_of mid
      old ← section_at idx
      modify (put_section idx m)
      size ← read (λ r. length r.media_sections)
      modify (put_media (size - 1) m))
    else reuse_media_section m reuse_mid

unfoldable pub disable_media_section : String → Method RemoteSdp (Unit {0})
unfolding Section.disable index_of section_at put_section
disable_media_section mid = do
  idx ← index_of mid
  m ← section_at idx
  modify (put_section idx (Section.disable m))

-- The first section is only disabled.
unfoldable pub close_media_section : String → Method RemoteSdp (Unit {0})
unfolding Section.disable Section.close regenerate_bundle_mids index_of section_at put_section
    put_media
close_media_section mid = do
  idx ← index_of mid
  m ← section_at idx
  first ← read (λ r. r.first_mid)
  m' ← pure (if mid == first then Section.disable m else Section.close m)
  modify (put_section idx m')
  modify (put_media idx m')
  regenerate_bundle_mids

-- GetSdp: the version is one more, in 32 bits; `write` is sdptransform's.
unfoldable pub get_sdp : (Json → String) → Method RemoteSdp String
unfolding sdp_object
get_sdp write = do
  modify (λ r. record r {
    sdp = record r.sdp { session_version = (r.sdp.session_version + 1) % 2 ^ 32 };
  })
  read (λ r. write (sdp_object r.sdp))

-- A new section takes the first closed one's place, or the one after the last.
unfoldable pub place_section : MediaSection → Method RemoteSdp (Unit {0})
unfolding first_closed get_mid replace_media_section add_media_section
place_section m = do
  sections ← read (λ r. r.media_sections)
  closed ← lift (first_closed sections)
  elim closed [
    | none ↦ add_media_section m
    | some old ↦ do reuse_mid ← lift (get_mid old); replace_media_section m reuse_mid
  ]

module _ (show_float : ShowFloat) where
  unfoldable pub receive : String → String → Json → String → String → Method RemoteSdp (Unit {0})
  unfolding new_offer place_section
  receive mid kind parameters stream_id track_id = do
    made ← (λ r. (
      new_offer show_float r.ice_parameters r.ice_candidates null mid kind parameters stream_id
          track_id,
      r,
    ))
    place_section made

  unfoldable pub recv_sctp_association : Method RemoteSdp (Unit {0})
  unfolding new_offer add_media_section
  recv_sctp_association = do
    made ← (λ r. (
      new_offer show_float r.ice_parameters r.ice_candidates r.sctp_parameters "datachannel"
          "application" null "" "",
      r,
    ))
    add_media_section made

  -- The offer's RTP parameters, as the codec options leave them, are returned.
  unfoldable pub send : Json → String → Json → Json → Option Json → Method RemoteSdp Json
  unfolding new_answer replace_media_section add_media_section
  send offer_media reuse_mid offer parameters options = do
    (made, offer') ← (λ r. (
      new_answer show_float options r.ice_parameters r.ice_candidates r.dtls_parameters
          r.sctp_parameters offer_media offer parameters,
      r,
    ))
    if is_empty reuse_mid then add_media_section made else replace_media_section made reuse_mid
    pure offer'

  unfoldable pub send_sctp_association : Json → Method RemoteSdp (Unit {0})
  unfolding new_answer add_media_section
  send_sctp_association offer_media = do
    (made, unused) ← (λ r. (
      new_answer show_float none r.ice_parameters r.ice_candidates r.dtls_parameters
          r.sctp_parameters offer_media null null,
      r,
    ))
    add_media_section made
