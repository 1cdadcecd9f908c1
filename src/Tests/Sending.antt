-- ===== src/Tests/Sending.antt =====
-- A track sent by the handler of Tests.Handlers, up to the answer.
use libmediasouphandler.Base.{false, true, none, [], ◌∷◌, ◌≡◌, refl, ◌⊎◌}
use libmediasouphandler.Base.Text.{matches_nocase}
use libmediasouphandler.Base.Result.{Error, ok, err}
use libmediasouphandler.Json.{
  Json, null, str, array, object, put, get, find, iterate, assign_member,
}
use libmediasouphandler.Sdp.Slots.{position, add_slot, next_slot}
use libmediasouphandler.Sdp.Refines.{Refines}
use libmediasouphandler.Handler.State.{Handler}
use libmediasouphandler.Handler.{ensure_transport}
use libmediasouphandler.Handler.Encodings.{spatial_layers, first_mime, media_at}
use libmediasouphandler.Handler.Send.{try_offer, set_offer, send_prepared}
use libmediasouphandler.Handler.Sent.{send_prepared-Settled}
use libmediasouphandler.Tests.Handlers.{Toy, peer, lib, layer, toy, handler, session, audio_section}
use libmediasouphandler.Tests.Sections.{start-Refines}

abbrev parameters : Json
parameters = object (("codecs", array (object (("mimeType", str "audio/opus") ∷ []) ∷ [])) ∷ [])

abbrev named : Json
named =
    object (
      ("codecs", array (object (("mimeType", str "audio/opus") ∷ []) ∷ [])) ∷ ("mid", str "0") ∷ [])

abbrev ready : Handler Toy
ready = record handler { transport_ready = true }

tried : try_offer peer lib 0 (layer true ∷ []) parameters 0 ready ≡ (ok ("0", false, named), ready)
unfolding try_offer ensure_transport spatial_layers first_mime matches_nocase set_offer
    assign_member put get iterate find
tried = refl

send_prepared-Settled_example :
    let out = send_prepared peer lib 7 (layer true ∷ []) none parameters null ready in
    Refines (add_slot "0" []) out.1.remote_sdp
    ⊎ ((e : Error) × (out.0 ≡ err e) × Refines [] out.1.remote_sdp)
unfolding next_slot position media_at find get
send_prepared-Settled_example =
    send_prepared-Settled peer lib [] 7 (layer true ∷ []) none parameters null ready toy 0
      ("0", false, named) ready session audio_section "0" start-Refines refl tried refl refl refl
      refl refl
