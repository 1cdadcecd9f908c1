-- ===== src/Handler/Layers.antt =====
-- SetMaxSpatialLayer of src/Handler.cpp: which encodings it leaves active.
use libmediasouphandler.Base.{
  ℕ, zero, suc, String, ◌&&◌, Option, none, some, List, [], ◌∷◌, ◌≡◌, refl, sym, ◌∙◌, ap,
  if◌then◌else◌, ltb, leb, arith,
}
use libmediasouphandler.Base.Result.{ok}
use libmediasouphandler.Sdp.RemoteSdp.Store.{lookup, element_at}
use libmediasouphandler.Handler.{Handler, transceiver_of}
use libmediasouphandler.Handler.Connection.{Peer, SdpTransform, RtpEncoding, SenderParameters}
use libmediasouphandler.Handler.Senders.{accepted, edit_layers, set_layer_of, set_max_spatial_layer}

-- What becomes of the encoding at an index: it is active if its layer is at most the given one; from
-- the fourth on, and for a number that is no layer, nothing changes.
abbrev pub layered : {Y : Type 0} → ℕ → ℕ → RtpEncoding Y → RtpEncoding Y
layered layer i e =
    if leb 1 layer && leb layer 3 && ltb i 3 then record e { active = ltb i layer } else e

abbrev pub mapped : {A : Type 0} → (A → A) → Option A → Option A
mapped f none = none
mapped f (some a) = some (f a)

edit_layers-layered :
    {Y : Type 0} (layer i : ℕ) (es : List (RtpEncoding Y))
    → element_at i (edit_layers layer es) ≡ mapped (layered layer i) (element_at i es)
unfolding edit_layers element_at
edit_layers-layered layer i [] = ground arith
edit_layers-layered layer zero (l ∷ []) = ground arith
edit_layers-layered layer (suc i) (l ∷ []) = ground arith
edit_layers-layered layer zero (l ∷ m ∷ []) = ground arith
edit_layers-layered layer (suc zero) (l ∷ m ∷ []) = ground arith
edit_layers-layered layer (suc (suc i)) (l ∷ m ∷ []) = ground arith
edit_layers-layered layer zero (l ∷ m ∷ h ∷ rest) = ground arith
edit_layers-layered layer (suc zero) (l ∷ m ∷ h ∷ rest) = ground arith
edit_layers-layered layer (suc (suc zero)) (l ∷ m ∷ h ∷ rest) = ground arith
edit_layers-layered layer (suc (suc (suc i))) (l ∷ m ∷ h ∷ rest) = ground arith

module _ {P D C Y Q : Type 0} (peer : Peer P D C Y Q) (lib : SdpTransform) where
  -- What WebRTC says of SetParameters: where it succeeds, GetParameters returns what was set.
  abbrev pub StoresParameters : Type 0
  StoresParameters =
      (p : P) (sender : ℕ) (parameters : SenderParameters Y Q)
      → (peer.set_parameters sender parameters p).0 ≡ none
      → peer.get_parameters (peer.set_parameters sender parameters p).1 sender ≡ parameters

  -- What is set, and what the call does, for a known local id.
  abbrev layered_parameters : ℕ → ℕ → Handler P → SenderParameters Y Q
  unfolding edit_layers
  layered_parameters layer sender h =
      let before = peer.get_parameters h.pc sender in
      record before { encodings = edit_layers layer before.encodings }

  set_layer_known :
      (local_id : String) (layer transceiver : ℕ) (h : Handler P)
      → lookup local_id h.map_mid_transceiver ≡ some transceiver
      → let sender = peer.sender transceiver in
        let out = peer.set_parameters sender (layered_parameters layer sender h) h.pc in
        set_max_spatial_layer peer lib local_id layer h ≡ (accepted out.0, record h { pc = out.1 })
  unfolding set_max_spatial_layer transceiver_of set_layer_of
  set_layer_known local_id layer transceiver h e = rw e refl

  accepted-none : (o : Option String) → accepted o ≡ ok tt → o ≡ none
  accepted-none none e = refl
  accepted-none (some message) e = cc

  -- Where SetMaxSpatialLayer of a known local id returns, on a peer connection whose senders keep the
  -- parameters that are set, the sender's encoding at each index is as it was but for `active`, which
  -- for a layer 1, 2 or 3 and the first three encodings tells whether the index is below the layer;
  -- the sender's other parameters, the map and the remote description are as they were.
  pub set_layer_activates :
      (local_id : String) (layer transceiver : ℕ) (h : Handler P)
      → StoresParameters
      → lookup local_id h.map_mid_transceiver ≡ some transceiver
      → (set_max_spatial_layer peer lib local_id layer h).0 ≡ ok tt
      → let h' = (set_max_spatial_layer peer lib local_id layer h).1 in
        let before = peer.get_parameters h.pc (peer.sender transceiver) in
        let after = peer.get_parameters h'.pc (peer.sender transceiver) in
        ((i : ℕ)
          → element_at i after.encodings ≡ mapped (layered layer i) (element_at i before.encodings))
        × (after.others ≡ before.others)
        × (h'.map_mid_transceiver ≡ h.map_mid_transceiver)
        × (h'.remote_sdp ≡ h.remote_sdp)
  unfolding layered_parameters
  set_layer_activates local_id layer transceiver h stores e returns =
      let known = set_layer_known local_id layer transceiver h e in
      let sender = peer.sender transceiver in
      let set =
        accepted-none (peer.set_parameters sender (layered_parameters layer sender h) h.pc).0
          (sym (ap (λ out. out.0) known) ∙ returns) in
      rw (known, stores h.pc sender (layered_parameters layer sender h) set)
        (
          (λ i. edit_layers-layered layer i (peer.get_parameters h.pc sender).encodings),
          refl,
          refl,
          refl,
        )
