-- ===== src/Ortc/Extended/Codecs.antt =====
-- The media codecs of getExtendedRtpCapabilities, in the order of the remote ones.
use libmediasouphandler.Base.{
  String, Bool, true, false, ◌||◌, Option, none, some, List, [], ◌∷◌, ◌++◌, ◌≡◌, refl, sym, ap, ◌⊎◌,
  inl, inr, ◌==◌, if◌then◌else◌, subst,
}
use libmediasouphandler.Base.Result.{ok, Ensures, Ensures-ok, Ensures-bind, Ensures-bind_eq}
use libmediasouphandler.Json.{Json, find, Pairwise}
use libmediasouphandler.Ortc.Match.{H264, is_rtx_codec}
use libmediasouphandler.Ortc.Match.Keeps.{Same}
use libmediasouphandler.Ortc.Extended.{
  extended_codec, search_local, extend_found, extend_media, extend_one, extend_codecs,
}
use libmediasouphandler.Ortc.Extended.Pairs.{
  Among, Matched, Searched, search-Searched, Same-trans_list, Among-Same,
}

-- A member of the extended codec that is no RTX payload type is as it was.
abbrev pub OnlyRtx : Json → Json → Type 0
OnlyRtx codec codec' =
    (k : String)
    → (find k codec' ≡ find k codec)
      ⊎ ((k == "localRtxPayloadType" || k == "remoteRtxPayloadType") ≡ true)

module _ (h264 : H264) where
  -- The extended codec of a remote codec and of one of the local codecs, which match.
  abbrev pub ExtendedFrom : List Json → Json → Json → Type 0
  ExtendedFrom locals remote codec =
      (local : Json) × (local' : Json) × (remote' : Json) × Among locals local
      × Matched h264 remote local local' remote'
      × (extended_codec local' remote' ≡ ok codec)

  -- At most one extended codec for each remote codec, in their order, and none for an RTX codec.
  abbrev pub FromRemotes : List Json → List Json → List Json → Type 0
  FromRemotes locals [] codecs = codecs ≡ []
  FromRemotes locals (remote ∷ remotes) codecs =
      FromRemotes locals remotes codecs
      ⊎ (codec : Json) × (rest : List Json) × (codecs ≡ codec ∷ rest)
        × (is_rtx_codec remote ≡ ok false)
        × ExtendedFrom locals remote codec
        × FromRemotes locals remotes rest

  -- What one round gives, with the local codecs as it leaves them.
  abbrev Round : List Json → Json → List Json × List Json × Json → Type 0
  Round origin remote (codecs, locals', remote') =
      Pairwise Same origin locals'
      × ((codecs ≡ [])
          ⊎ (codec : Json) × (codecs ≡ codec ∷ [])
            × (is_rtx_codec remote ≡ ok false)
            × ExtendedFrom origin remote codec)

  module _ (origin locals : List Json) (since : Pairwise Same origin locals) where
    found-Round :
        (remote : Json)
        → is_rtx_codec remote ≡ ok false
        → (r : Option Json × List Json × Json) → Searched h264 locals remote r
        → Ensures (Round origin remote) (extend_found h264 r.0 r.1 r.2)
    found-Round remote x (none, locals', remote') (p, t) =
        Ensures-ok (Same-trans_list origin locals locals' since p, inl refl)
    found-Round remote x (some local', locals', remote') (p, t, (local, m, s, matched)) =
        Ensures-bind_eq (extended_codec local' remote') _ λ codec e. Ensures-ok (
          Same-trans_list origin locals locals' since p,
          inr (
            codec,
            refl,
            x,
            (local, local', remote', Among-Same origin locals since local m, matched, e),
          ),
        )

    one-Round : (remote : Json) → Ensures (Round origin remote) (extend_one h264 remote locals)
    unfolding extend_one
    one-Round remote = Ensures-bind_eq (is_rtx_codec remote) _ λ rtx x. by_rtx rtx x
      where
        by_rtx :
            (rtx : Bool)
            → is_rtx_codec remote ≡ ok rtx
            → Ensures
                (Round origin remote)
                (if rtx then ok ([], locals, remote) else extend_media h264 remote locals)
        by_rtx true x = Ensures-ok (since, inl refl)
        by_rtx false x =
            Ensures-bind (search_local h264 remote locals) _ (search-Searched h264 remote locals)
              λ r h. found-Round remote x r h

  add_round :
      (origin : List Json) (remote : Json) (remotes codecs more : List Json)
      → (codecs ≡ [])
        ⊎ (codec : Json) × (codecs ≡ codec ∷ [])
          × (is_rtx_codec remote ≡ ok false)
          × ExtendedFrom origin remote codec
      → FromRemotes origin remotes more
      → FromRemotes origin (remote ∷ remotes) (codecs ++ more)
  add_round origin remote remotes codecs more (inl e) f =
      inl (subst (λ cs. FromRemotes origin remotes (cs ++ more)) (sym e) f)
  add_round origin remote remotes codecs more (inr (codec, e, x, from)) f =
      inr (codec, more, ap (λ cs. cs ++ more) e, x, from, f)

  pub codecs-FromRemotes :
      (origin remotes locals : List Json)
      → Pairwise Same origin locals
      → Ensures (λ r. FromRemotes origin remotes r.0) (extend_codecs h264 remotes locals)
  unfolding extend_codecs
  codecs-FromRemotes origin [] locals since = Ensures-ok refl
  codecs-FromRemotes origin (remote ∷ remotes) locals since =
      Ensures-bind (extend_one h264 remote locals) _ (one-Round origin locals since remote)
        λ (codecs, locals', remote') (since', round).
          Ensures-bind (extend_codecs h264 remotes locals') _
            (codecs-FromRemotes origin remotes locals' since')
            λ (more, locals'', remotes') from.
              Ensures-ok (add_round origin remote remotes codecs more round from)
