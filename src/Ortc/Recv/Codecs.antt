-- ===== src/Ortc/Recv/Codecs.antt =====
-- getRecvRtpCapabilities: the codecs and the header extensions that it keeps, and from where.
use Prim.Native.String.{◌++◌ as append}
use libmediasouphandler.Base.{
  ℕ, String, Bool, true, false, ◌||◌, Option, none, some, List, [], ◌∷◌, ◌≡◌, refl, sym, ap, ◌∙◌,
  ◌⊎◌, inl, inr, ◌≢◌, ◌==◌, eq_iff, if◌then◌else◌, Bool-cases, arith,
}
use libmediasouphandler.Base.Result.{
  ok, ◌>>=◌, >>=-eq-ok, ok_injective, Ensures, Ensures-ok, Ensures-bind, Ensures-bind_eq,
}
use libmediasouphandler.Json.{
  Json, str, obj, number_unsigned, array, object, members, find, iterate, const_element, get_string,
  get_uint8, is_null, flat_map, Concat, flat_map-Concat,
}
use libmediasouphandler.Ortc.Extended.{with_member}
use libmediasouphandler.Ortc.Recv.{
  recv_codec, recv_rtx_codec, recv_codecs_of, recv_extension, recv_extensions_of,
  get_recv_rtp_capabilities,
}

-- An RTX codec for a media codec: its MIME type is the kind's own, and its apt is the payload type of
-- the media codec, taken as a uint8_t.
abbrev pub IsRtxOf : Json → Json → Json → Type 0
IsRtxOf extended codec rtx =
    (kind : String) × (payload_type : Json) × (apt : ℕ) × (const_element "kind" extended
      ≡ ok (str kind))
    × (find "mimeType" rtx ≡ some (str (append kind "/rtx")))
    × (find "preferredPayloadType" codec ≡ some payload_type)
    × (get_uint8 payload_type ≡ ok apt)
    × (find "parameters" rtx ≡ some (object (("apt", number_unsigned apt) ∷ [])))

-- What one extended codec gives: its media codec, and an RTX codec exactly if the remote side has one.
abbrev pub RecvCodecs : Json → List Json → Type 0
RecvCodecs extended codecs =
    (codec : Json) × (rtx_type : Json) × (payload_type : Json) × (const_element "remotePayloadType"
        extended
      ≡ ok payload_type)
    × (find "preferredPayloadType" codec ≡ some payload_type)
    × (const_element "remoteRtxPayloadType" extended ≡ ok rtx_type)
    × ((is_null rtx_type ≡ true) × (codecs ≡ codec ∷ [])
        ⊎ (rtx : Json) × (is_null rtx_type ≡ false)
          × (codecs ≡ codec ∷ rtx ∷ [])
          × (find "preferredPayloadType" rtx ≡ some rtx_type)
          × IsRtxOf extended codec rtx)

-- The media codec has the remote payload type.
recv_codec_type :
    (extended : Json)
    → Ensures
        (λ codec.
          (v : Json) × (const_element "remotePayloadType" extended ≡ ok v)
          × (find "preferredPayloadType" codec ≡ some v))
        (recv_codec extended)
unfolding recv_codec find
recv_codec_type extended = Ensures-bind_eq (const_element "mimeType" extended) _ λ mime _.
    Ensures-bind_eq (const_element "kind" extended) _ λ kind _.
      Ensures-bind_eq (const_element "remotePayloadType" extended) _ λ v e.
        Ensures-bind_eq (const_element "clockRate" extended) _ λ rate _.
          Ensures-bind_eq (const_element "localParameters" extended) _ λ parameters _.
            Ensures-bind_eq (const_element "rtcpFeedback" extended) _ λ feedback _.
              Ensures-ok
                (v, e, shown (find "channels" extended) mime kind v rate parameters feedback)
  where
    shown :
        (o : Option Json) (mime kind v rate parameters feedback : Json)
        → find "preferredPayloadType" (
            obj (
              with_member "channels" o (
                members (
                  ("mimeType", mime)
                  ∷ ("kind", kind)
                  ∷ ("preferredPayloadType", v)
                  ∷ ("clockRate", rate)
                  ∷ ("parameters", parameters)
                  ∷ ("rtcpFeedback", feedback)
                  ∷ []))))
          ≡ some v
    shown none mime kind v rate parameters feedback = refl
    shown (some c) mime kind v rate parameters feedback = refl

get_string-eq-ok : (j : Json) (s : String) → get_string j ≡ ok s → j ≡ str s
get_string-eq-ok (str t) s h = cc
get_string-eq-ok j s h = cc

rtx-IsRtxOf :
    (extended codec rtx_type v : Json)
    → const_element "remotePayloadType" extended ≡ ok v
    → find "preferredPayloadType" codec ≡ some v
    → Ensures
        (λ rtx. (find "preferredPayloadType" rtx ≡ some rtx_type) × IsRtxOf extended codec rtx)
        (recv_rtx_codec extended rtx_type)
unfolding recv_rtx_codec find
rtx-IsRtxOf extended codec rtx_type v p c =
    Ensures-bind_eq (const_element "kind" extended) _ λ kind k.
      Ensures-bind_eq (get_string kind) _ λ text t.
        Ensures-bind_eq (const_element "clockRate" extended) _ λ rate _.
          Ensures-bind_eq (const_element "remotePayloadType" extended) _ λ w e.
            Ensures-bind_eq (get_uint8 w) _ λ apt a.
              let same : w ≡ v = ok_injective (sym e ∙ p) in
              Ensures-ok (
                refl,
                (
                  text,
                  v,
                  apt,
                  k ∙ ap ok (get_string-eq-ok kind text t),
                  refl,
                  c,
                  ap get_uint8 (sym same) ∙ a,
                  refl,
                ),
              )

codecs_of-RecvCodecs : (extended : Json) → Ensures (RecvCodecs extended) (recv_codecs_of extended)
unfolding recv_codecs_of
codecs_of-RecvCodecs extended =
    Ensures-bind (recv_codec extended) _ (recv_codec_type extended) λ codec (v, p, c).
      Ensures-bind_eq (const_element "remoteRtxPayloadType" extended) _
        λ rtx_type r. by_type codec v p c rtx_type r (is_null rtx_type) refl
  where
    by_type :
        (codec v : Json)
        → const_element "remotePayloadType" extended ≡ ok v
        → find "preferredPayloadType" codec ≡ some v
        → (rtx_type : Json) → const_element "remoteRtxPayloadType" extended ≡ ok rtx_type
        → (b : Bool) → is_null rtx_type ≡ b
        → Ensures (RecvCodecs extended) (
            if b
            then ok (codec ∷ [])
            else (do rtx ← recv_rtx_codec extended rtx_type; ok (codec ∷ rtx ∷ [])))
    by_type codec v p c rtx_type r true n = Ensures-ok (codec, rtx_type, v, p, c, r, inl (n, refl))
    by_type codec v p c rtx_type r false n =
        Ensures-bind (recv_rtx_codec extended rtx_type) _
          (rtx-IsRtxOf extended codec rtx_type v p c)
          λ rtx (t, x). Ensures-ok (codec, rtx_type, v, p, c, r, inr (rtx, n, refl, t, x))

-- A header extension is kept exactly if its direction allows receiving.
abbrev pub RecvExtensions : Json → List Json → Type 0
RecvExtensions extended exts =
    (direction : String) × (const_element "direction" extended ≡ ok (str direction))
    × ((direction ≢ "sendrecv") × (direction ≢ "recvonly") × (exts ≡ [])
        ⊎ (ext : Json) × ((direction ≡ "sendrecv") ⊎ (direction ≡ "recvonly"))
          × (recv_extension extended (str direction) ≡ ok ext)
          × (exts ≡ ext ∷ []))

either :
    (s : String) → (s == "sendrecv" || s == "recvonly") ≡ true → (s ≡ "sendrecv") ⊎ (s ≡ "recvonly")
either s h = elim (Bool-cases (s == "sendrecv")) [
  | inl e ↦ inl ((eq_iff s "sendrecv").0 e)
  | inr e ↦ inr ((eq_iff s "recvonly").0 (rw e at h))
]

neither :
    (s : String)
    → (s == "sendrecv" || s == "recvonly") ≡ false
    → (s ≢ "sendrecv") × (s ≢ "recvonly")
neither s h =
    (ground (arith, eq_iff s "sendrecv"), ground (arith, eq_iff s "recvonly", eq_iff s "sendrecv"))

extensions_of-RecvExtensions :
    (extended : Json) → Ensures (RecvExtensions extended) (recv_extensions_of extended)
unfolding recv_extensions_of
extensions_of-RecvExtensions extended =
    Ensures-bind_eq (const_element "direction" extended) _ λ value d.
      Ensures-bind_eq (get_string value) _ λ text t.
        let same : value ≡ str text = get_string-eq-ok value text t in
        elim (Bool-cases (text == "sendrecv" || text == "recvonly")) [
          | inl h ↦ rw h (
              Ensures-bind_eq (recv_extension extended value) _ λ ext x. Ensures-ok (
                text,
                d ∙ ap ok same,
                inr (ext, either text h, ap (recv_extension extended) (sym same) ∙ x, refl),
              ))
          | inr h ↦ rw h (
              Ensures-ok (text, d ∙ ap ok same, inl ((neither text h).0, (neither text h).1, refl)))
        ]

-- What the receiving capabilities hold of the extended ones.
abbrev pub RecvSpec : Json → Json → Type 0
RecvSpec extended caps =
    (ecs : Json) × (ees : Json) × (codecs : List Json) × (extensions : List Json) × (const_element
        "codecs" extended
      ≡ ok ecs)
    × (const_element "headerExtensions" extended ≡ ok ees)
    × (caps ≡ object (("codecs", array codecs) ∷ ("headerExtensions", array extensions) ∷ []))
    × Concat RecvCodecs (iterate ecs) codecs
    × Concat RecvExtensions (iterate ees) extensions

-- The capabilities that getRecvRtpCapabilities returns hold, in the order of the extended codecs, each
-- one's media codec, under the remote payload type, and behind it exactly if it has a remote RTX payload
-- type an RTX codec of that payload type, whose apt is the media codec's payload type as a uint8_t; and,
-- in the order of the extended header extensions, the header extensions whose direction is "sendrecv" or
-- "recvonly", and no others.
pub recv_keeps :
    (extended caps : Json) → get_recv_rtp_capabilities extended ≡ ok caps → RecvSpec extended caps
unfolding get_recv_rtp_capabilities
recv_keeps extended caps e =
    let (ecs, c, e₁) = >>=-eq-ok (const_element "codecs" extended) _ e in
    let (codecs, f, e₂) = >>=-eq-ok (flat_map recv_codecs_of (iterate ecs)) _ e₁ in
    let (ees, x, e₃) = >>=-eq-ok (const_element "headerExtensions" extended) _ e₂ in
    let exts =
      flat_map-Concat RecvExtensions recv_extensions_of extensions_of-RecvExtensions
        (iterate ees) in
    let (extensions, g, e₄) = >>=-eq-ok (flat_map recv_extensions_of (iterate ees)) _ e₃ in
    (
      ecs,
      ees,
      codecs,
      extensions,
      c,
      x,
      sym (ok_injective e₄),
      (flat_map-Concat RecvCodecs recv_codecs_of codecs_of-RecvCodecs (iterate ecs)).returns codecs
          f,
      exts.returns extensions g,
    )
