-- ===== src/Ortc/Send/First.antt =====
-- getSendingRtpParameters takes the first extended codec of a kind, and the header extensions of that
-- kind that may be sent.
use libmediasouphandler.Base.{
  String, Bool, true, false, ◌||◌, Option, none, some, List, [], ◌∷◌, ◌++◌, ◌≡◌, refl, sym, ap, ◌∙◌,
  ◌⊎◌, inl, inr, ◌==◌, eq_iff, if◌then◌else◌, Bool-cases,
}
use libmediasouphandler.Base.Result.{
  ok, ◌>>=◌, >>=-eq-ok, ok_injective, Ensures, Ensures-ok, Ensures-bind, Ensures-mono,
  Ensures-bind_eq,
}
use libmediasouphandler.Json.{
  Json, str, iterate, const_element, get_string, is_null, find_if, flat_map, All, Mem, Found,
  find_if-Found, flat_map-All, All-mem,
}
use libmediasouphandler.Ortc.Send.{
  has_kind, send_codec, send_rtx_codec, send_codecs, send_extension, send_by_direction,
  send_extensions_of, sending_parts, rtp_parameters, get_sending_rtp_parameters,
}

-- The codecs for one extended codec: its media codec, and an RTX codec if it has an RTX payload type.
abbrev pub CodecsOf : String → Json → List Json → Type 0
CodecsOf key extended codecs =
    (codec : Json) × (rtx_type : Json) × (send_codec key extended ≡ ok codec)
    × (const_element "localRtxPayloadType" extended ≡ ok rtx_type)
    × ((is_null rtx_type ≡ true) × (codecs ≡ codec ∷ [])
        ⊎ (rtx : Json) × (is_null rtx_type ≡ false)
          × (send_rtx_codec extended rtx_type ≡ ok rtx)
          × (codecs ≡ codec ∷ rtx ∷ []))

with_rtx-CodecsOf :
    (key : String) (extended codec rtx_type : Json)
    → send_codec key extended ≡ ok codec
    → const_element "localRtxPayloadType" extended ≡ ok rtx_type
    → (null : Bool) → is_null rtx_type ≡ null
    → Ensures (CodecsOf key extended) (
        if null
        then ok (codec ∷ [])
        else (do rtx ← send_rtx_codec extended rtx_type; ok (codec ∷ rtx ∷ [])))
with_rtx-CodecsOf key extended codec rtx_type c r true n =
    Ensures-ok (codec, rtx_type, c, r, inl (n, refl))
with_rtx-CodecsOf key extended codec rtx_type c r false n =
    Ensures-bind_eq (send_rtx_codec extended rtx_type) _
      λ rtx e. Ensures-ok (codec, rtx_type, c, r, inr (rtx, n, e, refl))

codecs-CodecsOf :
    (key : String) (extended : Json)
    → Ensures (CodecsOf key extended) (send_codecs key (some extended))
unfolding send_codecs
codecs-CodecsOf key extended = Ensures-bind_eq (send_codec key extended) _ λ codec c.
    Ensures-bind_eq (const_element "localRtxPayloadType" extended) _
      λ rtx_type r. with_rtx-CodecsOf key extended codec rtx_type c r (is_null rtx_type) refl

-- The codecs to send: none if no extended codec has the kind, and else those of the first that has it.
abbrev pub FirstOfKind : String → String → List Json → List Json → Type 0
FirstOfKind key kind extended codecs =
    All (λ c. has_kind kind c ≡ ok false) extended × (codecs ≡ [])
    ⊎ (before : List Json) × (first : Json) × (after : List Json) × (extended
        ≡ before ++ (first ∷ after))
      × All (λ c. has_kind kind c ≡ ok false) before
      × (has_kind kind first ≡ ok true)
      × CodecsOf key first codecs

first_codecs :
    (key kind : String) (extended : List Json) (o : Option Json)
    → Found (has_kind kind) extended o
    → Ensures (FirstOfKind key kind extended) (send_codecs key o)
unfolding send_codecs
first_codecs key kind extended none f = Ensures-ok (inl (f, refl))
first_codecs key kind extended (some first) (before, after, split, fails, passes) =
    Ensures-mono _ (codecs-CodecsOf key first)
      λ codecs c. inr (before, first, after, split, fails, passes, c)

-- A header extension to send comes from an extended one of the kind whose direction allows it.
abbrev pub SentExtension : String → List Json → Json → Type 0
SentExtension kind extended ext =
    (e : Json) × (direction : String) × Mem e extended
    × (has_kind kind e ≡ ok true)
    × (const_element "direction" e ≡ ok (str direction))
    × ((direction ≡ "sendrecv") ⊎ (direction ≡ "sendonly"))
    × (send_extension e ≡ ok ext)

allowed :
    (s : String) → (s == "sendrecv" || s == "sendonly") ≡ true → (s ≡ "sendrecv") ⊎ (s ≡ "sendonly")
allowed s h = elim (Bool-cases (s == "sendrecv")) [
  | inl e ↦ inl ((eq_iff s "sendrecv").0 e)
  | inr e ↦ inr ((eq_iff s "sendonly").0 (rw e at h))
]

get_string-eq-ok : (j : Json) (s : String) → get_string j ≡ ok s → j ≡ str s
get_string-eq-ok (str t) s h = cc
get_string-eq-ok j s h = cc

by_direction-Sent :
    (kind : String) (extended : List Json) (e : Json)
    → Mem e extended
    → has_kind kind e ≡ ok true
    → Ensures (All (SentExtension kind extended)) (send_by_direction e)
by_direction-Sent kind extended e m k = Ensures-bind_eq (const_element "direction" e) _ λ value d.
    Ensures-bind_eq (get_string value) _ λ text t.
      elim (Bool-cases (text == "sendrecv" || text == "sendonly")) [
        | inl h ↦ rw h (
            Ensures-bind_eq (send_extension e) _ λ ext x.
              Ensures-ok
                ((e, text, m, k, d ∙ ap ok (get_string-eq-ok value text t), allowed text h, x), tt))
        | inr h ↦ rw h (Ensures-ok tt)
      ]

extensions_of-Sent :
    (kind : String) (extended : List Json) (e : Json)
    → Mem e extended
    → Ensures (All (SentExtension kind extended)) (send_extensions_of kind e)
unfolding send_extensions_of
extensions_of-Sent kind extended e m = Ensures-bind_eq (has_kind kind e) _ λ mine k. by_kind mine k
  where
    by_kind :
        (mine : Bool)
        → has_kind kind e ≡ ok mine
        → Ensures (All (SentExtension kind extended)) (if mine then send_by_direction e else ok [])
    by_kind true k = by_direction-Sent kind extended e m k
    by_kind false k = Ensures-ok tt

-- What `sending_parts` returns, whichever side's parameters it takes.
abbrev pub Parts : String → String → Json → List Json × List Json → Type 0
Parts key kind caps (codecs, extensions) =
    (ecs : Json) × (ees : Json) × (const_element "codecs" caps ≡ ok ecs)
    × (const_element "headerExtensions" caps ≡ ok ees)
    × FirstOfKind key kind (iterate ecs) codecs
    × All (SentExtension kind (iterate ees)) extensions

pub sending_parts-Parts :
    (key kind : String) (caps : Json) → Ensures (Parts key kind caps) (sending_parts key kind caps)
unfolding sending_parts
sending_parts-Parts key kind caps = Ensures-bind_eq (const_element "codecs" caps) _ λ ecs c.
    Ensures-bind (find_if (has_kind kind) (iterate ecs)) _ (find_if-Found _ (iterate ecs)) λ o f.
      Ensures-bind (send_codecs key o) _ (first_codecs key kind (iterate ecs) o f) λ codecs s.
        Ensures-bind_eq (const_element "headerExtensions" caps) _ λ ees x.
          Ensures-bind (flat_map (send_extensions_of kind) (iterate ees)) _
            (flat_map-All _ _ (iterate ees)
              (All-mem _ (iterate ees) (extensions_of-Sent kind (iterate ees))))
            λ extensions es. Ensures-ok (ecs, ees, c, x, s, es)

-- What the sending parameters of a kind hold of the extended capabilities.
abbrev pub SendingSpec : String → Json → Json → Type 0
SendingSpec kind caps parameters =
    (codecs : List Json) × (extensions : List Json) × (parameters
      ≡ rtp_parameters codecs extensions)
    × Parts "localParameters" kind caps (codecs, extensions)

-- The parameters that getSendingRtpParameters returns for a kind have no codecs if no extended codec has
-- the kind, and else the media codec of the first that has it, with an RTX codec exactly if that one has
-- a local RTX payload type; and each of their header extensions comes from an extended one of the kind
-- whose direction is "sendrecv" or "sendonly". Mid, encodings and rtcp are empty.
pub sending_takes_first :
    (kind : String) (caps parameters : Json)
    → get_sending_rtp_parameters kind caps ≡ ok parameters
    → SendingSpec kind caps parameters
unfolding get_sending_rtp_parameters
sending_takes_first kind caps parameters e =
    let ((codecs, extensions), parts, e') =
      >>=-eq-ok (sending_parts "localParameters" kind caps) _ e in
    (
      codecs,
      extensions,
      sym (ok_injective e'),
      (sending_parts-Parts "localParameters" kind caps).returns _ parts,
    )
