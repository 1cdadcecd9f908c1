-- ===== src/Ortc/Send/Feedback.antt =====
-- getSendingRemoteRtpParameters reduces the RTCP feedback by the congestion control that the header
-- extensions offer.
use libmediasouphandler.Base.{
  String, Bool, true, false, Option, none, some, List, ◌≡◌, refl, ◌==◌, sym, if◌then◌else◌,
}
use libmediasouphandler.Base.Result.{
  ok, ◌>>=◌, >>=-eq-ok, ok_injective, Ensures, Ensures-ok, Ensures-bind, Ensures-bind_eq,
  Ensures-mono,
}
use libmediasouphandler.Json.{
  Json, obj, array, find-assign_member, get, find, find_value, iterate, filter, find_if, traverse,
  All, Mem, Found, find_if-Found, find_if_mem, Filtered, filter-Filtered, Pairwise,
  traverse-Pairwise, present, arr,
}
use libmediasouphandler.Ortc.Send.{
  has_uri, transport_cc_uri, abs_send_time_uri, is_found, keeps_feedback, feedback_test,
  reduce_codec_feedback, congestion_control, sending_parts, rtp_parameters,
  get_sending_remote_rtp_parameters,
}
use libmediasouphandler.Ortc.Send.First.{Parts, sending_parts-Parts}

find_value-eq-ok : (key : String) (j v : Json) → find_value key j ≡ ok v → find key j ≡ some v
unfolding find_value find
find_value-eq-ok key (obj fs) v h = shown (get key fs) h
  where
    shown : (o : Option Json) → present o ≡ ok v → o ≡ some v
    shown none h = cc
    shown (some w) h = cc
find_value-eq-ok key (arr xs) v h = cc
find_value-eq-ok key j v h = cc

-- The codec with the feedback that stays, and nothing else changed.
abbrev pub Reduced : (String → Bool) → Json → Json → Type 0
Reduced keep codec codec' =
    (feedback : Json) × (kept : List Json) × (find "rtcpFeedback" codec ≡ some feedback)
    × Filtered (feedback_test keep) (iterate feedback) kept
    × ((k : String)
        → find k codec' ≡ (if "rtcpFeedback" == k then some (array kept) else find k codec))

reduce-Reduced :
    (keep : String → Bool) (codec : Json)
    → Ensures (Reduced keep codec) (reduce_codec_feedback keep codec)
unfolding reduce_codec_feedback
reduce-Reduced keep codec = Ensures-bind_eq (find_value "rtcpFeedback" codec) _ λ feedback f.
    Ensures-bind (filter (feedback_test keep) (iterate feedback)) _
      (filter-Filtered (feedback_test keep) (iterate feedback))
      λ kept ks.
        Ensures-mono _ (find-assign_member "rtcpFeedback" (array kept) codec)
          λ codec' e. (kept_of feedback kept f ks codec' e)
  where
    kept_of :
        (feedback : Json) (kept : List Json)
        → find_value "rtcpFeedback" codec ≡ ok feedback
        → Filtered (feedback_test keep) (iterate feedback) kept
        → (codec' : Json)
        → ((k : String)
            → find k codec' ≡ (if "rtcpFeedback" == k then some (array kept) else find k codec))
        → Reduced keep codec codec'
    kept_of feedback kept f ks codec' e =
        (feedback, kept, find_value-eq-ok "rtcpFeedback" codec feedback f, ks, e)

-- Whether a header extension with the URI is there.
abbrev pub Offers : Bool → String → List Json → Type 0
Offers true uri exts = (e : Json) × Mem e exts × (has_uri uri e ≡ ok true)
Offers false uri exts = All (λ e. has_uri uri e ≡ ok false) exts

found-Offers :
    (uri : String) (exts : List Json)
    → Ensures (λ o. Offers (is_found o) uri exts) (find_if (has_uri uri) exts)
found-Offers uri exts = record {
  returns = λ o e.
      by_result o ((find_if-Found (has_uri uri) exts).returns o e)
        ((find_if_mem (has_uri uri) exts).returns o e);
}
  where
    by_result :
        (o : Option Json)
        → Found (has_uri uri) exts o
        → ((x : Json) → o ≡ some x → Mem x exts × (has_uri uri x ≡ ok true))
        → Offers (is_found o) uri exts
    by_result none f m = f
    by_result (some x) f m = (x, (m x refl).0, (m x refl).1)

-- Transport-CC is looked for, and where it is not offered, absolute send times are.
abbrev pub Control : List Json → Bool × Bool → Type 0
Control exts (true, abs_time) = Offers true transport_cc_uri exts
Control exts (false, abs_time) =
    Offers false transport_cc_uri exts × Offers abs_time abs_send_time_uri exts

congestion-Control : (exts : List Json) → Ensures (Control exts) (congestion_control exts)
unfolding congestion_control
congestion-Control exts =
    Ensures-bind (find_if (has_uri transport_cc_uri) exts) _ (found-Offers transport_cc_uri exts)
      λ o first. second o first
  where
    second :
        (o : Option Json)
        → Offers (is_found o) transport_cc_uri exts
        → Ensures (Control exts) (do
          abs_send_time ← (if is_found o then ok none else find_if (has_uri abs_send_time_uri) exts)
          ok (is_found o, is_found abs_send_time))
    second none first =
        Ensures-bind (find_if (has_uri abs_send_time_uri) exts) _
          (found-Offers abs_send_time_uri exts) λ o second. Ensures-ok (first, second)
    second (some x) first = Ensures-ok first

-- What the remote side's sending parameters of a kind hold of the extended capabilities.
abbrev pub RemoteSpec : String → Json → Json → Type 0
RemoteSpec kind caps parameters =
    (codecs : List Json) × (all : List Json) × (extensions : List Json) × (transport_cc : Bool)
    × (abs_time : Bool) × (parameters ≡ rtp_parameters codecs extensions)
    × Parts "remoteParameters" kind caps (all, extensions)
    × Control extensions (transport_cc, abs_time)
    × Pairwise (Reduced (keeps_feedback transport_cc abs_time)) all codecs

-- The parameters that getSendingRemoteRtpParameters returns for a kind have header extensions as
-- getSendingRtpParameters takes them, and the codecs that it takes, with the remote side's parameters,
-- each unchanged but for its feedback, which is what stays by what those extensions offer: with
-- Transport-CC all but goog-remb; without it, but with absolute send times, all but transport-cc; with
-- neither, all but the two.
pub remote_feedback_reduced :
    (kind : String) (caps parameters : Json)
    → get_sending_remote_rtp_parameters kind caps ≡ ok parameters
    → RemoteSpec kind caps parameters
unfolding get_sending_remote_rtp_parameters
remote_feedback_reduced kind caps parameters e =
    let ((all, extensions), p, e₁) = >>=-eq-ok (sending_parts "remoteParameters" kind caps) _ e in
    let ((cc_on, abs_on), c, e₂) = >>=-eq-ok (congestion_control extensions) _ e₁ in
    let reduce = reduce_codec_feedback (keeps_feedback cc_on abs_on) in
    let (codecs, t, e₃) = >>=-eq-ok (traverse reduce all) _ e₂ in
    (
      codecs,
      all,
      extensions,
      cc_on,
      abs_on,
      sym (ok_injective e₃),
      (sending_parts-Parts "remoteParameters" kind caps).returns _ p,
      (congestion-Control extensions).returns _ c,
      (traverse-Pairwise _ reduce (reduce-Reduced _) all).returns codecs t,
    )
