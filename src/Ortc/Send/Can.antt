-- ===== src/Ortc/Send/Can.antt =====
-- canSend agrees with what getSendingRtpParameters finds to send.
use libmediasouphandler.Base.{
  String, Bool, true, false, Option, none, some, List, [], ◌∷◌, ◌++◌, ◌≡◌, refl, sym, ap, ◌∙◌, inl,
  inr, ◌↔◌, ◌≢◌, subst,
}
use libmediasouphandler.Base.Result.{Result, ok, >>=-eq-ok, ok_injective}
use libmediasouphandler.Json.{
  Json, of_list, to_list, to_list-of_list, iterate, const_element, find_if, All, Found,
  find_if-Found,
}
use libmediasouphandler.Ortc.Send.{
  has_kind, is_found, rtp_parameters, get_sending_rtp_parameters, can_send,
}
use libmediasouphandler.Ortc.Send.First.{FirstOfKind, CodecsOf, sending_takes_first}

ok_same {ℓ} : {A : Type ℓ} (r : Result A) {a b : A} → r ≡ ok a → r ≡ ok b → a ≡ b
ok_same r e e' = ok_injective (sym e ∙ e')

All-fail :
    (kind : String) (before after : List Json) (c : Json)
    → has_kind kind c ≡ ok true
    → ¬ All (λ x. has_kind kind x ≡ ok false) (before ++ (c ∷ after))
All-fail kind [] after c h a = cc (ok_same (has_kind kind c) h a.0)
All-fail kind (b ∷ before) after c h a = All-fail kind before after c h a.1

some_codec : (key : String) (c : Json) (codecs : List Json) → CodecsOf key c codecs → codecs ≢ []
some_codec key c codecs (codec, rtx_type, s, r, inl (n, e)) h = cc
some_codec key c codecs (codec, rtx_type, s, r, inr (rtx, n, x, e)) h = cc

verdict :
    (kind : String) (ecs codecs : List Json) (o : Option Json)
    → Found (has_kind kind) ecs o
    → FirstOfKind "localParameters" kind ecs codecs
    → (is_found o ≡ true) ↔ (codecs ≢ [])
verdict kind ecs codecs none f (inl (fails, e)) = (λ h. cc, λ h. absurd (h e))
verdict kind ecs codecs none f (inr (before, c, after, split, fails, passes, cs)) =
    absurd (All-fail kind before after c passes (subst (All _) split f))
verdict kind ecs codecs (some x) (before, after, split, fails, passes) (inl (none_passes, e)) =
    absurd (All-fail kind before after x passes (subst (All _) split none_passes))
verdict kind ecs codecs (some x) f (inr (before, c, after, split, fails, passes, cs)) =
    (λ h. some_codec "localParameters" c codecs cs, λ h. refl)

codecs_of :
    (codecs codecs' exts exts' : List Json)
    → rtp_parameters codecs exts ≡ rtp_parameters codecs' exts'
    → codecs ≡ codecs'
codecs_of codecs codecs' exts exts' e =
    let same : of_list codecs ≡ of_list codecs' = cc in
    sym (to_list-of_list codecs) ∙ ap to_list same ∙ to_list-of_list codecs'

-- Where both canSend and getSendingRtpParameters return for a kind, canSend answers true exactly if the
-- sending parameters have a codec.
pub can_send_iff :
    (kind : String) (caps : Json) (answer : Bool) (codecs extensions : List Json)
    → can_send kind caps ≡ ok answer
    → get_sending_rtp_parameters kind caps ≡ ok (rtp_parameters codecs extensions)
    → (answer ≡ true) ↔ (codecs ≢ [])
unfolding can_send
can_send_iff kind caps answer codecs extensions c s =
    let (ecs, e, c₁) = >>=-eq-ok (const_element "codecs" caps) _ c in
    let (o, f, c₂) = >>=-eq-ok (find_if (has_kind kind) (iterate ecs)) _ c₁ in
    let (codecs', exts', p, (ecs', ees, e', x, first, es)) = sending_takes_first kind caps _ s in
    let same_codecs : codecs' ≡ codecs = codecs_of codecs' codecs exts' extensions (sym p) in
    let same_value : ecs' ≡ ecs = ok_same (const_element "codecs" caps) e' e in
    let first' : FirstOfKind "localParameters" kind (iterate ecs) codecs =
      subst (λ v. FirstOfKind "localParameters" kind (iterate v) codecs) same_value
        (subst (λ cs. FirstOfKind "localParameters" kind (iterate ecs') cs) same_codecs first) in
    subst (λ b. (b ≡ true) ↔ (codecs ≢ [])) (ok_injective c₂)
      (verdict kind (iterate ecs) codecs o ((find_if-Found _ (iterate ecs)).returns o f) first')
