-- ===== src/Ortc/Extended/Pairs.antt =====
-- getExtendedRtpCapabilities: each extended codec comes from a remote codec and a local one that match.
use libmediasouphandler.Base.{
  Bool, true, false, Option, none, some, List, [], ◌∷◌, ◌≡◌, refl, sym, inl, inr, if◌then◌else◌,
  subst,
}
use libmediasouphandler.Base.Result.{ok, ◌>>=◌, Ensures, Ensures-ok, Ensures-bind, Ensures-bind_eq}
use libmediasouphandler.Json.{Json, Mem, Pairwise}
use libmediasouphandler.Ortc.Match.{H264, match_codecs}
use libmediasouphandler.Ortc.Match.Keeps.{Same, Same-refl, Same-trans, Kept, match_codecs-Kept}
use libmediasouphandler.Ortc.Extended.{search_local}

pub Same-list : (xs : List Json) → Pairwise Same xs xs
Same-list [] = tt
Same-list (x ∷ xs) = (Same-refl x, Same-list xs)

pub Same-trans_list :
    (xs ys zs : List Json) → Pairwise Same xs ys → Pairwise Same ys zs → Pairwise Same xs zs
Same-trans_list [] [] [] h k = tt
Same-trans_list [] [] (z ∷ zs) h k = elim k [ ]
Same-trans_list [] (y ∷ ys) zs h k = elim h [ ]
Same-trans_list (x ∷ xs) [] zs h k = elim h [ ]
Same-trans_list (x ∷ xs) (y ∷ ys) [] h k = elim k [ ]
Same-trans_list (x ∷ xs) (y ∷ ys) (z ∷ zs) (h, hs) (k, ks) =
    (Same-trans x y z h k, Same-trans_list xs ys zs hs ks)

-- One of the codecs is this one, but for what matchCodecs may have modified.
abbrev pub Among : List Json → Json → Type 0
Among xs y = (x : Json) × Mem x xs × Same x y

pub Among-Same : (xs ys : List Json) → Pairwise Same xs ys → (y : Json) → Mem y ys → Among xs y
Among-Same [] [] p z m = elim m [ ]
Among-Same [] (y ∷ ys) p z m = elim p [ ]
Among-Same (x ∷ xs) [] p z m = elim m [ ]
Among-Same (x ∷ xs) (y ∷ ys) (h, hs) z (inl e) = (x, inl refl, subst (Same x) (sym e) h)
Among-Same (x ∷ xs) (y ∷ ys) (h, hs) z (inr m) =
    let (w, n, s) = Among-Same xs ys hs z m in (w, inr n, s)

module _ (h264 : H264) where
  -- The two codecs match, the remote one but for what earlier comparisons may have modified, and the
  -- match leaves these two.
  abbrev pub Matched : Json → Json → Json → Json → Type 0
  Matched remote local local' remote' =
      (tried : Json) × Same remote tried
      × (match_codecs h264 true true local tried ≡ ok (true, local', remote'))

  -- What the search for a local codec leaves.
  abbrev pub Searched : List Json → Json → Option Json × List Json × Json → Type 0
  Searched locals remote (none, locals', remote') =
      Pairwise Same locals locals' × Same remote remote'
  Searched locals remote (some local', locals', remote') =
      Pairwise Same locals locals'
      × Same remote remote'
      × ((local : Json) × Mem local locals
          × Same local local'
          × Matched remote local local' remote')

  pub search-Searched :
      (remote : Json) (locals : List Json)
      → Ensures (Searched locals remote) (search_local h264 remote locals)
  unfolding search_local
  search-Searched remote [] = Ensures-ok (tt, Same-refl remote)
  search-Searched remote (local ∷ locals) =
      Ensures-bind_eq (match_codecs h264 true true local remote) _ λ (m, local', remote') e.
        by_match m local' remote' e ((match_codecs-Kept h264 true true local remote).returns _ e)
          (λ r. search-Searched r locals)
    where
      further :
          (local' remote' : Json)
          → Same local local'
          → Same remote remote'
          → (r : Option Json × List Json × Json) → Searched locals remote' r
          → Searched (local ∷ locals) remote (r.0, local' ∷ r.1, r.2)
      further local' remote' s t (none, locals', remote'') (p, u) =
          ((s, p), Same-trans remote remote' remote'' t u)
      further local' remote' s t (some l, locals', remote'') (p, u, (k, m, v, (tried, x, w))) = (
        (s, p),
        Same-trans remote remote' remote'' t u,
        (k, inr m, v, (tried, Same-trans remote remote' tried t x, w)),
      )

      by_match :
          (m : Bool) (local' remote' : Json)
          → match_codecs h264 true true local remote ≡ ok (m, local', remote')
          → Kept local remote (m, local', remote')
          → ((r : Json) → Ensures (Searched locals r) (search_local h264 r locals))
          → Ensures (Searched (local ∷ locals) remote) (
              let later = search_local h264 remote' locals in
              if m
              then ok (some local', local' ∷ locals, remote')
              else (do (found, locals', remote'') ← later; ok (found, local' ∷ locals', remote'')))
      by_match true local' remote' e (s, t) ih =
          Ensures-ok ((s, Same-list locals), t, (local, inl refl, s, (remote, Same-refl remote, e)))
      by_match false local' remote' e (s, t) ih =
          Ensures-bind (search_local h264 remote' locals) _ (ih remote')
            λ r h. Ensures-ok (further local' remote' s t r h)
