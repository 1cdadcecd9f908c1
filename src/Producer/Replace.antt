-- ===== src/Producer/Replace.antt =====
-- ReplaceTrack keeps the paused state.
use libmediasouphandler.Base.{
  ℕ, false, Option, none, some, ◌∷◌, ◌≡◌, refl, if◌then◌else◌, arith, eqb, ◌⊎◌, inl, inr, ◌||◌,
  Bool-cases,
}
use libmediasouphandler.Base.Result.{ok, err, Error}
use libmediasouphandler.Producer.{Producer, PrivateListener, replace, replace_track, is_paused}

-- If ReplaceTrack returns, the producer was open, has the new track, which has not ended, is paused
-- exactly if it was paused before, and no track but the new one is enabled or disabled.
pub replace_keeps_paused :
    (l : PrivateListener) (p : Producer) (t : ℕ)
    → (replace l (some t) p).0 ≡ ok tt
    → let q = (replace l (some t) p).1 in
      (p.is_closed ≡ false)
      × (p.tracks.ended t ≡ false)
      × (q.track ≡ t)
      × (is_paused q ≡ is_paused p)
      × ((u : ℕ)
          → q.tracks.enabled u ≡ (if eqb t u then p.tracks.enabled p.track else p.tracks.enabled u))
unfolding replace is_paused
replace_keeps_paused l p t h =
    (ground arith, ground arith, ground arith, ground arith, λ u. ground arith)

-- If ReplaceTrack throws, the producer's track, its tracks' states, its closed flag and its layer are as
-- they were; the transport was asked only if the producer is open and the track is a new one that has
-- not ended.
pub replace_throws :
    (l : PrivateListener) (p : Producer) (t : Option ℕ) (e : Error)
    → (replace l t p).0 ≡ err e
    → let q = (replace l t p).1 in
      (q.track ≡ p.track)
      × (q.tracks ≡ p.tracks)
      × (q.is_closed ≡ p.is_closed)
      × (q.spatial_layer ≡ p.spatial_layer)
      × ((q.told ≡ p.told)
          ⊎ (u : ℕ) × (t ≡ some u)
            × (l.on_replace_track u ≡ some e)
            × (q.told ≡ replace_track u ∷ p.told)
            × (p.is_closed ≡ false)
            × (p.tracks.ended u ≡ false)
            × (eqb u p.track ≡ false))
unfolding replace
replace_throws l p none e h =
    (ground arith, ground arith, ground arith, ground arith, inl (ground arith))
replace_throws l p (some u) e h = (ground arith, ground arith, ground arith, ground arith, asked)
  where
    asked :
        ((replace l (some u) p).1.told ≡ p.told)
        ⊎ (v : ℕ) × (some u ≡ some v)
          × (l.on_replace_track v ≡ some e)
          × ((replace l (some u) p).1.told ≡ replace_track v ∷ p.told)
          × (p.is_closed ≡ false)
          × (p.tracks.ended v ≡ false)
          × (eqb v p.track ≡ false)
    asked = elim (Bool-cases (p.is_closed || p.tracks.ended u || eqb u p.track)) [
      | inl b ↦ inl (ground arith)
      | inr b ↦ inr (u, refl, ground arith, ground arith, ground arith, ground arith, ground arith)
    ]
