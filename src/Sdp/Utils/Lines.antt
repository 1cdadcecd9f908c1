-- ===== src/Sdp/Utils/Lines.antt =====
-- getRtpEncodings of src/sdp/Utils.cpp on the lines that addLegacySimulcast writes for streams without RTX.
use libmediasouphandler.Base.{
  ℕ, zero, suc, ◌%◌, ◌^◌, String, true, false, some, List, [], ◌∷◌, ◌++◌, ◌≡◌, ◌≢◌, refl, ◌∙◌, ap,
  eqb, arith,
}
use libmediasouphandler.Base.Text.{join}
use libmediasouphandler.Base.Result.{ok, Ensures, Ensures-bind, Ensures-mono}
use libmediasouphandler.Json.{
  Json, obj, null, boolean, number_integer, number_float, arr, str, array, number_unsigned, find,
  iterate, const_element, get, assign_member, find-assign_member, to_list-of_list,
}
use libmediasouphandler.Sdp.Utils.Encodings.{
  ssrcs_of, unique, unique_after, encodings_of, get_rtp_encodings,
}
use libmediasouphandler.Sdp.Utils.Simulcast.{
  group_line, printed, fid_groups, streams, simulcast_ssrcs, write_streams,
}

abbrev twice : List ℕ → List ℕ
twice [] = []
twice (a ∷ rest) = a ∷ a ∷ twice rest

ssrcs_of-streams :
    (cname msid : String) (n first : ℕ)
    → ssrcs_of (simulcast_ssrcs cname msid (streams n first)) ≡ ok (twice (streams n first))
unfolding ssrcs_of simulcast_ssrcs streams const_element get
ssrcs_of-streams cname msid zero first = refl
ssrcs_of-streams cname msid (suc n) first =
    rw (ssrcs_of-streams cname msid n (suc first), mod_mod first) refl
  where
    mod_mod : (a : ℕ) → a % 4294967296 % 4294967296 ≡ a % 4294967296
    mod_mod a = omega arith

unique_after-streams :
    (n first : ℕ)
    → unique_after (first % 2 ^ 32) (twice (streams n (suc first))) ≡ streams n (suc first)
unfolding streams
unique_after-streams zero first = refl
unique_after-streams (suc n) first =
    rw
      (
        eqb_false (first % 4294967296) (suc first % 4294967296) (next_differs first),
        eqb_true (suc first % 4294967296),
        unique_after-streams n (suc first),
      )
      refl
  where
    eqb_false : (a b : ℕ) → a ≢ b → eqb a b ≡ false
    eqb_false a b h = ground (arith, h)

    eqb_true : (a : ℕ) → eqb a a ≡ true
    eqb_true a = ground arith

    next_differs : (a : ℕ) → a % 4294967296 ≢ suc a % 4294967296
    next_differs a e = omega (arith, e)

++_nil : {A : Type 0} (xs : List A) → xs ++ [] ≡ xs
++_nil [] = refl
++_nil (x ∷ xs) = ap (λ ys. x ∷ ys) (++_nil xs)

unique-streams : (n first : ℕ) → unique (twice (streams n first)) ≡ streams n first
unfolding unique streams
unique-streams zero first = refl
unique-streams (suc n) first = rw (eqb_true (first % 4294967296), unique_after-streams n first) refl
  where
    eqb_true : (a : ℕ) → eqb a a ≡ true
    eqb_true a = ground arith

iterate-array : (xs : List Json) → iterate (array xs) ≡ xs
unfolding iterate
iterate-array xs = to_list-of_list xs

const_element-find : (key : String) (j v : Json) → find key j ≡ some v → const_element key j ≡ ok v
unfolding find const_element
const_element-find key (obj fs) v e = rw e refl
const_element-find key null v e = cc
const_element-find key (boolean b) v e = cc
const_element-find key (number_integer z) v e = cc
const_element-find key (number_unsigned n) v e = cc
const_element-find key (number_float z k) v e = cc
const_element-find key (str s) v e = cc
const_element-find key (arr xs) v e = cc

fid_groups_none : (ssrcs : List ℕ) → fid_groups ssrcs [] ≡ []
unfolding fid_groups
fid_groups_none [] = refl
fid_groups_none (a ∷ ssrcs) = refl

streams-suc : (n first : ℕ) → streams (suc n) first ≡ first % 2 ^ 32 ∷ streams n (suc first)
unfolding streams
streams-suc n first = refl

none_written : (cname msid : String) → simulcast_ssrcs cname msid [] ≡ []
unfolding simulcast_ssrcs
none_written cname msid = refl

module _ (cname msid groups : String) (n first : ℕ) where
  -- The lines are read as one SSRC after the other, each without RTX.
  lines-read :
      (media : Json)
      → find "ssrcs" media
        ≡ some (
            array
              (simulcast_ssrcs cname msid (streams (suc n) first) ++ simulcast_ssrcs cname msid []))
      → find "ssrcGroups" media
        ≡ some (array (group_line "SIM" groups ∷ fid_groups (streams (suc n) first) []))
      → get_rtp_encodings media ≡ ok (encodings_of [] (streams (suc n) first))
  unfolding get_rtp_encodings
  lines-read media h g =
      rw
        (
          const_element-find "ssrcs" media _ h,
          g,
          no_more,
          ++_nil (simulcast_ssrcs cname msid (streams (suc n) first)),
          fid_groups_none (streams (suc n) first),
          iterate-array (simulcast_ssrcs cname msid (streams (suc n) first)),
          ssrcs_of-streams cname msid (suc n) first,
          unique-streams (suc n) first,
          streams-suc n first,
        )
        refl
    where
      no_more : simulcast_ssrcs cname msid [] ≡ []
      no_more = none_written cname msid

abbrev sim_groups : ℕ → ℕ → Json
unfolding join streams fid_groups
sim_groups n first = array (
    group_line "SIM" (join " " (printed (streams (suc n) first)))
    ∷ fid_groups (streams (suc n) first) [])

pub write_streams-read :
    (cname msid : String) (n first : ℕ) (media : Json)
    → Ensures
        (λ media'. get_rtp_encodings media' ≡ ok (encodings_of [] (streams (suc n) first)))
        (write_streams cname msid (streams (suc n) first) [] media)
unfolding write_streams sim_groups
write_streams-read cname msid n first media =
    Ensures-bind (assign_member "ssrcGroups" (some (sim_groups n first)) media) _
      (find-assign_member "ssrcGroups" (sim_groups n first) media)
      λ m1 f1.
        let ssrcs =
          array
            (simulcast_ssrcs cname msid (streams (suc n) first) ++ simulcast_ssrcs cname msid []) in
        Ensures-mono (assign_member "ssrcs" (some ssrcs) m1) (find-assign_member "ssrcs" ssrcs m1)
          λ m2 f2.
            lines-read cname msid (join " " (printed (streams (suc n) first))) n first m2
              (f2 "ssrcs") (f2 "ssrcGroups" ∙ f1 "ssrcGroups")
