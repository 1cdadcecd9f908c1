-- ===== src/Ortc/Validate/Ice.antt =====
-- validateIceParameters, validateIceCandidate, validateIceCandidates, validateDtlsFingerprint and
-- validateDtlsParameters.
use libmediasouphandler.Base.{String, Bool, true, false, ◌||◌, List, [], ◌∷◌, Option}
use libmediasouphandler.Base.Text.{matches_nocase}
use libmediasouphandler.Base.Result.{Result, ok, err, type_error, ◌>>=◌}
use libmediasouphandler.Json.{
  Json, boolean, str, arr, cons, to_list, array, traverse, is_boolean, is_number_unsigned,
}
use libmediasouphandler.Ortc.Rule.{Rule, validate, mandatory, default_to, then_step, each}
use libmediasouphandler.Ortc.Validate.Extension.{is_text}

abbrev pub ice_parameters_rules : List Rule
ice_parameters_rules =
    record { key = "usernameFragment"; step = mandatory is_text "missing params.usernameFragment" }
    ∷ record { key = "password"; step = mandatory is_text "missing params.password" }
    ∷ record { key = "iceLite"; step = default_to is_boolean (boolean false) }
    ∷ []

unfoldable pub validate_ice_parameters : Json → Result Json
validate_ice_parameters = validate "params is not an object" ice_parameters_rules

-- The text is one of some words, whatever its case.
abbrev pub one_of : List String → String → Bool
one_of [] s = false
one_of (w ∷ ws) s = matches_nocase s w || one_of ws s

abbrev pub is_one_of : List String → Json → Bool
is_one_of ws (str s) = one_of ws s
is_one_of ws _ = false

-- A text that is not empty, and then one of some words.
abbrev pub word_step : String → String → List String → Option Json → Result (Option Json)
word_step missing invalid ws =
    then_step (mandatory is_text missing) (mandatory (is_one_of ws) invalid)

abbrev pub ice_candidate_rules : List Rule
ice_candidate_rules =
    record { key = "foundation"; step = mandatory is_text "missing params.foundation" }
    ∷ record { key = "priority"; step = mandatory is_number_unsigned "missing params.priority" }
    ∷ record { key = "ip"; step = mandatory is_text "missing params.ip" }
    ∷ record {
      key = "protocol";
      step = word_step "missing params.protocol" "invalid params.protocol" ("udp" ∷ "tcp" ∷ []);
    }
    ∷ record { key = "port"; step = mandatory is_number_unsigned "missing params.port" }
    ∷ record {
      key = "type";
      step =
          word_step "missing params.type" "invalid params.type"
            ("host" ∷ "srflx" ∷ "prflx" ∷ "relay" ∷ []);
    }
    ∷ []

unfoldable pub validate_ice_candidate : Json → Result Json
validate_ice_candidate = validate "params is not an object" ice_candidate_rules

unfoldable pub validate_ice_candidates : Json → Result Json
validate_ice_candidates (arr xs) = do
  ys ← traverse validate_ice_candidate (to_list xs)
  ok (array ys)
validate_ice_candidates _ = err (type_error "params is not an array")

abbrev pub dtls_fingerprint_rules : List Rule
dtls_fingerprint_rules =
    record { key = "algorithm"; step = mandatory is_text "missing params.algorithm" }
    ∷ record { key = "value"; step = mandatory is_text "missing params.value" }
    ∷ []

unfoldable pub validate_dtls_fingerprint : Json → Result Json
validate_dtls_fingerprint = validate "params is not an object" dtls_fingerprint_rules

-- An array that is not empty.
abbrev pub is_nonempty_array : Json → Bool
is_nonempty_array (arr (cons x xs)) = true
is_nonempty_array _ = false

abbrev pub dtls_parameters_rules : List Rule
dtls_parameters_rules =
    record {
      key = "role";
      step =
          word_step "missing params.role" "invalid params.role" ("auto" ∷ "client" ∷ "server" ∷ []);
    }
    ∷ record {
      key = "fingerprints";
      step =
          then_step (mandatory is_nonempty_array "missing params.fingerprints")
            (each validate_dtls_fingerprint);
    }
    ∷ []

unfoldable pub validate_dtls_parameters : Json → Result Json
validate_dtls_parameters = validate "params is not an object" dtls_parameters_rules
